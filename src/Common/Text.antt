-- ===== src/Common/Text.antt =====
-- ASCII texts as lists of character codes.
use Prim.Native.Nat.{ℕ}
use Prim.Native.Char.{code}
use Prim.Native.String.{String}
use mathlib.Core.List.{List, [], ◌∷◌}

abbrev pub characters : String → List ℕ
characters String.[] = []
characters (String.◌∷◌ first text) = code first ∷ characters text
