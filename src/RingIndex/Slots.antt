-- ===== src/RingIndex/Slots.antt =====
-- What a ring of lib/ringindex.h stands for: the slots of the caller's buffer that are in use.
use c_cpp_sandbox.Common.{
  ℕ, zero, suc, ◌+◌, ◌-◌, ◌^◌, ◌≤◌, ◌<◌, ◌≡◌, refl, ap, List, [], ◌∷◌, ◌++◌, arith, leb,
  if◌then◌else◌, length,
}
use c_cpp_sandbox.RingIndex.{SArray, next_index}

-- Both indices are slots of the buffer, and no index is near the end of `size_t`.
pub record IsValid (r : SArray) : Type 0 where
  pub push_in : r.push ≤ r.cap
  pub pop_in : r.pop ≤ r.cap
  pub small : r.cap < 2 ^ 63

-- The `n` slots behind slot `i`, going round behind slot `cap`.
abbrev pub slots : ℕ → ℕ → ℕ → List ℕ
slots cap i zero = []
slots cap i (suc n) = next_index cap i ∷ slots cap (next_index cap i) n

-- The distance from `pop` to `push` round the ring.
abbrev pub count : SArray → ℕ
count r = if leb r.pop r.push then r.push - r.pop else r.push + (r.cap + 1) - r.pop

-- The slots in use, oldest first.
abbrev pub contents : SArray → List ℕ
contents r = slots r.cap r.pop (count r)

pub length-slots : (cap i n : ℕ) → length (slots cap i n) ≡ n
length-slots cap i zero = refl
length-slots cap i (suc n) = ap suc (length-slots cap (next_index cap i) n)

abbrev pub rest : List ℕ → List ℕ
rest [] = []
rest (x ∷ xs) = xs

-- The slot that lies `n` steps behind `i`.
abbrev pub slot_at : ℕ → ℕ → ℕ → ℕ
slot_at cap i zero = i
slot_at cap i (suc n) = slot_at cap (next_index cap i) n

-- One more step gives one more slot at the end.
pub slots-suc :
    (cap i n : ℕ) → slots cap i (suc n) ≡ slots cap i n ++ (next_index cap (slot_at cap i n) ∷ [])
slots-suc cap i zero = refl
slots-suc cap i (suc n) = ap (λ l. next_index cap i ∷ l) (slots-suc cap (next_index cap i) n)

-- `n` steps forward, when they go round the ring at most once.
pub slot_at-eq :
    (cap i n : ℕ)
    → i ≤ cap
    → cap < 2 ^ 63
    → n ≤ cap
    → slot_at cap i n ≡ (if leb (i + n) cap then i + n else i + n - (cap + 1))
slot_at-eq cap i zero h small le = ground arith
slot_at-eq cap i (suc n) h small le = ground (arith, slot_at-eq cap (next_index cap i) n)
