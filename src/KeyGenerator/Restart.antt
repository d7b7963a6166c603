-- ===== src/KeyGenerator/Restart.antt =====
-- Generators of lib/key_generator.h over several runs of a program, through the file.
use c_cpp_sandbox.Common.{
  ℕ, zero, suc, ◌+◌, ◌^◌, ◌≤◌, ◌<◌, ◌≡◌, ◌≢◌, refl, sym, ap, Option, none, some, List, [], ◌∷◌,
  arith, All,
}
use c_cpp_sandbox.KeyGenerator.{val_to_hex_char_array, refresh, unique_key_generator, next, destroy}
use c_cpp_sandbox.KeyGenerator.Digits.{refresh-hex}

-- A generator that is destroyed and made again from the same file goes on where it stopped.
pub generator-destroy :
    (current : ℕ) → current < 2 ^ 64 → unique_key_generator (destroy current) ≡ some current
unfolding unique_key_generator destroy
generator-destroy current h = refresh-hex current h

-- What happens to a generator: a key is taken, or the program ends and is started again.
pub data Event : Type 0 where
  take_key : Event
  restart : Event

-- The keys that are taken, from the value `current` on; `none` when a constructor throws.
abbrev pub keys : ℕ → List Event → Option (List (Option (List ℕ)))
keys current [] = some []
keys current (take_key ∷ events) = elim (keys (next current).1 events) [
  | none ↦ none
  | some rest ↦ some ((next current).0 ∷ rest)
]
keys current (restart ∷ events) = elim (unique_key_generator (destroy current)) [
  | none ↦ none
  | some current' ↦ keys current' events
]

abbrev pub taken : List Event → ℕ
taken [] = 0
taken (take_key ∷ events) = suc (taken events)
taken (restart ∷ events) = taken events

-- The next `n` values after `current`, in hexadecimal.
abbrev pub successive : ℕ → ℕ → List (Option (List ℕ))
successive zero current = []
successive (suc n) current = val_to_hex_char_array [] (current + 1) 8 ∷ successive n (current + 1)

next-key :
    (current : ℕ)
    → current + 1 < 2 ^ 64
    → next current ≡ (val_to_hex_char_array [] (current + 1) 8, current + 1)
unfolding next
next-key current h = ap (λ v. (val_to_hex_char_array [] v 8, v)) (omega arith)

-- As long as the value does not pass 2^64, the keys over any number of restarts are the next values
-- in hexadecimal, in order, as if the program had never ended.
pub keys-successive :
    (events : List Event) (current : ℕ)
    → current + taken events < 2 ^ 64
    → keys current events ≡ some (successive (taken events) current)
keys-successive [] current h = refl
keys-successive (take_key ∷ events) current h =
    let e = next-key current (omega arith) in
    rw (ap (λ p. p.1) e, keys-successive events (current + 1) (omega arith), ap (λ p. p.0) e)
keys-successive (restart ∷ events) current h =
    ground
      (arith, generator-destroy current (omega arith), keys-successive events current (omega arith))

hex_injective :
    {v w : ℕ}
    → v < 2 ^ 64
    → w < 2 ^ 64
    → val_to_hex_char_array [] v 8 ≡ val_to_hex_char_array [] w 8
    → v ≡ w
hex_injective {v} {w} hv hw e =
    cc (sym (refresh-hex v hv), ap (λ f. refresh f 0) e, refresh-hex w hw)

-- No two elements are equal.
abbrev pub IsDistinct {ℓ} : {A : Type ℓ} → List A → Type ℓ
IsDistinct [] = Unit
IsDistinct (x ∷ xs) = All (λ y. x ≢ y) xs × IsDistinct xs

later_differ :
    (n v current : ℕ)
    → v ≤ current
    → current + n < 2 ^ 64
    → All (λ y. val_to_hex_char_array [] v 8 ≢ y) (successive n current)
later_differ zero v current le h = tt
later_differ (suc n) v current le h = (
  (λ e. omega (arith, hex_injective {v = v} {w = current + 1} (omega arith) (omega arith) e, le)),
  later_differ n v (current + 1) (omega arith) (omega arith),
)

successive-IsDistinct : (n current : ℕ) → current + n < 2 ^ 64 → IsDistinct (successive n current)
successive-IsDistinct zero current h = tt
successive-IsDistinct (suc n) current h = (
  later_differ n (current + 1) (current + 1) (omega arith) (omega arith),
  successive-IsDistinct n (current + 1) (omega arith),
)

-- As long as the value does not pass 2^64, no key is given twice, over any number of restarts.
pub keys-IsDistinct :
    (events : List Event) (current : ℕ)
    → current + taken events < 2 ^ 64
    → (l : List (Option (List ℕ))) × (keys current events ≡ some l) × IsDistinct l
keys-IsDistinct events current h =
    (_, keys-successive events current h, successive-IsDistinct (taken events) current h)
