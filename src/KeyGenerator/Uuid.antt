-- ===== src/KeyGenerator/Uuid.antt =====
-- The UUID generators of lib/key_generator.h.
use c_cpp_sandbox.Common.{
  ℕ, ◌+◌, ◌*◌, ◌%◌, ◌^◌, ◌≤◌, ◌≡◌, refl, some, List, [], ◌∷◌, arith, All, length,
}
use c_cpp_sandbox.KeyGenerator.{
  hex_loop, val_to_hex_char_array, uuid_v4_initialize, uuid_v4_loop, uuid_v4_next,
}
use c_cpp_sandbox.KeyGenerator.Digits.{IsHexChar, length-hex_loop, hex_loop-IsHexChar}

-- A key of so many characters, all of them hexadecimal.
pub record IsKey (size : ℕ) (key : List ℕ) : Type 0 where
  pub size_is : length key ≡ size
  pub characters : All IsHexChar key

uuid_v4_loop-IsKey :
    (chars randoms : List ℕ) (size : ℕ)
    → IsKey size chars
    → (key : List ℕ) × (uuid_v4_loop chars randoms ≡ some key)
      × IsKey (size + 8 * length randoms) key
unfolding uuid_v4_loop val_to_hex_char_array
uuid_v4_loop-IsKey chars [] size k =
    (chars, refl, record { size_is = omega (arith, k.size_is); characters = k.characters })
uuid_v4_loop-IsKey chars (r ∷ randoms) size k =
    let (key, e, k') =
      uuid_v4_loop-IsKey (hex_loop chars (r % 2 ^ 32) 4) randoms (size + 8) (record {
        size_is = omega (arith, length-hex_loop chars (r % 2 ^ 32) 4, k.size_is);
        characters = hex_loop-IsHexChar chars (r % 2 ^ 32) 4 k.characters;
      }) in
    (key, e, record { size_is = omega (arith, k'.size_is); characters = k'.characters })

-- A generator that `initialize` accepts has between four and six random words, and its keys have
-- eight hexadecimal characters for each of them, whatever the words are.
pub uuid_v4_next-IsKey :
    (val num_randoms : ℕ) (randoms : List ℕ)
    → uuid_v4_initialize val ≡ some num_randoms
    → length randoms ≡ num_randoms
    → (4 ≤ num_randoms)
      × (num_randoms ≤ 6)
      × (key : List ℕ) × (uuid_v4_next randoms ≡ some key)
      × IsKey (8 * num_randoms) key
unfolding uuid_v4_initialize uuid_v4_next
uuid_v4_next-IsKey val num_randoms randoms e n =
    let (key, made, k) =
      uuid_v4_loop-IsKey [] randoms 0 (record { size_is = refl; characters = tt }) in
    (
      ground (arith, e),
      ground (arith, e),
      key,
      made,
      record { size_is = omega (arith, k.size_is, n); characters = k.characters },
    )
