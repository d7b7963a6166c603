-- ===== src/Arrays/Edit.antt =====
-- The operations of `Array` in lib/datastructures/array.h that insert, remove, look up and compare.
-- `new_c_array n` is what `new T[n]` gives, or `none` for std::bad_alloc; it never gives NULL. The
-- products with 1.75 and 0.5 in `double` are exact for sizes below 2^50.
pub mod Gap
pub mod Valid
pub mod Ring
pub mod Rounds
pub mod Shift
pub mod Insert
use c_cpp_sandbox.Common.{
  ℕ, zero, suc, ◌+◌, ◌-◌, ◌*◌, ◌/◌, ◌%◌, ◌^◌, Bool, true, false, Option, none, some, List, [], ◌∷◌,
  ltb, ◌==◌, ◌&&◌, not, if◌then◌else◌, get_elem?, put, length,
}
use c_cpp_sandbox.Arrays.{Array, array_sort_unsorted, Outcome, returned, thrown, undefined}

abbrev pub size_t : ℕ → ℕ
size_t n = n % 2 ^ 64

-- `(size_t)(n * UPSIZE_FACTOR)`
abbrev pub upsized : ℕ → ℕ
upsized n = n * 7 / 4

-- The buffer that is written and the ring of elements that had to make room.
pub record Shifting {ℓ} (A : Type ℓ) : Type ℓ where
  pub new_buf : List A
  pub bucket : List A
  pub bucket_push : ℕ
  pub bucket_pop : ℕ

-- `if (++n == num_els) n = 0`
abbrev pub next_slot : ℕ → ℕ → ℕ
next_slot num_els n = if suc n == num_els then 0 else suc n

module _ {ℓ} {A : Type ℓ} where
  -- `for (size_t i = 0; i < pos; i++) new_buf[i] = e_buf[i]`, from `i` on
  unfoldable pub copy_from : ℕ → ℕ → List A → List A → Option (List A)
  copy_from zero i e_buf new_buf = some new_buf
  copy_from (suc rounds) i e_buf new_buf = elim (get_elem? e_buf i) [
    | none ↦ none
    | some x ↦ elim (put new_buf i x) [ none ↦ none | some b ↦ copy_from rounds (suc i) e_buf b ]
  ]

  -- `e_buf[i]`, of the old buffer when there is a new one
  abbrev pub source : Option (List A) → List A → List A
  source none new_buf = new_buf
  source (some e_buf) new_buf = e_buf

  -- `value`, and `bucket_pop` behind it
  unfoldable pub shift_value : ℕ → List A → ℕ → ℕ → Shifting A → Option (A × ℕ)
  shift_value pos els num_els i s =
      if ltb i (pos + num_els)
      then elim (get_elem? els (i - pos)) [ none ↦ none | some x ↦ some (x, s.bucket_pop) ]
      else elim (get_elem? s.bucket s.bucket_pop) [
        | none ↦ none
        | some x ↦ some (x, next_slot num_els s.bucket_pop)
      ]

  -- `if (i < this->size()) bucket[bucket_push] = e_buf[i]`, and the step of `bucket_push`
  unfoldable pub shift_out : Option (List A) → ℕ → ℕ → ℕ → Shifting A → Option (List A × ℕ)
  shift_out old size num_els i s =
      if ltb i size
      then elim (get_elem? (source old s.new_buf) i) [
        | none ↦ none
        | some x ↦ elim (put s.bucket s.bucket_push x) [
          | none ↦ none
          | some b ↦ some (b, next_slot num_els s.bucket_push)
        ]
      ]
      else some (s.bucket, s.bucket_push)

  -- One round of the loop of `insert`.
  unfoldable pub shift_round :
      Option (List A) → ℕ → List A → ℕ → ℕ → ℕ → Shifting A → Option (Shifting A)
  unfolding shift_value shift_out
  shift_round old pos els num_els size i s = elim (shift_value pos els num_els i s) [
    | none ↦ none
    | some (value, pop) ↦ elim (shift_out old size num_els i s) [
      | none ↦ none
      | some (bucket, push) ↦ elim (put s.new_buf i value) [
        | none ↦ none
        | some b ↦
            some (record { new_buf = b; bucket = bucket; bucket_push = push; bucket_pop = pop })
      ]
    ]
  ]

  -- `for (size_t i = pos; i < this->size() + num_els; i++)`, from `i` on
  unfoldable pub shift_loop :
      ℕ → Option (List A) → ℕ → List A → ℕ → ℕ → ℕ → Shifting A → Option (Shifting A)
  unfolding shift_round
  shift_loop zero old pos els num_els size i s = some s
  shift_loop (suc rounds) old pos els num_els size i s =
      elim (shift_round old pos els num_els size i s) [
        | none ↦ none
        | some s' ↦ shift_loop rounds old pos els num_els size (suc i) s'
      ]

  -- `for (size_t i = pos; i < this->size(); i++)` of `remove`, from `i` on
  unfoldable pub close_gap : ℕ → Option (List A) → ℕ → ℕ → ℕ → List A → Option (List A)
  close_gap zero old num_els size i selected_buf = some selected_buf
  close_gap (suc rounds) old num_els size i selected_buf = elim (ltb (i + num_els) size) [
    | false ↦ close_gap rounds old num_els size (suc i) selected_buf
    | true ↦ elim (get_elem? (source old selected_buf) (i + num_els)) [
      | none ↦ none
      | some x ↦ elim (put selected_buf i x) [
        | none ↦ none
        | some b ↦ close_gap rounds old num_els size (suc i) b
      ]
    ]
  ]

  -- The loop and the end of `remove`.
  unfoldable pub remove_closing : Array A → Option (List A) → List A → ℕ → ℕ → Outcome (Array A)
  unfolding close_gap
  remove_closing arr old selected_buf pos num_els =
      elim (close_gap (arr.e_size - pos) old num_els arr.e_size pos selected_buf) [
        | none ↦ undefined
        | some b ↦ returned (record arr { e_buf = b; e_size = arr.e_size - num_els })
      ]

module _ {ℓ} {A : Type ℓ} (new_c_array : ℕ → Option (List A)) where
  -- `Array(const size_t initial_cap)`
  unfoldable pub empty_array : ℕ → Option (Array A)
  empty_array initial_cap = elim (new_c_array initial_cap) [
    | none ↦ none
    | some b ↦
        some (record { e_buf = b; e_cap = initial_cap; e_size = 0; e_sorted = array_sort_unsorted })
  ]

  -- `Array(std::initializer_list<T> list)`
  unfoldable pub array_of_list : List A → Option (Array A)
  unfolding copy_from
  array_of_list list = elim (new_c_array (upsized (length list))) [
    | none ↦ none
    | some b ↦ elim (copy_from (length list) 0 list b) [
      | none ↦ none
      | some e_buf ↦ some (record {
        e_buf = e_buf;
        e_cap = upsized (length list);
        e_size = length list;
        e_sorted = array_sort_unsorted;
      })
    ]
  ]

  -- The bucket, the loop and the end of `insert`. `old` is the buffer that `new_buf` replaces.
  unfoldable pub insert_shifting :
      Array A → Option (List A) → List A → ℕ → List A → ℕ → Outcome (Array A)
  unfolding shift_loop
  insert_shifting arr old new_buf pos els num_els = elim (new_c_array num_els) [
    | none ↦ thrown arr
    | some bucket ↦
        elim (shift_loop (arr.e_size + num_els - pos) old pos els num_els arr.e_size pos
          (record { new_buf = new_buf; bucket = bucket; bucket_push = 0; bucket_pop = 0 })) [
            | none ↦ undefined
            | some s ↦ returned (record arr {
              e_buf = s.new_buf;
              e_size = arr.e_size + num_els;
              e_sorted = array_sort_unsorted;
            })
          ]
  ]

  unfoldable pub insert : Array A → ℕ → List A → ℕ → Outcome (Array A)
  unfolding insert_shifting copy_from
  insert arr pos els num_els =
      if ltb arr.e_size pos
      then thrown arr
      else if ltb arr.e_cap (size_t (num_els + arr.e_size))
      then elim (new_c_array (upsized (size_t (num_els + arr.e_size)))) [
        | none ↦ thrown arr
        | some new_buf ↦ elim (copy_from pos 0 arr.e_buf new_buf) [
          | none ↦ undefined
          | some b ↦
              insert_shifting (record arr { e_cap = upsized (size_t (num_els + arr.e_size)) })
                (some arr.e_buf) b pos els num_els
        ]
      ]
      else insert_shifting arr none arr.e_buf pos els num_els

  unfoldable pub append : Array A → List A → ℕ → Outcome (Array A)
  unfolding insert
  append arr els num_els = insert arr arr.e_size els num_els

  unfoldable pub remove : Array A → ℕ → ℕ → Outcome (Array A)
  unfolding remove_closing copy_from
  remove arr pos num_els =
      if ltb arr.e_size (size_t (pos + num_els))
      then thrown arr
      else let potential_new_cap = upsized (arr.e_size - num_els) in
        if ltb potential_new_cap (arr.e_cap / 2)
        then elim (new_c_array potential_new_cap) [
          | none ↦ thrown arr
          | some new_buf ↦ elim (copy_from pos 0 arr.e_buf new_buf) [
            | none ↦ undefined
            | some b ↦
                remove_closing (record arr { e_cap = potential_new_cap }) (some arr.e_buf) b pos
                  num_els
          ]
        ]
        else remove_closing arr none arr.e_buf pos num_els

  unfoldable pub remove_front : Array A → Outcome (Array A)
  unfolding remove
  remove_front arr = if arr.e_size == 0 then thrown arr else remove arr 0 1

  unfoldable pub remove_back : Array A → Outcome (Array A)
  unfolding remove
  remove_back arr = if arr.e_size == 0 then thrown arr else remove arr (arr.e_size - 1) 1
