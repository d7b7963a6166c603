-- ===== src/Arrays/Tests.antt =====
-- Runs of the model of lib/datastructures/array.h on arrays of numbers, and examples of the theorems.
use c_cpp_sandbox.Common.{
  ℕ, zero, suc, Bool, Option, none, some, List, [], ◌∷◌, ◌++◌, ltb, ◌==◌, ◌≡◌, refl, ap, ◌∙◌, sym,
  ◌⊎◌, arith, take, length, ==_iff, put, if◌then◌else◌,
}
use c_cpp_sandbox.Arrays.{
  goes_first, Array, array_sort_unsorted, array_sort_ascending, array_sort_descending, returned,
  thrown, undefined,
}
use c_cpp_sandbox.Arrays.Order.{IsOrder}
use c_cpp_sandbox.Arrays.Merge.{nlognsort_merge}
use c_cpp_sandbox.Arrays.Merge.Runs.{merged}
use c_cpp_sandbox.Arrays.Merge.Rest.{nlognsort_merge-merged}
use c_cpp_sandbox.Arrays.Sort.{sort, sort_spans, nlogn_sort}
use c_cpp_sandbox.Arrays.Sort.Spans.{FrontSorted}
use c_cpp_sandbox.Arrays.Sort.Sorted.{sort-FrontSorted}
use c_cpp_sandbox.Arrays.Edit.{insert, remove, upsized}
use c_cpp_sandbox.Arrays.Edit.Valid.{IsValid}
use c_cpp_sandbox.Arrays.Edit.Gap.{Removed, remove-Removed_all}
use c_cpp_sandbox.Arrays.Edit.Insert.{Inserted, insert-Inserted_all}
use c_cpp_sandbox.Arrays.Lookup.{find, equals, unique_append}
use c_cpp_sandbox.Arrays.Lookup.Reference.{
  index_from, same_elements, find-index_from, equals-same_elements,
}

abbrev greater : ℕ → ℕ → Bool
greater x y = ltb y x

numbers-IsOrder : IsOrder ◌==◌ greater
numbers-IsOrder = record {
  same = ==_iff;
  asym = λ x y h. ground arith;
  total = λ x y h g. ground arith;
  trans = λ x y z h g. ground arith;
}

-- `new T[n]` with zeros in the slots
abbrev zeros : ℕ → List ℕ
zeros zero = []
zeros (suc n) = 0 ∷ zeros n

abbrev new_c_array : ℕ → Option (List ℕ)
new_c_array n = some (zeros n)

-- one that has no memory for a single slot
abbrev refusing : ℕ → Option (List ℕ)
refusing n = if n == 1 then none else some (zeros n)

length-zeros : (n : ℕ) → length (zeros n) ≡ n
length-zeros zero = refl
length-zeros (suc n) = ap suc (length-zeros n)

gives : (n : ℕ) (b : List ℕ) → new_c_array n ≡ some b → length b ≡ n
gives n b e = ap length (sym (some_inj (zeros n) b e)) ∙ length-zeros n
  where
    some_inj : (a b : List ℕ) → ◌≡◌ {A = Option (List ℕ)} (some a) (some b) → a ≡ b
    some_inj a b e = cc

abbrev numbers : Array ℕ
numbers = record {
  e_buf = 4 ∷ 1 ∷ 3 ∷ 2 ∷ 9 ∷ [];
  e_cap = 5;
  e_size = 4;
  e_sorted = array_sort_unsorted;
}

numbers-IsValid : IsValid numbers
numbers-IsValid = record { buffer = refl; fits = omega arith }

-- Three elements, the last of which is the smallest: the swap space of one slot is written past its
-- end.
swap_space_overflow :
    nlogn_sort ◌==◌ greater array_sort_ascending new_c_array (2 ∷ 3 ∷ 1 ∷ []) 3 ≡ undefined
unfolding nlogn_sort sort_spans nlognsort_merge goes_first put
swap_space_overflow = refl

-- No elements inserted in front of others: the bucket has no slot to read from.
empty_insert : insert new_c_array numbers 1 [] 0 ≡ undefined
unfolding insert put
empty_insert = refl

insert_run :
    insert new_c_array numbers 1 (7 ∷ 8 ∷ []) 2
    ≡ returned (record {
      e_buf = 4 ∷ 7 ∷ 8 ∷ 1 ∷ 3 ∷ 2 ∷ 0 ∷ 0 ∷ 0 ∷ 0 ∷ [];
      e_cap = 10;
      e_size = 6;
      e_sorted = array_sort_unsorted;
    })
unfolding insert put
insert_run = refl

sort_descending :
    sort ◌==◌ greater new_c_array numbers array_sort_descending
    ≡ returned (record numbers { e_buf = 4 ∷ 3 ∷ 2 ∷ 1 ∷ 9 ∷ []; e_sorted = array_sort_descending })
unfolding sort nlogn_sort sort_spans nlognsort_merge goes_first put
sort_descending = refl

unique_append_run : unique_append ◌==◌ new_c_array numbers 3 ≡ returned numbers
unfolding unique_append
unique_append_run = refl

sort-FrontSorted_example :
    (buf' : List ℕ) × (sort ◌==◌ greater new_c_array numbers array_sort_ascending
      ≡ returned (record numbers { e_buf = buf'; e_sorted = array_sort_ascending }))
    × FrontSorted ◌==◌ greater array_sort_ascending 4 (4 ∷ 1 ∷ 3 ∷ 2 ∷ 9 ∷ []) buf'
sort-FrontSorted_example =
    sort-FrontSorted ◌==◌ greater numbers-IsOrder new_c_array numbers array_sort_ascending 2
      (0 ∷ 0 ∷ []) refl (omega arith) refl refl refl refl

nlognsort_merge-merged_example :
    (space : List ℕ) × (nlognsort_merge ◌==◌ greater array_sort_ascending
        (9 ∷ 2 ∷ 4 ∷ 1 ∷ 3 ∷ [])
        1
        2
        3
        2
        (0 ∷ 0 ∷ [])
      ≡ some (
        take 1 (9 ∷ 2 ∷ 4 ∷ 1 ∷ 3 ∷ [])
            ++ merged ◌==◌ greater array_sort_ascending (2 ∷ 4 ∷ []) (1 ∷ 3 ∷ [])
            ++ [],
        space,
      ))
    × (length space ≡ 2)
nlognsort_merge-merged_example =
    nlognsort_merge-merged ◌==◌ greater array_sort_ascending (9 ∷ 2 ∷ 4 ∷ 1 ∷ 3 ∷ []) 1 2 2
      (0 ∷ 0 ∷ []) (omega arith) (omega arith)

remove-Removed_all_example :
    ((new_c_array (upsized 3) ≡ none) × (remove new_c_array numbers 1 1 ≡ thrown numbers))
    ⊎ ((arr' : Array ℕ) × (remove new_c_array numbers 1 1 ≡ returned arr')
        × Removed numbers 1 1 arr')
remove-Removed_all_example =
    remove-Removed_all numbers 1 1 numbers-IsValid (omega arith) new_c_array gives (omega arith)

insert-Inserted_all_example :
    ((left : Array ℕ) × ((new_c_array (upsized 6) ≡ none) ⊎ (new_c_array 2 ≡ none))
      × (insert new_c_array numbers 1 (7 ∷ 8 ∷ []) 2 ≡ thrown left))
    ⊎ ((arr' : Array ℕ) × (insert new_c_array numbers 1 (7 ∷ 8 ∷ []) 2 ≡ returned arr')
        × Inserted numbers 1 (7 ∷ 8 ∷ []) 2 arr')
insert-Inserted_all_example =
    insert-Inserted_all new_c_array gives numbers 1 (7 ∷ 8 ∷ []) 2 numbers-IsValid (omega arith)
      refl (omega arith) (omega arith)

abbrev full : Array ℕ
full = record numbers { e_size = 5 }

find-index_from_example : find ◌==◌ numbers 3 ≡ some (index_from ◌==◌ 0 (4 ∷ 1 ∷ 3 ∷ 2 ∷ []) 3)
find-index_from_example = find-index_from ◌==◌ numbers 3 numbers-IsValid

equals-same_elements_example :
    equals ◌==◌ numbers full
    ≡ some (same_elements ◌==◌ (4 ∷ 1 ∷ 3 ∷ 2 ∷ []) (4 ∷ 1 ∷ 3 ∷ 2 ∷ 9 ∷ []))
equals-same_elements_example =
    equals-same_elements ◌==◌ numbers full numbers-IsValid
      (record { buffer = refl; fits = omega arith })
