-- ===== src/RingIndex/Tests.antt =====
-- lib/ringindex.h at a ring of four slots.
use c_cpp_sandbox.Common.{◌≡◌, refl, ◌∷◌, [], ◌++◌, arith}
use c_cpp_sandbox.RingIndex.{SArray, s_array_init, s_array_add, s_array_remove, s_array_size}
use c_cpp_sandbox.RingIndex.Slots.{IsValid, contents, rest}
use c_cpp_sandbox.RingIndex.Refine.{remove_refines, add_room}

-- Two slots in use, 3 and 0.
abbrev half : SArray
half = record { push = 0; pop = 2; cap = 3 }

abbrev full : SArray
full = record { push = 0; pop = 1; cap = 3 }

-- Full, with `pop` at the last slot.
abbrev edge : SArray
edge = record { push = 2; pop = 3; cap = 3 }

contents-half : contents half ≡ 3 ∷ 0 ∷ []
contents-half = refl

add-full_runs : s_array_add full ≡ (record { push = 1; pop = 2; cap = 3 }, 1)
unfolding s_array_add
add-full_runs = refl

fresh_size : s_array_size (s_array_add (s_array_init 3)).0 ≡ 5
unfolding s_array_size s_array_add s_array_init
fresh_size = refl

remove_refines_example :
    IsValid (s_array_remove half) × (contents (s_array_remove half) ≡ rest (contents half))
remove_refines_example = remove_refines (omega arith)

add_room_example :
    let (r', dropped) = s_array_add half in
    (dropped ≡ 0) × IsValid r' × (contents r' ≡ contents half ++ (r'.push ∷ []))
add_room_example = add_room (omega arith) (omega arith)
