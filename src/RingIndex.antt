-- ===== src/RingIndex.antt =====
-- lib/ringindex.h: the push and pop indices of a ring over a buffer that the caller owns.
pub mod Slots
pub mod Refine
pub mod Start
mod Tests
use c_cpp_sandbox.Common.{ℕ, ◌+◌, ◌-◌, ◌%◌, ◌^◌, Bool, ltb, ◌==◌, if◌then◌else◌}

-- `SArray`; the fields are `size_t`.
pub record SArray : Type 0 where
  pub push : ℕ
  pub pop : ℕ
  pub cap : ℕ

abbrev pub size_max : ℕ
size_max = 2 ^ 64 - 1

-- `size_t` arithmetic wraps.
abbrev pub plus_size : ℕ → ℕ → ℕ
plus_size i k = (i + k) % 2 ^ 64

abbrev pub minus_size : ℕ → ℕ → ℕ
minus_size a b = (a + 2 ^ 64 - b) % 2 ^ 64

-- `sArrayInit`: both indices are (size_t)-1.
unfoldable pub s_array_init : ℕ → SArray
s_array_init cap = record { push = size_max; pop = size_max; cap = cap }

-- `++index > cap` goes back to 0.
abbrev pub next_index : ℕ → ℕ → ℕ
next_index cap i = if ltb cap (plus_size i 1) then 0 else plus_size i 1

-- `sArrayAdd`: the new indices, and 1 if the oldest element was dropped.
unfoldable pub s_array_add : SArray → SArray × ℕ
s_array_add buffer =
    let push = next_index buffer.cap buffer.push in
    if push == buffer.pop
    then (record buffer { push = push; pop = plus_size buffer.pop 1 }, 1)
    else (record buffer { push = push }, 0)

unfoldable pub s_array_remove : SArray → SArray
s_array_remove buffer =
    if buffer.push == buffer.pop
    then buffer
    else record buffer { pop = next_index buffer.cap buffer.pop }

unfoldable pub s_array_size : SArray → ℕ
s_array_size buffer =
    if ltb buffer.push buffer.pop
    then plus_size (plus_size buffer.push (minus_size buffer.cap buffer.pop)) 1
    else if ltb buffer.pop buffer.push
    then minus_size buffer.push buffer.pop
    else 0
