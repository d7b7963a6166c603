-- ===== src/EStream.antt =====
-- lib/estream/estream.h: `EStream<uint8_t>`, a stream of bytes over a buffer in memory or over a file
-- descriptor. What the system's `poll` and `read` answer, call by call, is part of the state.
mod Tests
pub mod Criteria
pub mod Collect
pub mod Memory
use c_cpp_sandbox.Common.{
  ℕ, zero, suc, ◌+◌, ◌-◌, Bool, true, false, Option, none, some, List, [], ◌∷◌, ◌++◌, leb, ltb,
  ◌==◌, ◌&&◌, ◌||◌, not, if◌then◌else◌, length, drop, take, get_elem?,
}

-- The answers of the coming calls of `poll` and `read` on the descriptor: whether there is data,
-- and the bytes, none of them for an error or the end. A list that has run out answers likewise.
pub record Descriptor : Type 0 where
  pub polls : List Bool
  pub reads : List (List ℕ)

-- `fd` is `none` for -1, and `bad` is whether a bit of `flags` is set.
pub record EStream : Type 0 where
  pub buffer : List ℕ
  pub buffer_size : ℕ
  pub els_in_buffer : ℕ
  pub cursor : ℕ
  pub ungot : Bool
  pub ungot_el : ℕ
  pub bad : Bool
  pub fd : Option Descriptor

-- A value, an exception, or a read outside a buffer.
pub data Reading {ℓ} (A : Type ℓ) : Type ℓ where
  got : A → EStream → Reading A
  raised : EStream → Reading A
  undefined : Reading A

-- A read, and what is done with what it gives.
infixl 20 ◌>>=◌
unfoldable pub ◌>>=◌ {ℓ κ} :
    {A : Type ℓ} {B : Type κ} → Reading A → (A → EStream → Reading B) → Reading B
got a s >>= f = f a s
raised s >>= f = raised s
undefined >>= f = undefined

-- `EStream(T * b, const size_t bs)`
unfoldable pub memory_stream : List ℕ → ℕ → EStream
memory_stream b bs = record {
  buffer = b;
  buffer_size = bs;
  els_in_buffer = bs;
  cursor = 0;
  ungot = false;
  ungot_el = 0;
  bad = false;
  fd = none;
}

-- `EStream(const int p_fd, const size_t bs)` with a descriptor that is not negative; `none` for the
-- exception. `b` is what `new T[bs]` gives.
unfoldable pub descriptor_stream : Descriptor → ℕ → List ℕ → Option EStream
descriptor_stream d bs b =
    if ltb bs 1
    then none
    else some (record {
      buffer = b;
      buffer_size = bs;
      els_in_buffer = 0;
      cursor = 0;
      ungot = false;
      ungot_el = 0;
      bad = false;
      fd = some d;
    })

unfoldable pub read_past_buffer : EStream → Bool
read_past_buffer s = leb s.els_in_buffer s.cursor

-- The answer of `poll`, and the descriptor behind it.
abbrev pub poll : Descriptor → Bool × Descriptor
poll d = elim d.polls [ [] ↦ (false, d) | b ∷ polls ↦ (b, record d { polls = polls }) ]

unfoldable pub good : EStream → Bool × EStream
unfolding read_past_buffer
good s =
    if s.bad
    then (false, s)
    else if read_past_buffer s
    then elim s.fd [
      | none ↦ (false, record s { bad = true })
      | some d ↦
          let (ready, d') = poll d in
          if ready
          then (true, record s { fd = some d' })
          else (false, record s { bad = true; fd = some d' })
    ]
    else (true, s)

-- The bytes that `read` gives, and the descriptor behind it.
abbrev pub read_fd : Option Descriptor → List ℕ × Option Descriptor
read_fd none = ([], none)
read_fd (some d) = elim d.reads [
  | [] ↦ ([], some d)
  | chunk ∷ reads ↦ (chunk, some (record d { reads = reads }))
]

-- Whether the buffer was filled; the other outcome is the exception.
unfoldable pub fill_buffer : EStream → Bool × EStream
fill_buffer s =
    let (chunk, d) = read_fd s.fd in
    if (length chunk == 0) || ltb s.buffer_size (length chunk)
    then (false, record s { cursor = 0; els_in_buffer = 0; bad = true; fd = d })
    else (
      true,
      record s {
        cursor = 0;
        els_in_buffer = length chunk;
        buffer = chunk ++ drop (length chunk) s.buffer;
        fd = d;
      },
    )

-- The return of `peek`.
unfoldable pub current : EStream → Reading ℕ
current s =
    if (s.cursor == 0) && s.ungot
    then got s.ungot_el s
    else elim (get_elem? s.buffer s.cursor) [ none ↦ undefined | some el ↦ got el s ]

-- `if (this->cursor != 0) this->ungot_el = this->buffer[this->cursor - 1]`
unfoldable pub keep_last : EStream → Option EStream
keep_last s = if s.cursor == 0 then some s else elim (get_elem? s.buffer (s.cursor - 1)) [
  | none ↦ none
  | some el ↦ some (record s { ungot_el = el })
]

unfoldable pub peek : EStream → Reading ℕ
unfolding good read_past_buffer fill_buffer current keep_last
peek s =
    let (is_good, s1) = good s in
    if not is_good
    then raised s1
    else if read_past_buffer s1
    then elim (keep_last s1) [
      | none ↦ undefined
      | some s2 ↦ let (filled, s3) = fill_buffer s2 in if filled then current s3 else raised s3
    ]
    else current s1

unfoldable pub get : EStream → Reading ℕ
unfolding peek
get s = elim (peek s) [
  | undefined ↦ undefined
  | raised s1 ↦ raised s1
  | got el s1 ↦
      if (s1.cursor == 0) && s1.ungot
      then got el (record s1 { ungot = false })
      else got el (record s1 { cursor = suc s1.cursor })
]

unfoldable pub unget : EStream → EStream
unget s = if s.cursor == 0 then record s { ungot = true } else record s { cursor = s.cursor - 1 }
