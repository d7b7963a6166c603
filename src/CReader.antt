-- ===== src/CReader.antt =====
-- lib/c/reader.h and reader.c: reading from a descriptor through a buffer. Reading a byte past the
-- end of the buffer is undefined behaviour; a NULL result is `none`.
pub mod Pending
pub mod Bytes
pub mod Forever
pub mod Line
pub mod Refill
pub mod Peek
pub mod Chunk
mod Tests
use c_cpp_sandbox.Common.{
  ℕ, zero, suc, ◌+◌, ◌-◌, Bool, true, false, ◌||◌, Option, none, some, List, [], ◌∷◌, ◌++◌, ltb,
  leb, ◌==◌, if◌then◌else◌, length, take, drop, get_elem?,
}

-- What a descriptor has to give: chunks that arrive one after the other, and then the end of the
-- file for ever, or failure for ever.
pub record Source : Type 0 where
  pub chunks : List (List ℕ)
  pub fails : Bool

-- `read(fd, buf, count)`: the bytes that are put into the buffer, or `none` for -1. A chunk that is
-- too long is given in parts.
abbrev pub read : ℕ → Source → Option (List ℕ) × Source
read count fd = elim fd.chunks [
  | [] ↦ (if fd.fails then none else some [], fd)
  | c ∷ chunks ↦
      if leb (length c) count
      then (some c, record fd { chunks = chunks })
      else (some (take count c), record fd { chunks = drop count c ∷ chunks })
]

-- `reader`; `buf` has all its bytes, `bytes_in_buffer` of them have been read.
pub record Reader : Type 0 where
  pub fd : Source
  pub buf : List ℕ
  pub buf_size : ℕ
  pub cursor : ℕ
  pub bytes_in_buffer : ℕ

unfoldable pub reader_initialize : List ℕ → Source → ℕ → Reader
reader_initialize buf fd buf_size = record {
  fd = fd;
  buf = buf;
  buf_size = buf_size;
  cursor = 0;
  bytes_in_buffer = 0;
}

-- The value of `ret`, `none` for -1, and the reader.
unfoldable pub fill_buffer : Reader → Option ℕ × Reader
fill_buffer r =
    let (got, fd) = read r.buf_size r.fd in
    elim got [
      | none ↦ (none, record r { fd = fd; cursor = 0; bytes_in_buffer = 0 })
      | some b ↦ (
        some (length b),
        record r {
          fd = fd;
          buf = b ++ drop (length b) r.buf;
          cursor = 0;
          bytes_in_buffer = if ltb r.buf_size (length b) then 0 else length b;
        },
      )
    ]

unfoldable pub cursor_check : Reader → Bool × Reader
unfolding fill_buffer
cursor_check r =
    if leb r.bytes_in_buffer r.cursor
    then (let (ret, r') = fill_buffer r in (elim ret [ none ↦ false | some n ↦ leb 1 n ], r'))
    else (true, r)

-- The loop of `reader_read_bytes` with `bytes_read` bytes in `chars`; `none` is the lack of fuel. The
-- array has room for all of them from the start. The last branch ends the loop.
unfoldable pub read_bytes_loop : ℕ → ℕ → ℕ → List ℕ → Reader → Option (Option (List ℕ) × Reader)
unfolding fill_buffer
read_bytes_loop zero n bytes_read chars r = none
read_bytes_loop (suc fuel) n bytes_read chars r =
    let left_to_read = n - bytes_read in
    let left_in_buffer = r.bytes_in_buffer - r.cursor in
    if leb n bytes_read
    then some (some chars, r)
    else if ltb left_in_buffer left_to_read
    then (let (ret, r') = fill_buffer r in
        elim ret [
          | none ↦ some (none, r')
          | some k ↦
              read_bytes_loop fuel n (bytes_read + left_in_buffer)
                (chars ++ take left_in_buffer (drop r.cursor r.buf)) r'
        ])
    else some (
      some (chars ++ take left_to_read (drop r.cursor r.buf)),
      record r { cursor = r.cursor + left_to_read },
    )

-- `reader_read_bytes` over the elements of the array it returns, with the NUL at the end.
unfoldable pub reader_read_bytes : ℕ → Reader → ℕ → Option (Option (List ℕ) × Reader)
unfolding cursor_check read_bytes_loop
reader_read_bytes fuel r n =
    let (ready, r') = cursor_check r in
    if ready
    then elim (read_bytes_loop fuel n 0 [] r') [
      | none ↦ none
      | some (none, r'') ↦ some (none, r'')
      | some (some chars, r'') ↦ some (some (chars ++ (0 ∷ [])), r'')
    ]
    else some (none, r')

-- What a run of `reader_read_until` comes to: it returns, it reads past the end of the buffer, or
-- the fuel does not last.
pub data Outcome : Type 0 where
  returned : Option (List ℕ) → Reader → Outcome
  out_of_bounds : Outcome
  out_of_fuel : Outcome

-- The refill in the loop of `reader_read_until`, when the cursor is at the end of the buffer: the
-- new `start_cursor` and what `data` holds then, or `none` when the refill fails.
unfoldable pub refill_at_end : ℕ → List ℕ → Reader → Option (ℕ × List ℕ) × Reader
unfolding fill_buffer
refill_at_end start_cursor chars r =
    if r.cursor == r.bytes_in_buffer
    then (let (ret, r') = fill_buffer r in
        (
          elim ret [
            | none ↦ none
            | some n ↦ some (
              r'.cursor,
              chars ++ take (r.bytes_in_buffer - start_cursor) (drop start_cursor r.buf),
            )
          ],
          r',
        ))
    else (some (start_cursor, chars), r)

-- `c != until` fails: the byte `c` is compared with the `char` of the byte `until`, which is signed
-- as in GCC on x86, so that from 128 on it is negative and differs from every byte.
abbrev pub is_until : ℕ → ℕ → Bool
is_until c until = if ltb until 128 then c == until else false

unfoldable pub read_until_loop : ℕ → ℕ → ℕ → ℕ → List ℕ → Reader → Outcome
unfolding refill_at_end
read_until_loop zero until c start_cursor chars r = out_of_fuel
read_until_loop (suc fuel) until c start_cursor chars r =
    if is_until c until
    then returned
        (some (chars ++ take (r.cursor + 1 - start_cursor) (drop start_cursor r.buf) ++ (0 ∷ [])))
        (record r { cursor = r.cursor + 1 })
    else let (start, r') = refill_at_end start_cursor chars r in
      elim start [
        | none ↦ returned none r'
        | some (start', chars') ↦ elim (get_elem? r'.buf (r'.cursor + 1)) [
          | none ↦ out_of_bounds
          | some c' ↦
              read_until_loop fuel until c' start' chars' (record r' { cursor = r'.cursor + 1 })
        ]
      ]

unfoldable pub reader_read_until : ℕ → Reader → ℕ → Outcome
unfolding cursor_check read_until_loop
reader_read_until fuel r until =
    let (ready, r') = cursor_check r in
    if ready
    then elim (get_elem? r'.buf r'.cursor) [
      | none ↦ out_of_bounds
      | some c ↦ read_until_loop fuel until c r'.cursor [] r'
    ]
    else returned none r'

-- The read of `reader_peek_for_empty_line` when `c` is the last byte in the buffer: whether it went
-- well, and the reader. The cursor and the number of bytes in the buffer are left as they were.
unfoldable pub peek_more : ℕ → Reader → Bool × Reader
peek_more c r =
    if leb r.bytes_in_buffer (r.cursor + 1)
    then (let (got, fd) = read (r.buf_size - 1) r.fd in
        elim got [
          | none ↦ (false, record r { fd = fd })
          | some tmp ↦
              if ltb (length tmp) 1 || ltb (r.buf_size - 1) (length tmp)
              then (false, record r { fd = fd })
              else (true, record r { fd = fd; buf = c ∷ tmp ++ drop (1 + length tmp) r.buf })
        ])
    else (true, r)

-- The comparison with "\r\n"; the second byte is read only behind a '\r'.
unfoldable pub peek_return : Reader → Option (Option ℕ × Reader)
peek_return r = elim (get_elem? r.buf r.cursor) [
  | none ↦ none
  | some c ↦
      if c == b'\r'
      then elim (get_elem? r.buf (r.cursor + 1)) [
        | none ↦ none
        | some d ↦
            if d == b'\n'
            then some (some 1, record r { cursor = r.cursor + 2 })
            else some (some 0, r)
      ]
      else some (some 0, r)
]

-- `none` is a read past the buffer, and `some (none, r)` the result -1.
unfoldable pub reader_peek_for_empty_line : Reader → Option (Option ℕ × Reader)
unfolding cursor_check peek_more peek_return
reader_peek_for_empty_line r =
    let (ready, r') = cursor_check r in
    if ready
    then elim (get_elem? r'.buf r'.cursor) [
      | none ↦ none
      | some c ↦
          if c == b'\n'
          then some (some 1, record r' { cursor = r'.cursor + 1 })
          else let (fine, r'') = peek_more c r' in
            if fine then peek_return r'' else some (none, r'')
    ]
    else some (none, r')
