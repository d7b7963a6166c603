-- ===== src/CReader/Peek.antt =====
-- `reader_peek_for_empty_line` of lib/c/reader.c, with two bytes in the buffer and with one.
use c_cpp_sandbox.Common.{
  ℕ, ◌+◌, ◌-◌, ◌≤◌, ◌<◌, ◌≡◌, ◌≢◌, sym, ap, ap₂, ◌∙◌, ◌&&◌, some, List, ◌∷◌, ◌++◌, arith, ◌==◌,
  if◌then◌else◌, length, take, drop, get_elem?, take-append-drop, drop-drop,
}
use c_cpp_sandbox.CReader.{
  Source, read, Reader, cursor_check, peek_more, peek_return, reader_peek_for_empty_line,
}
use c_cpp_sandbox.CReader.Bytes.{moved, moved-IsValid, moved-pending, Took}
use c_cpp_sandbox.CReader.Line.{get_elem-drop}
use c_cpp_sandbox.CReader.Pending.{flatten, buffered, pending, IsValid, length-buffered, read_whole}

-- How many bytes the empty line has that begins with `a` and `b`; 0 if none begins there.
abbrev pub empty_line : ℕ → ℕ → ℕ
empty_line a b = if a == b'\n' then 1 else if (a == b'\r') && (b == b'\n') then 2 else 0

peek_runs :
    (r : Reader) (a b : ℕ)
    → r.cursor + 1 < r.bytes_in_buffer
    → get_elem? r.buf r.cursor ≡ some a
    → get_elem? r.buf (r.cursor + 1) ≡ some b
    → reader_peek_for_empty_line r
      ≡ some (
        some (if empty_line a b == 0 then 0 else 1),
        record r { cursor = r.cursor + empty_line a b },
      )
unfolding reader_peek_for_empty_line cursor_check peek_more peek_return
peek_runs r a b h ea eb = ground (arith, ea, eb)

-- For a well-formed reader with two bytes in the buffer: `reader_peek_for_empty_line` returns 1
-- if they begin with '\n' or are "\r\n", and takes just that; otherwise it returns 0 and takes
-- nothing.
pub peek-Took :
    (r : Reader) (a b : ℕ) (ys : List ℕ)
    → IsValid r
    → buffered r ≡ a ∷ b ∷ ys
    → (r' : Reader) × (reader_peek_for_empty_line r
        ≡ some (some (if empty_line a b == 0 then 0 else 1), r'))
      × Took (empty_line a b) r r'
peek-Took r a b ys v e =
    let size : r.cursor + 1 < r.bytes_in_buffer =
      omega (arith, length-buffered v, ap (λ l. length l) e) in
    let at_most : empty_line a b ≤ r.bytes_in_buffer - r.cursor = ground arith in
    let stale = drop (r.bytes_in_buffer - r.cursor) (drop r.cursor r.buf) in
    let here : drop r.cursor r.buf ≡ a ∷ b ∷ (ys ++ stale) =
      sym (take-append-drop (r.bytes_in_buffer - r.cursor) (drop r.cursor r.buf))
      ∙ ap (λ l. l ++ stale) e in
    let next : drop (r.cursor + 1) r.buf ≡ b ∷ (ys ++ stale) =
      sym (drop-drop 1 r.cursor r.buf) ∙ ap (drop 1) here in
    (
      moved r (empty_line a b),
      peek_runs r a b size (get_elem-drop r.buf r.cursor a _ here)
          (get_elem-drop r.buf (r.cursor + 1) b _ next),
      record {
        valid = moved-IsValid r (empty_line a b) v at_most;
        rest = (moved-pending r (empty_line a b) v at_most).1;
      },
    )

peek_runs_last :
    (r : Reader) (a : ℕ) (chunk : List ℕ) (fd : Source)
    → get_elem? r.buf 0 ≡ some a
    → r.cursor ≡ 0
    → r.bytes_in_buffer ≡ 1
    → a ≢ b'\n'
    → a ≢ b'\r'
    → read (r.buf_size - 1) r.fd ≡ (some chunk, fd)
    → 0 < length chunk
    → length chunk ≤ r.buf_size - 1
    → reader_peek_for_empty_line r
      ≡ some (some 0, record r { fd = fd; buf = a ∷ chunk ++ drop (1 + length chunk) r.buf })
unfolding reader_peek_for_empty_line cursor_check peek_more peek_return
peek_runs_last r a chunk fd eb ec en nl cr e some_bytes fits =
    ground (arith, eb, ec, en, nl, cr, ap (λ p. p.0) e, ap (λ p. p.1) e)

-- When the buffer has one byte, at its start, that is neither '\n' nor '\r', and a chunk of bytes
-- that fits behind it arrives in the call, then the result is 0 and the chunk is lost: it was
-- pending before and is not pending afterwards.
pub peek_loses :
    (r : Reader) (a : ℕ) (old chunk : List ℕ) (chunks : List (List ℕ))
    → r.buf ≡ a ∷ old
    → r.cursor ≡ 0
    → r.bytes_in_buffer ≡ 1
    → a ≢ b'\n'
    → a ≢ b'\r'
    → r.fd.chunks ≡ chunk ∷ chunks
    → 0 < length chunk
    → length chunk ≤ r.buf_size - 1
    → (r' : Reader) × (reader_peek_for_empty_line r ≡ some (some 0, r'))
      × (pending r' ≡ a ∷ flatten chunks)
      × (pending r ≡ a ∷ chunk ++ flatten chunks)
peek_loses r a old chunk chunks eb ec en nl cr arrives some_bytes fits =
    let fd : Source = record r.fd { chunks = chunks } in
    let buf = a ∷ chunk ++ drop (1 + length chunk) r.buf in
    (
      record r { fd = fd; buf = buf },
      peek_runs_last r a chunk fd (ap (λ l. get_elem? l 0) eb) ec en nl cr
          (read_whole (r.buf_size - 1) r.fd chunk chunks arrives fits) some_bytes fits,
      ap₂ (λ n c. take (n - c) (drop c buf) ++ flatten chunks) en ec,
      ap₂ (λ n c. take (n - c) (drop c r.buf) ++ flatten r.fd.chunks) en ec
          ∙ ap₂ (λ l k. take 1 l ++ flatten k) eb arrives,
    )
