-- ===== src/CReader/Refill.antt =====
-- `reader_read_until` of lib/c/reader.c when it refills the buffer.
use c_cpp_sandbox.Common.{
  ℕ, suc, ◌+◌, ◌-◌, ◌≤◌, ◌<◌, ◌≡◌, ◌≢◌, ap, ap₂, ◌∙◌, some, List, [], ◌∷◌, ◌++◌, append_assoc,
  arith, All, length, take, drop, get_elem?, length-append,
}
use c_cpp_sandbox.CReader.{
  Reader, fill_buffer, returned, refill_at_end, read_until_loop, reader_read_until,
}
use c_cpp_sandbox.CReader.Line.{
  first, get_elem-first, loop_next, loop_scan, until_start, take_through,
}
use c_cpp_sandbox.CReader.Pending.{refilled, fill_read, read_whole}

loop_refills :
    (fuel until c c' start k : ℕ) (chars : List ℕ) (r r' : Reader)
    → c ≢ until
    → r.cursor ≡ r.bytes_in_buffer
    → fill_buffer r ≡ (some k, r')
    → get_elem? r'.buf (r'.cursor + 1) ≡ some c'
    → read_until_loop (suc fuel) until c start chars r
      ≡ read_until_loop fuel until c' r'.cursor
          (chars ++ take (r.bytes_in_buffer - start) (drop start r.buf))
          (record r' { cursor = r'.cursor + 1 })
unfolding read_until_loop refill_at_end
loop_refills fuel until c c' start k chars r r' ne at_end e next =
    ground (arith, ne, at_end, ap (λ p. p.0) e, ap (λ p. p.1) e, next)

-- For a delimiter below 128: when the one byte in the buffer, at its start, and the stale byte behind it are not the
-- delimiter, and the next chunk fits in the buffer, begins with the delimiter and has it again
-- after `ys` that do not, then `reader_read_until`, with more than two steps of fuel beyond the
-- bytes of `ys`, runs past the first delimiter and returns everything up to the second.
pub read_until_misses :
    (fuel until x stale : ℕ) (old ys zs : List ℕ) (chunks : List (List ℕ)) (r : Reader)
    → r.buf ≡ x ∷ stale ∷ old
    → until < 128
    → r.cursor ≡ 0
    → r.bytes_in_buffer ≡ 1
    → x ≢ until
    → stale ≢ until
    → r.fd.chunks ≡ (until ∷ ys ++ until ∷ zs) ∷ chunks
    → length (until ∷ ys ++ until ∷ zs) ≤ r.buf_size
    → All (λ y. y ≢ until) ys
    → length ys < fuel
    → (r' : Reader) × (reader_read_until (suc (suc fuel)) r until
        ≡ returned (some (x ∷ until ∷ ys ++ until ∷ 0 ∷ [])) r')
read_until_misses fuel until x stale old ys zs chunks r eb ascii ec en ne ne' arrives fits other
      enough =
    let chunk = until ∷ ys ++ until ∷ zs in
    let behind : Reader = record r { cursor = r.cursor + 1 } in
    let full = refilled behind chunk (record r.fd { chunks = chunks }) in
    let scanned : drop 1 full.buf ≡ ys ++ until ∷ (zs ++ drop (length chunk) r.buf) =
      append_assoc ys (until ∷ zs) (drop (length chunk) r.buf) in
    let here : get_elem? r.buf r.cursor ≡ some x = ap₂ (λ l i. get_elem? l i) eb ec in
    let next : get_elem? r.buf (r.cursor + 1) ≡ some stale =
      ap₂ (λ l i. get_elem? l (i + 1)) eb ec in
    let last : Reader = record full { cursor = 1 + length ys + 1 } in
    let one : take (r.bytes_in_buffer - r.cursor) (drop r.cursor r.buf) ≡ x ∷ [] =
      ap₂ (λ n c. take (n - c) (drop c r.buf)) en ec ∙ ap (take 1) eb in
    let line : take (1 + length ys + 1 - 0) full.buf ≡ until ∷ ys ++ until ∷ [] =
      ap (λ l. take (1 + length ys + 1 - 0) (until ∷ l)) scanned
      ∙ take_through (until ∷ ys) (zs ++ drop (length chunk) r.buf) until _ (omega arith) in
    (
      last,
      until_start (suc (suc fuel)) until x r (omega arith) here
          ∙ loop_next (suc fuel) until x stale r.cursor [] r ne (omega arith) next
          ∙ loop_refills fuel until stale (first ys until) r.cursor (length chunk) [] behind full
              ne' (omega arith)
              (fill_read behind chunk _ (read_whole _ _ chunk chunks arrives fits) fits)
              (get_elem-first full.buf 1 until ys _ scanned)
          ∙ loop_scan ys fuel until 0 _ _ (record full { cursor = 1 }) scanned ascii other
              (omega (arith, length-append ys (until ∷ zs))) enough
          ∙ ap₂ (λ l k. returned (some (l ++ k ++ (0 ∷ []))) last) one line
          ∙ ap (λ l. returned (some (x ∷ until ∷ l)) last) (append_assoc ys (until ∷ []) (0 ∷ [])),
    )
