-- ===== src/CReader/Forever.antt =====
-- `reader_read_bytes` of lib/c/reader.c, when the file ends before the last byte.
use c_cpp_sandbox.Common.{
  ℕ, zero, suc, ◌-◌, ◌<◌, ◌≡◌, refl, ap, ◌∙◌, inl, inr, true, false, none, List, [], arith,
  le-cases, length, length-append,
}
use c_cpp_sandbox.CReader.{Reader, cursor_check, read_bytes_loop, reader_read_bytes}
use c_cpp_sandbox.CReader.Bytes.{loop_refill, cursor_check-Ready}
use c_cpp_sandbox.CReader.Pending.{
  flatten, buffered, pending, IsValid, length-buffered, fill_some, fill_end,
}

loop_zero :
    (n bytes_read : ℕ) (chars : List ℕ) (r : Reader) → read_bytes_loop 0 n bytes_read chars r ≡ none
unfolding read_bytes_loop
loop_zero n bytes_read chars r = refl

read_bytes_loop_forever :
    (fuel n bytes_read : ℕ) (chars : List ℕ) (r : Reader)
    → IsValid r
    → r.fd.fails ≡ false
    → length (pending r) < n - bytes_read
    → read_bytes_loop fuel n bytes_read chars r ≡ none
read_bytes_loop_forever zero n bytes_read chars r v end short = loop_zero n bytes_read chars r
read_bytes_loop_forever (suc fuel) n bytes_read chars r v end short =
    let total = length-append (buffered r) (flatten r.fd.chunks) in
    elim (le-cases (length (flatten r.fd.chunks)) 0) [
      | inl nothing ↦
          let (r', e, f) = fill_end r v end (omega arith) in
          loop_refill fuel n bytes_read chars r r' 0 (omega arith)
            (omega (arith, short, total, length-buffered v)) e
          ∙ read_bytes_loop_forever fuel n _ _ r' f.valid (f.same_end ∙ end)
              (omega (arith, short, total, length-buffered v, ap (λ l. length l) f.same_pending))
      | inr something ↦
          let (k, r', e, positive, f) = fill_some r v something in
          loop_refill fuel n bytes_read chars r r' k (omega arith)
            (omega (arith, short, total, length-buffered v)) e
          ∙ read_bytes_loop_forever fuel n _ _ r' f.valid (f.same_end ∙ end)
              (omega (arith, short, total, length-buffered v, ap (λ l. length l) f.same_pending))
    ]

read_bytes_unfinished :
    (fuel n : ℕ) (r r' : Reader)
    → cursor_check r ≡ (true, r')
    → read_bytes_loop fuel n 0 [] r' ≡ none
    → reader_read_bytes fuel r n ≡ none
unfolding reader_read_bytes
read_bytes_unfinished fuel n r r' e run = ground (arith, ap (λ p. p.0) e, ap (λ p. p.1) e, run)

-- For a well-formed reader: when something is to come, and the file ends before `n` bytes,
-- `reader_read_bytes` never returns; no fuel is enough.
pub read_bytes_forever :
    (fuel n : ℕ) (r : Reader)
    → IsValid r
    → r.fd.fails ≡ false
    → 0 < length (pending r)
    → length (pending r) < n
    → reader_read_bytes fuel r n ≡ none
read_bytes_forever fuel n r v end some_left short =
    let (ready, e, y) = cursor_check-Ready r v some_left in
    read_bytes_unfinished fuel n r ready e (
      read_bytes_loop_forever fuel n 0 [] ready y.valid (y.same_end ∙ end)
        (omega (arith, short, ap (λ l. length l) y.same_pending)))
