-- ===== src/CReader/Line.antt =====
-- `reader_read_until` of lib/c/reader.c when the delimiter is in the buffer.
use c_cpp_sandbox.Common.{
  ℕ, zero, suc, ◌+◌, ◌-◌, ◌<◌, ◌≡◌, ◌≢◌, sym, ap, ap₂, ◌∙◌, some, List, [], ◌∷◌, ◌++◌, append_assoc,
  arith, All, length, take, drop, get_elem?, length-append, drop-drop, take-append-drop,
}
use c_cpp_sandbox.CReader.{
  Reader, cursor_check, returned, refill_at_end, read_until_loop, reader_read_until,
}
use c_cpp_sandbox.CReader.Bytes.{moved, moved-IsValid, moved-pending, Took}
use c_cpp_sandbox.CReader.Pending.{buffered, IsValid, length-buffered}

pub get_elem-drop :
    (l : List ℕ) (i : ℕ) (x : ℕ) (xs : List ℕ) → drop i l ≡ x ∷ xs → get_elem? l i ≡ some x
get_elem-drop [] zero x xs e = absurd (cc e)
get_elem-drop [] (suc i) x xs e = absurd (cc e)
get_elem-drop (y ∷ l) zero x xs e = cc e
get_elem-drop (y ∷ l) (suc i) x xs e = get_elem-drop l i x xs e

-- The first of the bytes `xs` and then `until`.
abbrev pub first : List ℕ → ℕ → ℕ
first [] until = until
first (x ∷ xs) until = x

pub get_elem-first :
    (l : List ℕ) (i until : ℕ) (xs ys : List ℕ)
    → drop i l ≡ xs ++ until ∷ ys
    → get_elem? l i ≡ some (first xs until)
get_elem-first l i until [] ys e = get_elem-drop l i until ys e
get_elem-first l i until (x ∷ xs) ys e = get_elem-drop l i x (xs ++ until ∷ ys) e

loop_found :
    (fuel until start : ℕ) (chars : List ℕ) (r : Reader)
    → until < 128
    → read_until_loop (suc fuel) until until start chars r
      ≡ returned
          (some (chars ++ take (r.cursor + 1 - start) (drop start r.buf) ++ (0 ∷ [])))
          (record r { cursor = r.cursor + 1 })
unfolding read_until_loop
loop_found fuel until start chars r ascii = ground arith

pub loop_next :
    (fuel until c c' start : ℕ) (chars : List ℕ) (r : Reader)
    → c ≢ until
    → r.cursor < r.bytes_in_buffer
    → get_elem? r.buf (r.cursor + 1) ≡ some c'
    → read_until_loop (suc fuel) until c start chars r
      ≡ read_until_loop fuel until c' start chars (record r { cursor = r.cursor + 1 })
unfolding read_until_loop refill_at_end
loop_next fuel until c c' start chars r ne inside e = ground (arith, ne, e)

-- The loop over the bytes `xs` before the delimiter.
pub loop_scan :
    (xs : List ℕ) (fuel until start : ℕ) (chars ys : List ℕ) (r : Reader)
    → drop r.cursor r.buf ≡ xs ++ until ∷ ys
    → until < 128
    → All (λ x. x ≢ until) xs
    → r.cursor + length xs < r.bytes_in_buffer
    → length xs < fuel
    → read_until_loop fuel until (first xs until) start chars r
      ≡ returned
          (some (chars ++ take (r.cursor + length xs + 1 - start) (drop start r.buf) ++ (0 ∷ [])))
          (record r { cursor = r.cursor + length xs + 1 })
loop_scan xs zero until start chars ys r e ascii other inside enough =
    absurd (omega (arith, enough))
loop_scan [] (suc fuel) until start chars ys r e ascii other inside enough =
    loop_found fuel until start chars r ascii
    ∙ ap
        (λ k.
          returned (some (chars ++ take (k - start) (drop start r.buf) ++ (0 ∷ [])))
            (record r { cursor = k }))
        (omega arith)
loop_scan (x ∷ xs) (suc fuel) until start chars ys r e ascii other inside enough =
    let e' : drop (r.cursor + 1) r.buf ≡ xs ++ until ∷ ys =
      sym (drop-drop 1 r.cursor r.buf) ∙ ap (drop 1) e in
    loop_next fuel until x (first xs until) start chars r other.0 (omega arith)
      (get_elem-first r.buf (r.cursor + 1) until xs ys e')
    ∙ loop_scan xs fuel until start chars ys (record r { cursor = r.cursor + 1 }) e' ascii other.1
        (omega arith) (omega arith)
    ∙ ap
        (λ k.
          returned (some (chars ++ take (k - start) (drop start r.buf) ++ (0 ∷ [])))
            (record r { cursor = k }))
        (omega arith)

pub until_start :
    (fuel until c : ℕ) (r : Reader)
    → r.cursor < r.bytes_in_buffer
    → get_elem? r.buf r.cursor ≡ some c
    → reader_read_until fuel r until ≡ read_until_loop fuel until c r.cursor [] r
unfolding reader_read_until cursor_check
until_start fuel until c r h e = ground (arith, e)

pub take_through :
    (xs ys : List ℕ) (until n : ℕ)
    → n ≡ length xs + 1
    → take n (xs ++ until ∷ ys) ≡ xs ++ (until ∷ [])
take_through [] ys until n e = ap (λ k. take k (until ∷ ys)) e
take_through (x ∷ xs) ys until zero e = absurd (omega (arith, e))
take_through (x ∷ xs) ys until (suc n) e =
    ap (λ l. x ∷ l) (take_through xs ys until n (omega (arith, e)))

-- For a well-formed reader and a delimiter below 128: when it is in the buffer, after `xs` that do
-- not have it,
-- `reader_read_until` returns `xs` and the delimiter with a NUL behind them and leaves the rest
-- to be read. More fuel than there are bytes in `xs` is enough.
pub read_until-Took :
    (fuel until : ℕ) (xs ys : List ℕ) (r : Reader)
    → IsValid r
    → until < 128
    → buffered r ≡ xs ++ until ∷ ys
    → All (λ x. x ≢ until) xs
    → length xs < fuel
    → (r' : Reader) × (reader_read_until fuel r until ≡ returned (some (xs ++ until ∷ 0 ∷ [])) r')
      × Took (length xs + 1) r r'
read_until-Took fuel until xs ys r v ascii e other enough =
    let size : r.cursor + length xs < r.bytes_in_buffer =
      omega (arith, length-buffered v, ap (λ l. length l) e, length-append xs (until ∷ ys)) in
    let (bytes, rest) = moved-pending r (length xs + 1) v (omega (arith, size)) in
    let stale = drop (r.bytes_in_buffer - r.cursor) (drop r.cursor r.buf) in
    let here : drop r.cursor r.buf ≡ xs ++ until ∷ (ys ++ stale) =
      sym (take-append-drop (r.bytes_in_buffer - r.cursor) (drop r.cursor r.buf))
      ∙ ap (λ l. l ++ stale) e
      ∙ append_assoc xs (until ∷ ys) stale in
    let line : take (r.cursor + length xs + 1 - r.cursor) (drop r.cursor r.buf) ++ (0 ∷ [])
        ≡ xs ++ until ∷ 0 ∷ [] =
      ap (λ l. take (r.cursor + length xs + 1 - r.cursor) l ++ (0 ∷ [])) here
      ∙ ap (λ l. l ++ (0 ∷ [])) (take_through xs (ys ++ stale) until _ (omega arith))
      ∙ append_assoc xs (until ∷ []) (0 ∷ []) in
    (
      moved r (length xs + 1),
      until_start fuel until (first xs until) r (omega arith)
            (get_elem-first r.buf r.cursor until xs _ here)
          ∙ loop_scan xs fuel until r.cursor [] (ys ++ stale) r here ascii other size enough
          ∙ ap₂ (λ l k. returned (some l) (record r { cursor = k })) line (omega arith),
      record { valid = moved-IsValid r (length xs + 1) v (omega (arith, size)); rest = rest },
    )
