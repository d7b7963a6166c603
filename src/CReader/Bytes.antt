-- ===== src/CReader/Bytes.antt =====
-- `reader_read_bytes` of lib/c/reader.c, when enough bytes are to come.
use c_cpp_sandbox.Common.{
  ℕ, zero, suc, ◌+◌, ◌-◌, ◌≤◌, ◌<◌, ◌≡◌, refl, sym, ap, ap₂, ◌∙◌, inl, inr, true, some, List, [],
  ◌∷◌, ◌++◌, append_assoc, append-nil, arith, le-cases, length, take, drop, length-append,
  take-append_le, take-append_ge, drop-append_le, drop-append_ge, take-take, drop-take, drop-drop,
}
use c_cpp_sandbox.CReader.{Reader, fill_buffer, cursor_check, read_bytes_loop, reader_read_bytes}
use c_cpp_sandbox.CReader.Pending.{
  flatten, buffered, pending, IsValid, length-buffered, Refilled, fill_some,
}

-- The reader when `k` bytes have been taken from its buffer.
abbrev pub moved : Reader → ℕ → Reader
moved r k = record r { cursor = r.cursor + k }

pub moved-IsValid :
    (r : Reader) (k : ℕ) → IsValid r → k ≤ r.bytes_in_buffer - r.cursor → IsValid (moved r k)
moved-IsValid r k v h = record {
  buffer = v.buffer;
  some_room = v.some_room;
  filled = v.filled;
  placed = omega (arith, v.placed);
  arriving = v.arriving;
}

pub moved-pending :
    (r : Reader) (k : ℕ)
    → IsValid r
    → k ≤ r.bytes_in_buffer - r.cursor
    → (take k (drop r.cursor r.buf) ≡ take k (pending r))
      × (pending (moved r k) ≡ drop k (pending r))
moved-pending r k v h = (
  sym (
      take-append_le (buffered r) (flatten r.fd.chunks) k (omega (arith, length-buffered v))
      ∙ take-take k (r.bytes_in_buffer - r.cursor) (drop r.cursor r.buf) h),
  sym (
      drop-append_le (buffered r) (flatten r.fd.chunks) k (omega (arith, length-buffered v))
      ∙ ap (λ l. l ++ flatten r.fd.chunks)
          (drop-take k (r.bytes_in_buffer - r.cursor) (drop r.cursor r.buf) h
            ∙ ap₂ (λ n l. take n l) (omega arith) (drop-drop k r.cursor r.buf))),
)

-- What the loop does in the three cases of its body.
loop_done :
    (fuel n bytes_read : ℕ) (chars : List ℕ) (r : Reader)
    → n ≤ bytes_read
    → read_bytes_loop (suc fuel) n bytes_read chars r ≡ some (some chars, r)
unfolding read_bytes_loop
loop_done fuel n bytes_read chars r h = ground arith

loop_last :
    (fuel n bytes_read : ℕ) (chars : List ℕ) (r : Reader)
    → bytes_read < n
    → n - bytes_read ≤ r.bytes_in_buffer - r.cursor
    → read_bytes_loop (suc fuel) n bytes_read chars r
      ≡ some (some (chars ++ take (n - bytes_read) (drop r.cursor r.buf)), moved r (n - bytes_read))
unfolding read_bytes_loop
loop_last fuel n bytes_read chars r h1 h2 = ground arith

pub loop_refill :
    (fuel n bytes_read : ℕ) (chars : List ℕ) (r r' : Reader) (k : ℕ)
    → bytes_read < n
    → r.bytes_in_buffer - r.cursor < n - bytes_read
    → fill_buffer r ≡ (some k, r')
    → read_bytes_loop (suc fuel) n bytes_read chars r
      ≡ read_bytes_loop fuel n
          (bytes_read + (r.bytes_in_buffer - r.cursor))
          (chars ++ buffered r)
          r'
unfolding read_bytes_loop
loop_refill fuel n bytes_read chars r r' k h1 h2 e =
    ground (arith, ap (λ p. p.0) e, ap (λ p. p.1) e)

-- The rest of the `n` bytes has been taken from what was pending in `r`.
pub record Took (n : ℕ) (r r' : Reader) : Type 0 where
  pub valid : IsValid r'
  pub rest : pending r' ≡ drop n (pending r)

-- What is still to be taken after the rest of the buffer has been.
after-buffer :
    (r r' : Reader) (k n m : ℕ) (chars : List ℕ)
    → IsValid r
    → Refilled r k r'
    → n ≡ r.bytes_in_buffer - r.cursor + m
    → ((chars ++ buffered r) ++ take m (pending r') ≡ chars ++ take n (pending r))
      × (drop m (pending r') ≡ drop n (pending r))
after-buffer r r' k n m chars v f e = (
  append_assoc chars (buffered r) (take m (pending r'))
      ∙ ap (λ l. chars ++ l)
          (ap (λ l. buffered r ++ take m l) f.same_pending
            ∙ ap (λ j. buffered r ++ take j (flatten r.fd.chunks))
                (omega (arith, e, length-buffered v))
            ∙ sym (
                take-append_ge (buffered r) (flatten r.fd.chunks) n
                  (omega (arith, e, length-buffered v)))),
  ap (drop m) f.same_pending
      ∙ ap (λ j. drop j (flatten r.fd.chunks)) (omega (arith, e, length-buffered v))
      ∙ sym (
          drop-append_ge (buffered r) (flatten r.fd.chunks) n
            (omega (arith, e, length-buffered v))),
)

read_bytes_loop-Took :
    (fuel n bytes_read : ℕ) (chars : List ℕ) (r : Reader)
    → IsValid r
    → bytes_read ≤ n
    → n - bytes_read ≤ length (pending r)
    → length (flatten r.fd.chunks) < fuel
    → (r' : Reader) × (read_bytes_loop fuel n bytes_read chars r
        ≡ some (some (chars ++ take (n - bytes_read) (pending r)), r'))
      × Took (n - bytes_read) r r'
read_bytes_loop-Took zero n bytes_read chars r v le enough more = absurd (omega (arith, more))
read_bytes_loop-Took (suc fuel) n bytes_read chars r v le enough more =
    elim (le-cases n bytes_read) [
      | inl done ↦
          let none_left : n - bytes_read ≡ 0 = omega arith in
          (
            r,
            loop_done fuel n bytes_read chars r done
                ∙ ap (λ l. some (some l, r))
                    (sym (ap (λ k. chars ++ take k (pending r)) none_left ∙ append-nil chars)),
            record { valid = v; rest = sym (ap (λ k. drop k (pending r)) none_left) },
          )
      | inr left ↦ elim (le-cases (n - bytes_read) (r.bytes_in_buffer - r.cursor)) [
        | inl inside ↦
            let (bytes, rest) = moved-pending r (n - bytes_read) v inside in
            (
              moved r (n - bytes_read),
              loop_last fuel n bytes_read chars r left inside
                  ∙ ap (λ l. some (some (chars ++ l), moved r (n - bytes_read))) bytes,
              record { valid = moved-IsValid r (n - bytes_read) v inside; rest = rest },
            )
        | inr past ↦
            let in_buffer = r.bytes_in_buffer - r.cursor in
            let total = length-append (buffered r) (flatten r.fd.chunks) in
            let (k, r', e, positive, f) =
              fill_some r v (omega (arith, enough, past, total, length-buffered v)) in
            let (r'', run, took) =
              read_bytes_loop-Took fuel n (bytes_read + in_buffer) (chars ++ buffered r) r' f.valid
                (omega arith)
                (omega (arith, enough, total, length-buffered v, ap (λ l. length l) f.same_pending))
                (omega (arith, more, positive, f.fewer)) in
            let (bytes, rest) =
              after-buffer r r' k (n - bytes_read) (n - (bytes_read + in_buffer)) chars v f
                (omega arith) in
            (
              r'',
              loop_refill fuel n bytes_read chars r r' k left past e
                  ∙ run
                  ∙ ap (λ l. some (some l, r'')) bytes,
              record { valid = took.valid; rest = took.rest ∙ rest },
            )
      ]
    ]

-- The reader after a check that has found something to read.
pub record Ready (r r' : Reader) : Type 0 where
  pub valid : IsValid r'
  pub same_pending : pending r' ≡ pending r
  pub no_more : length (flatten r'.fd.chunks) ≤ length (flatten r.fd.chunks)
  pub same_end : r'.fd.fails ≡ r.fd.fails

check_skips : (r : Reader) → r.cursor < r.bytes_in_buffer → cursor_check r ≡ (true, r)
unfolding cursor_check
check_skips r h = ground arith

check_fills :
    (r r' : Reader) (k : ℕ)
    → r.bytes_in_buffer ≤ r.cursor
    → fill_buffer r ≡ (some k, r')
    → 0 < k
    → cursor_check r ≡ (true, r')
unfolding cursor_check
check_fills r r' k h e positive = ground (arith, ap (λ p. p.0) e, ap (λ p. p.1) e)

empty-buffered : (r : Reader) → r.bytes_in_buffer ≤ r.cursor → buffered r ≡ []
empty-buffered r h =
    ap (λ k. take k (drop r.cursor r.buf)) {x = r.bytes_in_buffer - r.cursor} {y = 0} (omega arith)

pub cursor_check-Ready :
    (r : Reader)
    → IsValid r
    → 0 < length (pending r)
    → (r' : Reader) × (cursor_check r ≡ (true, r')) × Ready r r'
cursor_check-Ready r v more = elim (le-cases r.bytes_in_buffer r.cursor) [
  | inl empty ↦
      let gone = empty-buffered r empty in
      let (k, r', e, positive, f) =
        fill_some r v (omega (arith, more, ap (λ l. length (l ++ flatten r.fd.chunks)) gone)) in
      (
        r',
        check_fills r r' k empty e positive,
        record {
          valid = f.valid;
          same_pending = f.same_pending ∙ sym (ap (λ l. l ++ flatten r.fd.chunks) gone);
          no_more = omega (arith, f.fewer);
          same_end = f.same_end;
        },
      )
  | inr some_left ↦ (
    r,
    check_skips r some_left,
    record { valid = v; same_pending = refl; no_more = omega arith; same_end = refl },
  )
]

read_bytes_finished :
    (fuel n : ℕ) (r r' r'' : Reader) (chars : List ℕ)
    → cursor_check r ≡ (true, r')
    → read_bytes_loop fuel n 0 [] r' ≡ some (some chars, r'')
    → reader_read_bytes fuel r n ≡ some (some (chars ++ (0 ∷ [])), r'')
unfolding reader_read_bytes
read_bytes_finished fuel n r r' r'' chars e run =
    ground (arith, ap (λ p. p.0) e, ap (λ p. p.1) e, run)

-- For a well-formed reader: when something is to come, and at least `n` bytes before the end,
-- `reader_read_bytes` returns the next `n` bytes with a NUL behind them and leaves the others to
-- be read, however they arrive in chunks. More fuel than there are bytes outside the buffer is
-- enough.
pub read_bytes-Took :
    (fuel n : ℕ) (r : Reader)
    → IsValid r
    → 0 < length (pending r)
    → n ≤ length (pending r)
    → length (flatten r.fd.chunks) < fuel
    → (r' : Reader) × (reader_read_bytes fuel r n
        ≡ some (some (take n (pending r) ++ (0 ∷ [])), r'))
      × Took n r r'
read_bytes-Took fuel n r v some_left enough more =
    let all : n - 0 ≡ n = omega arith in
    let (ready, e, y) = cursor_check-Ready r v some_left in
    let (r', run, took) =
      read_bytes_loop-Took fuel n 0 [] ready y.valid (omega arith)
        (omega (arith, enough, ap (λ l. length l) y.same_pending))
        (omega (arith, more, y.no_more)) in
    (
      r',
      read_bytes_finished fuel n r ready r' _ e run
          ∙ ap₂ (λ k l. some (some (take k l ++ (0 ∷ [])), r')) all y.same_pending,
      record { valid = took.valid; rest = took.rest ∙ ap₂ (λ k l. drop k l) all y.same_pending },
    )
