-- ===== src/CReader/Pending.antt =====
-- The bytes that a reader of lib/c/reader.c has still to give, and the refilling of its buffer.
use c_cpp_sandbox.Common.{
  ℕ, ◌+◌, ◌-◌, ◌≤◌, ◌<◌, ◌≡◌, refl, sym, ap, ◌∙◌, inl, inr, false, some, List, [], ◌∷◌, ◌++◌,
  append_assoc, arith, le-cases, List-cases, subst, All, length, take, drop, length-append,
  length-take, length-drop, take-append-drop, take-append_exact,
}
use c_cpp_sandbox.CReader.{Source, read, Reader, fill_buffer}

abbrev pub flatten : List (List ℕ) → List ℕ
flatten [] = []
flatten (c ∷ chunks) = c ++ flatten chunks

-- The bytes in the buffer that have not been given out.
abbrev pub buffered : Reader → List ℕ
buffered r = take (r.bytes_in_buffer - r.cursor) (drop r.cursor r.buf)

abbrev pub pending : Reader → List ℕ
pending r = buffered r ++ flatten r.fd.chunks

abbrev pub IsChunk : List ℕ → Type 0
IsChunk c = 0 < length c

pub record IsValid (r : Reader) : Type 0 where
  pub buffer : length r.buf ≡ r.buf_size
  pub some_room : 0 < r.buf_size
  pub filled : r.bytes_in_buffer ≤ r.buf_size
  pub placed : r.cursor ≤ r.bytes_in_buffer
  pub arriving : All IsChunk r.fd.chunks

pub length-buffered : {r : Reader} → IsValid r → length (buffered r) ≡ r.bytes_in_buffer - r.cursor
length-buffered {r} v = omega (
  arith,
  length-take (r.bytes_in_buffer - r.cursor) (drop r.cursor r.buf),
  length-drop r.cursor r.buf,
  v.buffer,
  v.filled,
)

-- The reader `r'` after a refill that has put `k` bytes into the buffer.
pub record Refilled (r : Reader) (k : ℕ) (r' : Reader) : Type 0 where
  pub valid : IsValid r'
  pub same_pending : pending r' ≡ flatten r.fd.chunks
  pub fewer : length (flatten r'.fd.chunks) + k ≡ length (flatten r.fd.chunks)
  pub same_end : r'.fd.fails ≡ r.fd.fails

-- The reader with the bytes `b` in its buffer.
abbrev pub refilled : Reader → List ℕ → Source → Reader
refilled r b fd = record r {
  fd = fd;
  buf = b ++ drop (length b) r.buf;
  cursor = 0;
  bytes_in_buffer = length b;
}

refilled-Refilled :
    (r : Reader) (b : List ℕ) (fd : Source)
    → IsValid r
    → length b ≤ r.buf_size
    → All IsChunk fd.chunks
    → b ++ flatten fd.chunks ≡ flatten r.fd.chunks
    → fd.fails ≡ r.fd.fails
    → Refilled r (length b) (refilled r b fd)
refilled-Refilled r b fd v le arriving same end = record {
  valid = record {
    buffer =
        omega
          (arith, length-append b (drop (length b) r.buf), length-drop (length b) r.buf, v.buffer);
    some_room = v.some_room;
    filled = le;
    placed = omega arith;
    arriving = arriving;
  };
  same_pending =
      ap (λ l. l ++ flatten fd.chunks)
        (take-append_exact b (drop (length b) r.buf) (length b - 0) (omega arith))
      ∙ same;
  fewer = omega (arith, length-append b (flatten fd.chunks), ap (λ l. length l) same);
  same_end = end;
}

pub fill_read :
    (r : Reader) (b : List ℕ) (fd : Source)
    → read r.buf_size r.fd ≡ (some b, fd)
    → length b ≤ r.buf_size
    → fill_buffer r ≡ (some (length b), refilled r b fd)
unfolding fill_buffer
fill_read r b fd e le = ground (arith, e, ap (λ p. p.0) e, ap (λ p. p.1) e)

pub read_whole :
    (n : ℕ) (fd : Source) (c : List ℕ) (chunks : List (List ℕ))
    → fd.chunks ≡ c ∷ chunks
    → length c ≤ n
    → read n fd ≡ (some c, record fd { chunks = chunks })
read_whole n fd c chunks e le = ground (arith, e)

read_part :
    (n : ℕ) (fd : Source) (c : List ℕ) (chunks : List (List ℕ))
    → fd.chunks ≡ c ∷ chunks
    → n < length c
    → read n fd ≡ (some (take n c), record fd { chunks = drop n c ∷ chunks })
read_part n fd c chunks e gt = ground (arith, e)

-- A refill while there is something to come.
pub fill_some :
    (r : Reader)
    → IsValid r
    → 0 < length (flatten r.fd.chunks)
    → (k : ℕ) × (r' : Reader) × (fill_buffer r ≡ (some k, r')) × (0 < k) × Refilled r k r'
fill_some r v more = elim (List-cases r.fd.chunks) [
  | inl e ↦ absurd (omega (arith, more, ap (λ l. length (flatten l)) e))
  | inr (c, chunks, e) ↦
      let (chunk, later) : All IsChunk (c ∷ chunks) = subst (λ l. All IsChunk l) e v.arriving in
      elim (le-cases (length c) r.buf_size) [
        | inl le ↦ (
          length c,
          refilled r c (record r.fd { chunks = chunks }),
          fill_read r c _ (read_whole _ _ c chunks e le) le,
          chunk,
          refilled-Refilled r c (record r.fd { chunks = chunks }) v le later (sym (ap flatten e))
              refl,
        )
        | inr gt ↦
            let fd : Source = record r.fd { chunks = drop r.buf_size c ∷ chunks } in
            let size : length (take r.buf_size c) ≡ r.buf_size =
              omega (arith, length-take r.buf_size c) in
            (
              length (take r.buf_size c),
              refilled r (take r.buf_size c) fd,
              fill_read r _ fd (read_part _ _ c chunks e gt) (omega (arith, size)),
              omega (arith, size, v.some_room),
              refilled-Refilled r (take r.buf_size c) fd v (omega (arith, size))
                  (omega (arith, length-drop r.buf_size c), later)
                  (sym (append_assoc (take r.buf_size c) (drop r.buf_size c) (flatten chunks))
                    ∙ ap (λ l. l ++ flatten chunks) (take-append-drop r.buf_size c)
                    ∙ sym (ap flatten e))
                  refl,
            )
      ]
]

-- A refill at the end of the file: no byte, and nothing to come.
pub fill_end :
    (r : Reader)
    → IsValid r
    → r.fd.fails ≡ false
    → length (flatten r.fd.chunks) ≡ 0
    → (r' : Reader) × (fill_buffer r ≡ (some 0, r')) × Refilled r 0 r'
fill_end r v end nothing = elim (List-cases r.fd.chunks) [
  | inl e ↦ (
    refilled r [] r.fd,
    fill_read r [] r.fd (ground (arith, e, end)) (omega arith),
    refilled-Refilled r [] r.fd v (omega arith) v.arriving refl refl,
  )
  | inr (c, chunks, e) ↦
      let (chunk, later) : All IsChunk (c ∷ chunks) = subst (λ l. All IsChunk l) e v.arriving in
      absurd (
        omega
          (arith, chunk, nothing, ap (λ l. length (flatten l)) e, length-append c (flatten chunks)))
]
