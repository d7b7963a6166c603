-- ===== src/EStream/Memory.antt =====
-- Streams over a buffer in memory, lib/estream/estream.h: what lies before the cursor of one.
use c_cpp_sandbox.Common.{
  ℕ, suc, ◌+◌, ◌≤◌, ◌<◌, true, false, none, some, List, [], ◌∷◌, ◌≡◌, refl, sym, ap, ◌∙◌, ◌⊎◌, inl,
  inr, arith, take, drop, length, get_elem?, length-take, length-drop, get_elem?-drop, drop-drop,
  leb_no, le→leb, Bool-cases, get_elem?-take,
}
use c_cpp_sandbox.EStream.{
  EStream, got, raised, memory_stream, read_past_buffer, good, current, peek, get,
}

-- `l` is what `s`, a stream over memory, has still to give.
pub record Holds (s : EStream) (l : List ℕ) : Type 0 where
  pub no_descriptor : s.fd ≡ none
  pub not_ungot : s.ungot ≡ false
  pub inside : s.els_in_buffer ≤ length s.buffer
  pub before : s.cursor ≤ s.els_in_buffer
  pub pending : drop s.cursor (take s.els_in_buffer s.buffer) ≡ l
  pub healthy : (s.bad ≡ false) ⊎ (l ≡ [])

pub memory_stream-Holds :
    (b : List ℕ) (bs : ℕ) → bs ≤ length b → Holds (memory_stream b bs) (take bs b)
unfolding memory_stream
memory_stream-Holds b bs h = record {
  no_descriptor = refl;
  not_ungot = refl;
  inside = h;
  before = omega arith;
  pending = refl;
  healthy = inl refl;
}

module _ (s : EStream) (x : ℕ) (l : List ℕ) (h : Holds s (x ∷ l)) where
  cursor-lt : s.cursor < s.els_in_buffer
  cursor-lt = omega (
    arith,
    ap length h.pending,
    length-drop s.cursor (take s.els_in_buffer s.buffer),
    length-take s.els_in_buffer s.buffer,
    h.inside,
  )

  not_bad : s.bad ≡ false
  not_bad = elim h.healthy [ inl e ↦ e | inr e ↦ cc ]

  -- While there is an element the stream is good, and asking does not change it.
  pub good-some : good s ≡ (true, s)
  unfolding good read_past_buffer
  good-some = rw (good, not_bad, leb_no s.els_in_buffer s.cursor cursor-lt) refl

  element : get_elem? s.buffer s.cursor ≡ some x
  element =
      sym (get_elem?-take s.buffer s.els_in_buffer s.cursor cursor-lt)
      ∙ get_elem?-drop (take s.els_in_buffer s.buffer) s.cursor x l h.pending

  current-some : current s ≡ got x s
  unfolding current
  current-some = ground (arith, h.not_ungot, element)

  past_no : read_past_buffer s ≡ false
  unfolding read_past_buffer
  past_no = leb_no s.els_in_buffer s.cursor cursor-lt

  pub peek-some : peek s ≡ got x s
  unfolding peek
  peek-some =
      ground (arith, ap (λ p. p.0) good-some, ap (λ p. p.1) good-some, past_no, current-some)

  -- `get` gives the first of what is left and leaves the others.
  pub get-some : (s' : EStream) × (get s ≡ got x s') × Holds s' l
  unfolding get
  get-some = (
    record s { cursor = suc s.cursor },
    ground (arith, peek-some, h.not_ungot),
    record {
      no_descriptor = h.no_descriptor;
      not_ungot = h.not_ungot;
      inside = h.inside;
      before = cursor-lt;
      pending =
          ap (λ n. drop n (take s.els_in_buffer s.buffer)) {x = suc s.cursor} {y = s.cursor + 1}
            (omega arith)
          ∙ sym (drop-drop 1 s.cursor (take s.els_in_buffer s.buffer))
          ∙ ap (drop 1) h.pending;
      healthy = inl not_bad;
    },
  )

module _ (s : EStream) (h : Holds s []) where
  at_end : s.els_in_buffer ≤ s.cursor
  at_end = omega (
    arith,
    ap length h.pending,
    length-drop s.cursor (take s.els_in_buffer s.buffer),
    length-take s.els_in_buffer s.buffer,
    h.inside,
  )

  raises : (s' : EStream) → good s ≡ (false, s') → peek s ≡ raised s'
  unfolding peek
  raises s' e = ground (arith, ap (λ p. p.0) e, ap (λ p. p.1) e)

  -- At the end the stream is not good any more, and it stays so.
  pub good-none : (s' : EStream) × (good s ≡ (false, s')) × Holds s' []
  unfolding good read_past_buffer
  good-none = elim (Bool-cases s.bad) [
    | inl e ↦ (s, ground (arith, e), h)
    | inr e ↦ (
      record s { bad = true },
      ground (arith, e, le→leb s.els_in_buffer s.cursor at_end, h.no_descriptor),
      record {
        no_descriptor = h.no_descriptor;
        not_ungot = h.not_ungot;
        inside = h.inside;
        before = h.before;
        pending = h.pending;
        healthy = inr refl;
      },
    )
  ]

  pub peek-none : (s' : EStream) × (peek s ≡ raised s') × Holds s' []
  unfolding peek
  peek-none = let (s', e, h') = good-none in (s', raises s' e, h')
