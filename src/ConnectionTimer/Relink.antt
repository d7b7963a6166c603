-- ===== src/ConnectionTimer/Relink.antt =====
-- `removeConnection` of lib/web/server_connection_timer.h, on both sides of a connection.
use c_cpp_sandbox.Common.{
  ℕ, false, Option, none, some, List, [], ◌∷◌, ◌==◌, ◌≡◌, refl, ◌∙◌, All-map,
}
use c_cpp_sandbox.ConnectionTimer.{
  Connection, Timer, set, relink_prev, relink_next, remove_connection,
}
use c_cpp_sandbox.ConnectionTimer.Linked.{
  Entry, connection, next_of, last_of, Segment, Away, Distinct, Apart, ==_sym, set-other, set-same,
  Segment_agree, Segment-set,
}

-- The last connection of a segment, and the segment when its `next` is written.
pub record Tail (heap : ℕ → Option Connection) (p : Option ℕ) (x : Entry) (d : List Entry)
    : Type 0 where
  pub b : ℕ
  pub c : Connection
  pub is_last : last_of p (x ∷ d) ≡ some b
  pub at_b : heap b ≡ some c
  pub renewed : (q : Option ℕ) → Segment (set heap b (some (record c { next = q }))) p (x ∷ d) q
  pub elsewhere : (a : ℕ) → Away a (x ∷ d) → (a == b) ≡ false

pub segment-Tail :
    (heap : ℕ → Option Connection) (p : Option ℕ) (x : Entry) (d : List Entry) (q : Option ℕ)
    → Segment heap p (x ∷ d) q
    → Distinct (x ∷ d)
    → Tail heap p x d
segment-Tail heap p x [] q (s, _) dist = record {
  b = x.address;
  c = connection x q p;
  is_last = refl;
  at_b = s;
  renewed = λ q'. (set-same heap x.address (some (connection x q' p)), tt);
  elsewhere = λ a h. ==_sym x.address a h.0;
}
segment-Tail heap p x (y ∷ d) q (s, rest) (away, dist) =
    let r = segment-Tail heap (some x.address) y d q rest dist in
    record {
      b = r.b;
      c = r.c;
      is_last = r.is_last;
      at_b = r.at_b;
      renewed =
          λ q'. (set-other heap r.b _ x.address (r.elsewhere x.address away) ∙ s, r.renewed q');
      elsewhere = λ a h. r.elsewhere a h.1;
    }

-- What differs after the `next` before a connection is written.
record LeftDone (t t' : Timer) (d : List Entry) (next : Option ℕ) : Type 0 where
  start_is : t'.start ≡ next_of d next
  entries : Segment t'.heap none d next
  end_same : t'.end ≡ t.end
  locked_same : t'.locked ≡ t.locked
  closed_same : t'.closed ≡ t.closed
  frame : (a : ℕ) → Away a d → t'.heap a ≡ t.heap a

relink_prev-LeftDone :
    (t : Timer) (c : Connection) (d : List Entry) (q : Option ℕ)
    → t.start ≡ next_of d q
    → Segment t.heap none d q
    → Distinct d
    → c.prev ≡ last_of none d
    → (t' : Timer) × (relink_prev c t ≡ some t') × LeftDone t t' d c.next
unfolding relink_prev
relink_prev-LeftDone t c [] q st seg dist e = (
  record t { start = c.next },
  rw (relink_prev, e) refl,
  record {
    start_is = refl;
    entries = tt;
    end_same = refl;
    locked_same = refl;
    closed_same = refl;
    frame = λ a h. refl;
  },
)
relink_prev-LeftDone t c (x ∷ d) q st seg dist e =
    let r = segment-Tail t.heap none x d q seg dist in
    (
      record t { heap = set t.heap r.b (some (record (r.c) { next = c.next })) },
      rw (relink_prev, e ∙ r.is_last, r.at_b) refl,
      record {
        start_is = st;
        entries = r.renewed c.next;
        end_same = refl;
        locked_same = refl;
        closed_same = refl;
        frame = λ a h. set-other t.heap r.b _ a (r.elsewhere a h);
      },
    )

-- What differs after the `prev` behind a connection is written.
record RightDone (t t' : Timer) (r : List Entry) (prev : Option ℕ) : Type 0 where
  end_is : t'.end ≡ last_of prev r
  entries : Segment t'.heap prev r none
  start_same : t'.start ≡ t.start
  locked_same : t'.locked ≡ t.locked
  closed_same : t'.closed ≡ t.closed
  frame : (a : ℕ) → Away a r → t'.heap a ≡ t.heap a

relink_next-RightDone :
    (t : Timer) (c : Connection) (r : List Entry) (p : Option ℕ)
    → t.end ≡ last_of p r
    → Segment t.heap p r none
    → Distinct r
    → c.next ≡ next_of r none
    → (t' : Timer) × (relink_next c t ≡ some t') × RightDone t t' r c.prev
unfolding relink_next
relink_next-RightDone t c [] p en seg dist e = (
  record t { end = c.prev },
  rw (relink_next, e) refl,
  record {
    end_is = refl;
    entries = tt;
    start_same = refl;
    locked_same = refl;
    closed_same = refl;
    frame = λ a h. refl;
  },
)
relink_next-RightDone t c (y ∷ r) p en (s, rest) (away, dist) e = (
  record t { heap = set t.heap y.address (some (connection y (next_of r none) c.prev)) },
  rw (relink_next, e, s) refl,
  record {
    end_is = en;
    entries = (
      set-same t.heap y.address _,
      Segment-set t.heap y.address _ (some y.address) r none away rest,
    );
    start_same = refl;
    locked_same = refl;
    closed_same = refl;
    frame = λ a h. set-other t.heap y.address _ a (==_sym y.address a h.0);
  },
)

-- The list, cut in two: `d` before and `r` behind the place where a loop stands.
pub record At (t : Timer) (d r : List Entry) : Type 0 where
  pub start_is : t.start ≡ next_of d (next_of r none)
  pub end_is : t.end ≡ last_of (last_of none d) r
  pub left : Segment t.heap none d (next_of r none)
  pub right : Segment t.heap (last_of none d) r none
  pub distinct_left : Distinct d
  pub distinct_right : Distinct r
  pub apart : Apart d r
  pub apart' : Apart r d

-- The connection is taken out of the list, and its memory is not used afterwards.
pub remove_connection-At :
    (t : Timer) (d : List Entry) (e : Entry) (r : List Entry)
    → At t d (e ∷ r)
    → (t' : Timer) × (remove_connection e.address t ≡ some t')
      × At t' d r
      × (t'.closed ≡ t.closed)
      × (t'.locked ≡ t.locked)
unfolding remove_connection
remove_connection-At t d e r h =
    let c = connection e (next_of r none) (last_of none d) in
    let (t1, run1, one) =
      relink_prev-LeftDone t c d (some e.address) h.start_is h.left h.distinct_left refl in
    let (t2, run2, two) =
      relink_next-RightDone t1 c r (some e.address) (one.end_same ∙ h.end_is)
        (Segment_agree t.heap t1.heap (some e.address) r none
          (All-map (λ y away. one.frame y.address away) r h.apart'.1) h.right.1)
        h.distinct_right.1 refl in
    let apart : Apart d r = All-map (λ x away. away.1) d h.apart in
    let left : Segment t2.heap none d (next_of r none) =
      Segment_agree t1.heap t2.heap none d (next_of r none)
        (All-map (λ x away. two.frame x.address away) d apart) one.entries in
    (
      record t2 { heap = set t2.heap e.address none },
      rw (remove_connection, h.right.0, run1, run2) refl,
      record {
        start_is = two.start_same ∙ one.start_is;
        end_is = two.end_is;
        left = Segment-set t2.heap e.address none none d (next_of r none) h.apart'.0 left;
        right =
            Segment-set t2.heap e.address none (last_of none d) r none h.distinct_right.0
              two.entries;
        distinct_left = h.distinct_left;
        distinct_right = h.distinct_right.1;
        apart = apart;
        apart' = h.apart'.1;
      },
      two.closed_same ∙ one.closed_same,
      two.locked_same ∙ one.locked_same,
    )
