-- ===== src/ConnectionTimer/Process.antt =====
-- One round of `timerProcess` of lib/web/server_connection_timer.h on the list of connections.
use c_cpp_sandbox.Common.{
  ℕ, zero, suc, ◌+◌, ◌<◌, Bool, false, Option, none, some, List, [], ◌∷◌, ◌++◌, leb, ◌≡◌, refl, sym,
  ap, ◌∙◌, inl, inr, arith, All, All-map, length, subst, append-nil, append_assoc, if◌then◌else◌,
  Bool-cases,
}
use c_cpp_sandbox.ConnectionTimer.{Timer, did, close_connection, process_loop, timer_process}
use c_cpp_sandbox.ConnectionTimer.Linked.{
  Entry, next_of, last_of, Segment, Apart, Linked, ==_sym, Segment-append, All-append,
  Distinct-append, last_of-append,
}
use c_cpp_sandbox.ConnectionTimer.Relink.{At, remove_connection-At}

-- Whether the time of an entry is over at `now`.
abbrev pub is_over : ℕ → Entry → Bool
is_over now e = leb (e.start_s + e.timeout_s) now

-- The entries that a round leaves, when its turns from `k` on read `clock k` and so on.
abbrev pub survivors : (ℕ → ℕ) → ℕ → List Entry → List Entry
survivors clock k [] = []
survivors clock k (e ∷ l) =
    if is_over (clock k) e then survivors clock (suc k) l else e ∷ survivors clock (suc k) l

-- The descriptors closed behind it, the latest first.
abbrev pub closed_by : (ℕ → ℕ) → ℕ → List Entry → List ℕ → List ℕ
closed_by clock k [] closed = closed
closed_by clock k (e ∷ l) closed =
    closed_by clock (suc k) l (if is_over (clock k) e then e.fd ∷ closed else closed)

All-both {ℓ κ ι μ} :
    {A : Type ℓ} (P : A → Type κ) (Q : A → Type ι) (R : A → Type μ)
    → ((x : A) → P x → Q x → R x)
    → (l : List A) → All P l
    → All Q l
    → All R l
All-both P Q R f [] h g = tt
All-both P Q R f (x ∷ l) (p, h) (q, g) = (f x p q, All-both P Q R f l h g)

pub next_of-append :
    (d r : List Entry) (q : Option ℕ) → next_of (d ++ r) q ≡ next_of d (next_of r q)
next_of-append [] r q = refl
next_of-append (x ∷ d) r q = refl

-- The loop steps over a connection.
pub step-At :
    (t : Timer) (d : List Entry) (e : Entry) (r : List Entry)
    → At t d (e ∷ r)
    → At t (d ++ (e ∷ [])) r
step-At t d e r h =
    let last = last_of-append none d (e ∷ []) in
    record {
      start_is = h.start_is ∙ sym (next_of-append d (e ∷ []) (next_of r none));
      end_is = h.end_is ∙ ap (λ p. last_of p r) (sym last);
      left = Segment-append t.heap none d (e ∷ []) (next_of r none) h.left (h.right.0, tt);
      right = subst (λ p. Segment t.heap p r none) (sym last) h.right.1;
      distinct_left =
          Distinct-append d (e ∷ []) h.distinct_left (tt, tt)
            (All-map (λ x away. (away.0, tt)) d h.apart) (h.apart'.0, tt);
      distinct_right = h.distinct_right.1;
      apart =
          All-append _ d (e ∷ []) (All-map (λ x away. away.1) d h.apart) (h.distinct_right.0, tt);
      apart' =
          All-both _ _ _
            (λ y away other. All-append _ d (e ∷ []) away (==_sym y.address e.address other, tt)) r
            h.apart'.1 h.distinct_right.0;
    }

Closed-At :
    (t : Timer) (d r : List Entry) (closed : List ℕ)
    → At t d r
    → At (record t { closed = closed }) d r
Closed-At t d r closed h = record {
  start_is = h.start_is;
  end_is = h.end_is;
  left = h.left;
  right = h.right;
  distinct_left = h.distinct_left;
  distinct_right = h.distinct_right;
  apart = h.apart;
  apart' = h.apart';
}

pub close_connection-At :
    (t : Timer) (d : List Entry) (e : Entry) (r : List Entry)
    → At t d (e ∷ r)
    → (t' : Timer) × (close_connection e.address t ≡ some t')
      × At t' d r
      × (t'.closed ≡ e.fd ∷ t.closed)
      × (t'.locked ≡ t.locked)
unfolding close_connection
close_connection-At t d e r h =
    let (t', run, h', closed, locked) =
      remove_connection-At (record t { closed = e.fd ∷ t.closed }) d e r
        (Closed-At t d (e ∷ r) (e.fd ∷ t.closed) h) in
    (t', rw (close_connection, h.right.0) run, h', closed, locked)

process_loop-At :
    (clock : ℕ → ℕ) (fuel k : ℕ) (t : Timer) (d r : List Entry)
    → At t d r
    → length r < fuel
    → (t' : Timer) × (process_loop clock fuel k (next_of r none) t ≡ some t')
      × At t' (d ++ survivors clock k r) []
      × (t'.closed ≡ closed_by clock k r t.closed)
      × (t'.locked ≡ t.locked)
unfolding process_loop
process_loop-At clock zero k t d r h enough = absurd (omega arith)
process_loop-At clock (suc fuel) k t d [] h enough =
    (t, refl, subst (λ l. At t l []) (sym (append-nil d)) h, refl, refl)
process_loop-At clock (suc fuel) k t d (e ∷ r) h enough = elim (Bool-cases (is_over (clock k) e)) [
  | inl over ↦
      let (t1, run, h1, closed1, locked1) = close_connection-At t d e r h in
      let (t', rest, h', closed', locked') =
        process_loop-At clock fuel (suc k) t1 d r h1 (omega arith) in
      (
        t',
        rw (process_loop, h.right.0, over, run) rest,
        subst
            (λ b.
              At t' (d ++ (if b then survivors clock (suc k) r else e ∷ survivors clock (suc k) r))
                [])
            (sym over) h',
        closed'
            ∙ ap (closed_by clock (suc k) r)
                (closed1 ∙ ap (λ b. if b then e.fd ∷ t.closed else t.closed) (sym over)),
        locked' ∙ locked1,
      )
  | inr on ↦
      let (t', rest, h', closed', locked') =
        process_loop-At clock fuel (suc k) t (d ++ (e ∷ [])) r (step-At t d e r h) (omega arith) in
      (
        t',
        rw (process_loop, h.right.0, on) rest,
        subst
            (λ b.
              At t' (d ++ (if b then survivors clock (suc k) r else e ∷ survivors clock (suc k) r))
                [])
            (sym on)
            (subst (λ l. At t' l []) (append_assoc d (e ∷ []) (survivors clock (suc k) r)) h'),
        closed'
            ∙ ap (closed_by clock (suc k) r)
                (ap (λ b. if b then e.fd ∷ t.closed else t.closed) (sym on)),
        locked',
      )
]

nothing-Away : (l : List Entry) → Apart l []
nothing-Away [] = tt
nothing-Away (e ∷ l) = (tt, nothing-Away l)

pub Linked-At : (t : Timer) (l : List Entry) → Linked t l → At t [] l
Linked-At t l h = record {
  start_is = h.start_is;
  end_is = h.end_is;
  left = tt;
  right = h.entries;
  distinct_left = tt;
  distinct_right = h.distinct;
  apart = tt;
  apart' = nothing-Away l;
}

-- For a list of connections whose pointers are right, a mutex that is free, and more fuel than
-- connections: a round of `timerProcess` ends without a use of freed memory, it closes the
-- descriptors of just the connections whose time is over when their turn comes, in the list's order,
-- and the pointers are again right for the list of the others, in their order.
pub timer_process-Linked :
    (clock : ℕ → ℕ) (fuel : ℕ) (t : Timer) (l : List Entry)
    → Linked t l
    → t.locked ≡ false
    → length l < fuel
    → (t' : Timer) × (timer_process clock fuel t ≡ did t')
      × Linked t' (survivors clock 0 l)
      × (t'.closed ≡ closed_by clock 0 l t.closed)
      × (t'.locked ≡ false)
unfolding timer_process
timer_process-Linked clock fuel t l h unlocked enough =
    let (t', run, h', closed, locked) =
      process_loop-At clock fuel 0 t [] l (Linked-At t l h) enough in
    (
      t',
      ground (arith, unlocked, ap (λ s. process_loop clock fuel 0 s t) h.start_is ∙ run),
      record {
        start_is = h'.start_is;
        end_is = h'.end_is;
        entries = h'.left;
        distinct = h'.distinct_left;
      },
      closed,
      locked ∙ unlocked,
    )
