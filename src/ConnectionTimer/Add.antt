-- ===== src/ConnectionTimer/Add.antt =====
-- `timerAddConnection` of lib/web/server_connection_timer.h on the list of connections.
use c_cpp_sandbox.Common.{
  ℕ, false, none, some, List, [], ◌∷◌, ◌++◌, ◌≡◌, refl, sym, ap, ◌∙◌, arith, All-map,
}
use c_cpp_sandbox.ConnectionTimer.{Timer, did, set, timer_add_connection}
use c_cpp_sandbox.ConnectionTimer.Linked.{
  Entry, connection, Away, Linked, ==_sym, set-same, Segment-append, Distinct-append,
  last_of-append, Segment-set,
}
use c_cpp_sandbox.ConnectionTimer.Relink.{segment-Tail}

-- For a list of connections whose pointers are right, memory that `malloc` gives elsewhere than at a
-- connection, and a mutex that is free: `timerAddConnection` puts the new connection, with its
-- time-out and the time of the call, at the end of the list, the pointers are right again, and
-- nothing is closed.
pub timer_add_connection-Linked :
    (a fd timeout_s now : ℕ) (t : Timer) (l : List Entry)
    → Linked t l
    → Away a l
    → t.locked ≡ false
    → (t' : Timer) × (timer_add_connection a fd timeout_s now t ≡ did t')
      × Linked t'
          (l ++ (record { address = a; fd = fd; start_s = now; timeout_s = timeout_s } ∷ []))
      × (t'.closed ≡ t.closed)
unfolding timer_add_connection
timer_add_connection-Linked a fd timeout_s now t [] h away unlocked = (
  record t {
    heap =
        set t.heap a (
          some
            (record { fd = fd; start_s = now; timeout_s = timeout_s; next = none; prev = none }));
    start = some a;
    end = some a;
  },
  rw (timer_add_connection, h.start_is) refl,
  record {
    start_is = refl;
    end_is = refl;
    entries = (set-same t.heap a _, tt);
    distinct = (tt, tt);
  },
  refl,
)
timer_add_connection-Linked a fd timeout_s now t (x ∷ l) h away unlocked =
    let new : Entry = record { address = a; fd = fd; start_s = now; timeout_s = timeout_s } in
    let r = segment-Tail t.heap none x l none h.entries h.distinct in
    let heap1 = set t.heap r.b (some (record (r.c) { next = some a })) in
    (
      record t {
        heap = set heap1 a (
            some (record {
              fd = fd;
              start_s = now;
              timeout_s = timeout_s;
              next = none;
              prev = some (r.b);
            }));
        end = some a;
      },
      ground (arith, h.start_is, unlocked, h.end_is ∙ r.is_last, r.at_b),
      record {
        start_is = h.start_is;
        end_is = sym (last_of-append none (x ∷ l) (new ∷ []));
        entries =
            Segment-append _ none (x ∷ l) (new ∷ []) none
              (Segment-set heap1 a _ none (x ∷ l) (some a) away (r.renewed (some a)))
              (set-same heap1 a _ ∙ ap (λ p. some (connection new none p)) (sym r.is_last), tt);
        distinct =
            Distinct-append (x ∷ l) (new ∷ []) h.distinct (tt, tt)
              (All-map (λ y other. (==_sym y.address a other, tt)) (x ∷ l) away) (away, tt);
      },
      refl,
    )
