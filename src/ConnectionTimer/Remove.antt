-- ===== src/ConnectionTimer/Remove.antt =====
-- `timerRemoveConnection` of lib/web/server_connection_timer.h on the list of connections.
use c_cpp_sandbox.Common.{
  ℕ, zero, suc, ◌<◌, true, false, none, some, List, [], ◌∷◌, ◌++◌, ◌==◌, ◌≡◌, refl, sym, ap, ◌∙◌,
  inl, inr, arith, length, subst, append_assoc, if◌then◌else◌, Bool-cases,
}
use c_cpp_sandbox.ConnectionTimer.{Timer, did, remove_connection_loop, timer_remove_connection}
use c_cpp_sandbox.ConnectionTimer.Linked.{
  Entry, next_of, Linked, Segment-append, Distinct-append, last_of-append,
}
use c_cpp_sandbox.ConnectionTimer.Relink.{At}
use c_cpp_sandbox.ConnectionTimer.Process.{close_connection-At, step-At, next_of-append, Linked-At}

-- The list without the first entry for `fd`, and the descriptors closed with it.
abbrev pub remove_first : ℕ → List Entry → List Entry
remove_first fd [] = []
remove_first fd (e ∷ l) = if e.fd == fd then l else e ∷ remove_first fd l

abbrev pub closed_with : ℕ → List Entry → List ℕ → List ℕ
closed_with fd [] closed = closed
closed_with fd (e ∷ l) closed = if e.fd == fd then e.fd ∷ closed else closed_with fd l closed

At-Linked : (t : Timer) (d r : List Entry) → At t d r → Linked t (d ++ r)
At-Linked t d r h = record {
  start_is = h.start_is ∙ sym (next_of-append d r none);
  end_is = h.end_is ∙ sym (last_of-append none d r);
  entries = Segment-append t.heap none d r none h.left h.right;
  distinct = Distinct-append d r h.distinct_left h.distinct_right h.apart h.apart';
}

remove_connection_loop-Linked :
    (fuel fd : ℕ) (t : Timer) (d r : List Entry)
    → At t d r
    → length r < fuel
    → (t' : Timer) × (remove_connection_loop fuel (next_of r none) fd true t ≡ some t')
      × Linked t' (d ++ remove_first fd r)
      × (t'.closed ≡ closed_with fd r t.closed)
      × (t'.locked ≡ t.locked)
unfolding remove_connection_loop
remove_connection_loop-Linked zero fd t d r h enough = absurd (omega arith)
remove_connection_loop-Linked (suc fuel) fd t d [] h enough =
    (t, refl, At-Linked t d [] h, refl, refl)
remove_connection_loop-Linked (suc fuel) fd t d (e ∷ r) h enough = elim (Bool-cases (e.fd == fd)) [
  | inl found ↦
      let (t', run, h', closed, locked) = close_connection-At t d e r h in
      (
        t',
        rw (remove_connection_loop, h.right.0, found) run,
        subst (λ b. Linked t' (d ++ (if b then r else e ∷ remove_first fd r))) (sym found)
            (At-Linked t' d r h'),
        closed ∙ ap (λ b. if b then e.fd ∷ t.closed else closed_with fd r t.closed) (sym found),
        locked,
      )
  | inr other ↦
      let (t', rest, h', closed, locked) =
        remove_connection_loop-Linked fuel fd t (d ++ (e ∷ [])) r (step-At t d e r h)
          (omega arith) in
      (
        t',
        rw (remove_connection_loop, h.right.0, other) rest,
        subst (λ b. Linked t' (d ++ (if b then r else e ∷ remove_first fd r))) (sym other)
            (subst (Linked t') (append_assoc d (e ∷ []) (remove_first fd r)) h'),
        closed ∙ ap (λ b. if b then e.fd ∷ t.closed else closed_with fd r t.closed) (sym other),
        locked,
      )
]

-- For a list of connections whose pointers are right, a mutex that is free, and more fuel than
-- connections: `timerRemoveConnection` with `close` closes the first connection for the descriptor,
-- if there is one, and no other, without a use of freed memory, and the pointers are again right for
-- the list of the others, in their order.
pub timer_remove_connection-Linked :
    (fuel fd : ℕ) (t : Timer) (l : List Entry)
    → Linked t l
    → t.locked ≡ false
    → length l < fuel
    → (t' : Timer) × (timer_remove_connection fuel fd true t ≡ did t')
      × Linked t' (remove_first fd l)
      × (t'.closed ≡ closed_with fd l t.closed)
      × (t'.locked ≡ false)
unfolding timer_remove_connection
timer_remove_connection-Linked fuel fd t l h unlocked enough =
    let (t', run, h', closed, locked) =
      remove_connection_loop-Linked fuel fd t [] l (Linked-At t l h) enough in
    (
      t',
      ground (arith, unlocked, ap (λ s. remove_connection_loop fuel s fd true t) h.start_is ∙ run),
      h',
      closed,
      locked ∙ unlocked,
    )
