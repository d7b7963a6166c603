-- ===== src/ConnectionTimer/Tests.antt =====
-- Runs of lib/web/server_connection_timer.h on two connections, and examples of the theorems.
use c_cpp_sandbox.Common.{true, false, none, some, [], ◌∷◌, ◌≡◌, refl, arith}
use c_cpp_sandbox.ConnectionTimer.{
  Timer, did, blocked, set, timer_process, timer_add_connection, timer_get_timeout,
  timer_remove_connection,
}
use c_cpp_sandbox.ConnectionTimer.Linked.{Entry, connection, Linked}
use c_cpp_sandbox.ConnectionTimer.Process.{survivors, closed_by, timer_process-Linked}
use c_cpp_sandbox.ConnectionTimer.Remove.{remove_first, closed_with, timer_remove_connection-Linked}
use c_cpp_sandbox.ConnectionTimer.Add.{timer_add_connection-Linked}

abbrev first : Entry
first = record { address = 16; fd = 5; start_s = 100; timeout_s = 10 }

abbrev second : Entry
second = record { address = 48; fd = 6; start_s = 105; timeout_s = 30 }

abbrev two : Timer
two = record {
  heap =
      set (set (λ a. none) 16 (some (connection first (some 48) none))) 48
        (some (connection second none (some 16)));
  start = some 16;
  end = some 48;
  locked = false;
  closed = [];
}

two-Linked : Linked two (first ∷ second ∷ [])
two-Linked = record {
  start_is = refl;
  end_is = refl;
  entries = (refl, (refl, tt));
  distinct = ((refl, tt), (tt, tt));
}

-- The mutex stays locked behind a search that finds its connection: the next call waits for ever.
get_keeps_lock : timer_get_timeout 3 6 two ≡ did (30, record two { locked = true })
unfolding timer_get_timeout
get_keeps_lock = refl

after_get : timer_process (λ k. 120) 3 (record two { locked = true }) ≡ blocked
unfolding timer_process
after_get = refl

-- A connection that is removed and not to be closed stays in the list.
remove_without_close : timer_remove_connection 3 5 false two ≡ did two
unfolding timer_remove_connection
remove_without_close = refl

timer_process-Linked_example :
    (t' : Timer) × (timer_process (λ k. 120) 3 two ≡ did t')
    × Linked t' (survivors (λ k. 120) 0 (first ∷ second ∷ []))
    × (t'.closed ≡ closed_by (λ k. 120) 0 (first ∷ second ∷ []) [])
    × (t'.locked ≡ false)
timer_process-Linked_example =
    timer_process-Linked (λ k. 120) 3 two (first ∷ second ∷ []) two-Linked refl (omega arith)

timer_add_connection-Linked_example :
    (t' : Timer) × (timer_add_connection 80 7 60 120 two ≡ did t')
    × Linked t'
        (first ∷ second ∷ record { address = 80; fd = 7; start_s = 120; timeout_s = 60 } ∷ [])
    × (t'.closed ≡ [])
timer_add_connection-Linked_example =
    timer_add_connection-Linked 80 7 60 120 two (first ∷ second ∷ []) two-Linked (refl, (refl, tt))
      refl

timer_remove_connection-Linked_example :
    (t' : Timer) × (timer_remove_connection 3 6 true two ≡ did t')
    × Linked t' (remove_first 6 (first ∷ second ∷ []))
    × (t'.closed ≡ closed_with 6 (first ∷ second ∷ []) [])
    × (t'.locked ≡ false)
timer_remove_connection-Linked_example =
    timer_remove_connection-Linked 3 6 two (first ∷ second ∷ []) two-Linked refl (omega arith)
