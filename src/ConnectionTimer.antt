-- ===== src/ConnectionTimer.antt =====
-- lib/web/server_connection_timer.h: the doubly linked list of connections with their time-outs. A
-- pointer is an address in `heap`, which has `none` where there is no connection, also behind
-- `free`. The calls are taken one after the other; `blocked` is a call that waits for a mutex which
-- nobody will unlock, and `undefined` a use of memory that is not a connection.
pub mod Linked
pub mod Relink
pub mod Process
pub mod Add
pub mod Remove
mod Tests
use c_cpp_sandbox.Common.{
  ℕ, zero, suc, ◌+◌, Bool, true, false, Option, none, some, List, [], ◌∷◌, leb, ◌==◌, if◌then◌else◌,
}

-- `start_s` is the `tv_sec` of the source's field.
pub record Connection : Type 0 where
  pub fd : ℕ
  pub start_s : ℕ
  pub timeout_s : ℕ
  pub next : Option ℕ
  pub prev : Option ℕ

-- The file's static variables, the memory, and the descriptors given to `close`, the latest first.
pub record Timer : Type 0 where
  pub heap : ℕ → Option Connection
  pub start : Option ℕ
  pub end : Option ℕ
  pub locked : Bool
  pub closed : List ℕ

pub data Step {ℓ} (A : Type ℓ) : Type ℓ where
  did : A → Step A
  blocked : Step A
  undefined : Step A

-- The memory with `v` at `a`.
abbrev pub set : (ℕ → Option Connection) → ℕ → Option Connection → ℕ → Option Connection
set heap a v b = if b == a then v else heap b

-- `if (prev == NULL) start = next; else prev->next = next;`
unfoldable pub relink_prev : Connection → Timer → Option Timer
relink_prev c t = elim c.prev [
  | none ↦ some (record t { start = c.next })
  | some b ↦ elim (t.heap b) [
    | none ↦ none
    | some d ↦ some (record t { heap = set t.heap b (some (record d { next = c.next })) })
  ]
]

-- `if (next == NULL) end = prev; else next->prev = prev;`
unfoldable pub relink_next : Connection → Timer → Option Timer
relink_next c t = elim c.next [
  | none ↦ some (record t { end = c.prev })
  | some b ↦ elim (t.heap b) [
    | none ↦ none
    | some d ↦ some (record t { heap = set t.heap b (some (record d { prev = c.prev })) })
  ]
]

-- `free(connection)`
abbrev pub free : ℕ → Timer → Timer
free a t = record t { heap = set t.heap a none }

unfoldable pub remove_connection : ℕ → Timer → Option Timer
unfolding relink_prev relink_next
remove_connection a t = elim (t.heap a) [
  | none ↦ none
  | some c ↦ elim (relink_prev c t) [
    | none ↦ none
    | some t1 ↦ elim (relink_next c t1) [ none ↦ none | some t2 ↦ some (free a t2) ]
  ]
]

unfoldable pub close_connection : ℕ → Timer → Option Timer
unfolding remove_connection
close_connection a t = elim (t.heap a) [
  | none ↦ none
  | some c ↦ remove_connection a (record t { closed = c.fd ∷ t.closed })
]

-- `while (current != NULL)` of `timerProcess`; `clock k` is the time that its turn `k` reads.
-- `none` also when the fuel runs out.
unfoldable pub process_loop : (ℕ → ℕ) → ℕ → ℕ → Option ℕ → Timer → Option Timer
unfolding close_connection
process_loop clock zero k current t = none
process_loop clock (suc fuel) k current t = elim current [
  | none ↦ some t
  | some a ↦ elim (t.heap a) [
    | none ↦ none
    | some c ↦ elim (leb (c.start_s + c.timeout_s) (clock k)) [
      | true ↦ elim (close_connection a t) [
        | none ↦ none
        | some t' ↦ process_loop clock fuel (suc k) c.next t'
      ]
      | false ↦ process_loop clock fuel (suc k) c.next t
    ]
  ]
]

-- One round of `timerProcess`, from the lock to the unlock.
unfoldable pub timer_process : (ℕ → ℕ) → ℕ → Timer → Step Timer
unfolding process_loop
timer_process clock fuel t =
    if t.locked
    then blocked
    else elim (process_loop clock fuel 0 t.start t) [ none ↦ undefined | some t' ↦ did t' ]

unfoldable pub set_timeout_loop : ℕ → Option ℕ → ℕ → ℕ → Timer → Option Timer
set_timeout_loop zero current fd timeout_s t = none
set_timeout_loop (suc fuel) current fd timeout_s t = elim current [
  | none ↦ some t
  | some a ↦ elim (t.heap a) [
    | none ↦ none
    | some c ↦ elim (c.fd == fd) [
      | true ↦ some (record t { heap = set t.heap a (some (record c { timeout_s = timeout_s })) })
      | false ↦ set_timeout_loop fuel c.prev fd timeout_s t
    ]
  ]
]

unfoldable pub timer_set_timeout : ℕ → ℕ → ℕ → Timer → Step Timer
unfolding set_timeout_loop
timer_set_timeout fuel fd timeout_s t =
    if t.locked
    then blocked
    else elim (set_timeout_loop fuel t.end fd timeout_s t) [ none ↦ undefined | some t' ↦ did t' ]

-- The time-out, and the state: the mutex is not unlocked when the connection is found.
unfoldable pub get_timeout_loop : ℕ → Option ℕ → ℕ → Timer → Option (ℕ × Timer)
get_timeout_loop zero current fd t = none
get_timeout_loop (suc fuel) current fd t = elim current [
  | none ↦ some (0, t)
  | some a ↦ elim (t.heap a) [
    | none ↦ none
    | some c ↦ elim (c.fd == fd) [
      | true ↦ some (c.timeout_s, record t { locked = true })
      | false ↦ get_timeout_loop fuel c.prev fd t
    ]
  ]
]

unfoldable pub timer_get_timeout : ℕ → ℕ → Timer → Step (ℕ × Timer)
unfolding get_timeout_loop
timer_get_timeout fuel fd t =
    if t.locked
    then blocked
    else elim (get_timeout_loop fuel t.end fd t) [ none ↦ undefined | some answer ↦ did answer ]

-- `a` is what `malloc` gives and `now` the time; the mutex is locked only when there is a `start`.
unfoldable pub timer_add_connection : ℕ → ℕ → ℕ → ℕ → Timer → Step Timer
timer_add_connection a fd timeout_s now t = elim t.start [
  | none ↦ did (record t {
    heap =
        set t.heap a (
          some
            (record { fd = fd; start_s = now; timeout_s = timeout_s; next = none; prev = none }));
    start = some a;
    end = some a;
  })
  | some _ ↦ if t.locked then blocked else elim t.end [
    | none ↦ undefined
    | some b ↦ elim (t.heap b) [
      | none ↦ undefined
      | some d ↦ did (record t {
        heap = set (set t.heap b (some (record d { next = some a }))) a (
            some (record {
              fd = fd;
              start_s = now;
              timeout_s = timeout_s;
              next = none;
              prev = some b;
            }));
        end = some a;
      })
    ]
  ]
]

-- `current->fd == fd`: the connection is removed if it is to be closed, and left as it is if not.
unfoldable pub remove_connection_loop : ℕ → Option ℕ → ℕ → Bool → Timer → Option Timer
unfolding close_connection
remove_connection_loop zero current fd close t = none
remove_connection_loop (suc fuel) current fd close t = elim current [
  | none ↦ some t
  | some a ↦ elim (t.heap a) [
    | none ↦ none
    | some c ↦ elim (c.fd == fd) [
      | true ↦ if close then close_connection a t else some t
      | false ↦ remove_connection_loop fuel c.next fd close t
    ]
  ]
]

unfoldable pub timer_remove_connection : ℕ → ℕ → Bool → Timer → Step Timer
unfolding remove_connection_loop
timer_remove_connection fuel fd close t =
    if t.locked then blocked else elim (remove_connection_loop fuel t.start fd close t) [
      | none ↦ undefined
      | some t' ↦ did t'
    ]
