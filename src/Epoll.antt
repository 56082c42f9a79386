-- ===== src/Epoll.antt =====
-- include/Polling/Epoll.h and src/Polling/Epoll.cpp: the polling component.
pub mod Reports
use chat_app.Common.{
  ℕ, zero, suc, Bool, true, false, not, ◌&&◌, ◌||◌, List, [], ◌∷◌, ◌++◌, Option, none, some, ltb,
  ◌==◌, if◌then◌else◌, length, take, drop, replicate, ℤ, pos, negsuc, minus_one, int_eq,
  is_negative, bit_and, M, Outcome, ok, throw, fault, pure, raise, ◌>>=◌, raise_if, runtime_error,
  invalid_argument,
}
use chat_app.Resources.{max_events}
use chat_app.Kernel.{Kernel, Trace, EpollEvent, call, epoll_created, watched, waited, close}

abbrev pub epollin : ℕ
epollin = 1

abbrev pub epollout : ℕ
epollout = 4

pub record EpollPair : Type 0 where
  pub fd : ℤ
  pub event : ℕ

-- `events` has `max_events` elements.
pub record EpollManager : Type 0 where
  pub epfd : ℤ
  pub events : List EpollEvent

abbrev pub no_events : List EpollEvent
no_events = replicate max_events (record { fd = pos 0; events = 0 })

-- `operator=(const EpollManager &)`; `same` says that both sides are one object.
unfoldable pub copy_assign : Bool → EpollManager → EpollManager → EpollManager
copy_assign same this other =
    if not same then record this { epfd = other.epfd; events = other.events } else this

-- `operator=(EpollManager &&)`: the target, and what is left of the source.
unfoldable pub move_assign : Bool → EpollManager → EpollManager → EpollManager × EpollManager
move_assign same this other =
    if not same
    then (
      record this { epfd = other.epfd; events = other.events },
      record other { epfd = minus_one },
    )
    else (this, this)

-- `EPFD > 0`
abbrev pub is_positive : ℤ → Bool
is_positive (pos zero) = false
is_positive (pos (suc _)) = true
is_positive (negsuc _) = false

-- `(ev.data.fd == fd) && (ev.events & event_type)`
abbrev pub reports : ℤ → ℕ → EpollEvent → Bool
reports fd event_type ev = int_eq ev.fd fd && not (bit_and ev.events event_type == 0)

abbrev pub any_reports : ℤ → ℕ → List EpollEvent → Bool
any_reports fd event_type [] = false
any_reports fd event_type (ev ∷ evs) = reports fd event_type ev || any_reports fd event_type evs

-- A range that ends behind the array is undefined behaviour.
abbrev pub any_of : ℤ → ℕ → List EpollEvent → ℕ → Outcome Bool
any_of fd event_type events n =
    if ltb (length events) n then fault else ok (any_reports fd event_type (take n events))

abbrev pub search_events : EpollManager → ℤ → ℕ → ℤ → Outcome Bool
search_events em fd event_type (negsuc _) = throw (invalid_argument "Bad event nr passed\n")
search_events em fd event_type (pos n) =
    if n == 0 then ok false else any_of fd event_type em.events n

unfoldable pub check_event : EpollManager → ℤ → ℕ → ℤ → Outcome Bool
check_event em fd event_type events_nr =
    if is_negative em.epfd
    then throw (runtime_error "EPFD not initialized\n")
    else if is_negative fd
    then throw (invalid_argument "Bad passed FD\n")
    else search_events em fd event_type events_nr

unfoldable pub clear_events : EpollManager → EpollManager
clear_events em = record em { events = no_events }

module _ ⦃os : Kernel⦄ where
  abbrev created : Option ℕ → M Trace EpollManager
  created none = raise (runtime_error "Failed to initialize epfd\n")
  created (some n) = pure (record { epfd = pos n; events = no_events })

  -- The constructor. What the array holds before the first wait is never read.
  unfoldable pub new_epoll : M Trace EpollManager
  new_epoll = do epfd ← call epoll_created os.epoll_create_result; created epfd

  -- The destructor.
  unfoldable pub destroy_epoll : EpollManager → M Trace (Unit {0})
  destroy_epoll em = close em.epfd

  unfoldable pub add_monitored_fd : EpollManager → EpollPair → M Trace (Unit {0})
  add_monitored_fd em ep =
      if is_positive em.epfd
      then (do
        added ←
            call (watched em.epfd ep.fd ep.event)
              (λ t. os.epoll_ctl_result t em.epfd ep.fd ep.event)
        raise_if (not added) (runtime_error "Failed to initialize epoll ctl\n"))
      else raise (runtime_error "EPFD not initialized\n")

  -- The reported events overwrite a prefix of the array.
  abbrev waited_for : EpollManager → Option (List EpollEvent) → M Trace (ℤ × EpollManager)
  waited_for em none = raise (runtime_error "Failed to do epoll_wait\n")
  waited_for em (some evs) =
      pure (pos (length evs), record em { events = evs ++ drop (length evs) em.events })

  -- `wait_events(timeout)`: the number of events, and the manager with its array filled.
  unfoldable pub wait_events : EpollManager → M Trace (ℤ × EpollManager)
  wait_events em =
      if is_negative em.epfd then raise (runtime_error "EPFD not initialized\n") else (do
        r ← call (waited em.epfd) (λ t. os.epoll_wait_result t em.epfd (length em.events))
        waited_for em r)
