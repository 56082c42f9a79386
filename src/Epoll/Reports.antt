-- ===== src/Epoll/Reports.antt =====
-- What `check_event` finds out, and that the events of a wait are safe to look through.
use chat_app.Common.{
  ℕ, zero, suc, ◌≤◌, ◌<◌, ◌≡◌, ◌≢◌, ◌↔◌, refl, Bool, true, false, List, [], ◌∷◌, some, none, arith,
  Bool-cases, inl, inr, length, take, drop, get_elem?, length-append, length-drop, Option, ℤ, pos,
  int_eq_iff, is_negative, bit_and, Outcome, ok, throw, fault, monad,
}
use chat_app.Kernel.{Kernel, Trace, EpollEvent, waited}
use chat_app.Epoll.{EpollManager, reports, any_reports, check_event, wait_events, waited_for}

-- Among the first `n` events one is for `fd` and has a bit of the mask.
abbrev pub Reported : EpollManager → ℤ → ℕ → ℕ → Type 0
Reported em fd mask n =
    (i : ℕ) × (ev : EpollEvent) × (i < n)
    × (get_elem? em.events i ≡ some ev)
    × (ev.fd ≡ fd)
    × (bit_and ev.events mask ≢ 0)

reports_iff :
    (fd : ℤ) (mask : ℕ) (ev : EpollEvent)
    → (reports fd mask ev ≡ true) ↔ ((ev.fd ≡ fd) × (bit_and ev.events mask ≢ 0))
reports_iff fd mask ev = ground (arith, int_eq_iff ev.fd fd)

abbrev Among : ℤ → ℕ → List EpollEvent → ℕ → Type 0
Among fd mask evs n =
    (i : ℕ) × (ev : EpollEvent) × (i < n)
    × (get_elem? evs i ≡ some ev)
    × (ev.fd ≡ fd)
    × (bit_and ev.events mask ≢ 0)

any_reports-Among :
    (fd : ℤ) (mask : ℕ) (evs : List EpollEvent) (n : ℕ)
    → any_reports fd mask (take n evs) ≡ true
    → Among fd mask evs n
any_reports-Among fd mask evs zero h = cc
any_reports-Among fd mask [] (suc n) h = cc
any_reports-Among fd mask (ev ∷ evs) (suc n) h = elim (Bool-cases (reports fd mask ev)) [
  | inl e ↦ let (a, b) = (reports_iff fd mask ev).0 e in (0, ev, omega arith, refl, a, b)
  | inr e ↦
      let (i, v, lt, at, a, b) = any_reports-Among fd mask evs n (ground arith) in
      (suc i, v, omega arith, at, a, b)
]

Among-any_reports :
    (fd : ℤ) (mask : ℕ) (evs : List EpollEvent) (n : ℕ)
    → Among fd mask evs n
    → any_reports fd mask (take n evs) ≡ true
Among-any_reports fd mask evs zero (i, v, lt, at, a, b) = absurd (omega arith)
Among-any_reports fd mask [] (suc n) (i, v, lt, at, a, b) = cc
Among-any_reports fd mask (ev ∷ evs) (suc n) (zero, v, lt, at, a, b) =
    ground (arith, reports_iff fd mask ev)
Among-any_reports fd mask (ev ∷ evs) (suc n) (suc i, v, lt, at, a, b) =
    ground (arith, Among-any_reports fd mask evs n (i, v, omega arith, at, a, b))

-- For an open manager, a descriptor that is not negative, and no more events than the array holds,
-- `check_event` neither throws nor reads out of range, and returns true exactly if one of the first
-- `n` events is for that descriptor and has a bit of the mask.
pub check_event-Reported :
    (em : EpollManager) (fd : ℤ) (mask n : ℕ)
    → is_negative em.epfd ≡ false
    → is_negative fd ≡ false
    → n ≤ length em.events
    → (b : Bool) × (check_event em fd mask (pos n) ≡ ok b) × ((b ≡ true) ↔ Reported em fd mask n)
unfolding check_event
check_event-Reported em fd mask n open_em valid fits = (
  any_reports fd mask (take n em.events),
  ground (arith, none_among n),
  (any_reports-Among fd mask em.events n, Among-any_reports fd mask em.events n),
)
  where
    none_among : (k : ℕ) → k ≡ 0 → any_reports fd mask (take k em.events) ≡ false
    none_among k e = rw e

abbrev pub WaitFits : Outcome (ℤ × EpollManager) → EpollManager → Type 0
WaitFits (ok (ret, em')) em =
    (n : ℕ) × (ret ≡ pos n)
    × (n ≤ length em'.events)
    × (length em'.events ≡ length em.events)
    × (em'.epfd ≡ em.epfd)
WaitFits (throw e) em = Unit
WaitFits fault em = ⊥

-- A wait throws, or it returns a number of events that the array holds, and keeps the descriptor
-- and the size of the array. So what follows a wait may look at all events that it reported.
pub wait_events-fits :
    ⦃os : Kernel⦄ → (em : EpollManager) (t : Trace) → WaitFits (wait_events em t).0 em
unfolding wait_events monad
wait_events-fits ⦃os⦄ em t = elim (Bool-cases (is_negative em.epfd)) [
  | inl e ↦ rw e tt
  | inr e ↦ rw e (filled (os.epoll_wait_result t em.epfd (length em.events)) refl)
]
  where
    filled :
        (r : Option (List EpollEvent))
        → os.epoll_wait_result t em.epfd (length em.events) ≡ r
        → WaitFits (waited_for em r (waited em.epfd ∷ t)).0 em
    filled none e = tt
    filled (some evs) e =
        let fits = os.epoll_wait_fits t em.epfd (length em.events) e in
        (
          length evs,
          refl,
          omega (arith, length-append evs (drop (length evs) em.events)),
          omega (
            arith,
            fits,
            length-append evs (drop (length evs) em.events),
            length-drop (length evs) em.events,
          ),
          refl,
        )
