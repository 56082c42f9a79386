-- ===== src/System/Admission.antt =====
-- The round of the listener that admits a client: the identifiers before it and after it.
use chat_app.Common.{
  ℕ, ◌^◌, ◌<◌, refl, sym, Bool, true, false, ℤ, M, Outcome, ok, throw, fault, Exception, monad,
  catch, when, ◌>>=◌, subst,
}
use chat_app.Common.Keeps.{Keeps, Keeps-lift, continued, handled, keeps_rules}
use chat_app.Kernel.{Kernel}
use chat_app.Epoll.{EpollManager}
use chat_app.Queues.{StringQueue}
use chat_app.State.{App}
use chat_app.Server.{accept_client}
use chat_app.Server.Identifiers.{IsFresh, accept_client-IsFresh}
use chat_app.Listener.{listener_round, accept_new_client}
use chat_app.System.Closed.{listened_closed, call-Keeps}
use chat_app.System.Listening.{
  process_new_client-Keeps, process_queue-Keeps, quit_server-Keeps, on_accept_error-Keeps,
}
use chat_app.System.Fresh.{IsFreshAt, fresh_closed, fresh_at_closed}

-- An action that leads from `P` to `R`.
record Leads {S A : Type 0} (P R : S → Type 0) (m : M S A) : Type 0 where
  at : (s : S) → P s → R (m s).1

module _ {S A B : Type 0} {P R : S → Type 0} where
  kept_on :
      (sub : (s : S) → P s → R s) (k : A → M S B)
      → ((a : A) → Leads P R (k a))
      → (r : Outcome A × S) → P r.1
      → R (◌>>=◌ (λ _. r) k r.1).1
  unfolding monad
  kept_on sub k lk (ok a, s) p = (lk a).at s p
  kept_on sub k lk (throw e, s) p = sub s p
  kept_on sub k lk (fault, s) p = sub s p

  -- Something that keeps `P` comes first.
  Leads-after :
      (sub : (s : S) → P s → R s) (m : M S A) (k : A → M S B)
      → Keeps P m
      → ((a : A) → Leads P R (k a))
      → Leads P R (m >>= k)
  unfolding monad
  Leads-after sub m k km lk = record { at = λ s p. kept_on sub k lk (m s) (km.at s p) }

  -- Something that keeps `R` comes last.
  Leads-before :
      (m : M S A) (k : A → M S B) → Leads P R m → ((a : A) → Keeps R (k a)) → Leads P R (m >>= k)
  unfolding monad
  Leads-before m k lm kk = record { at = λ s p. continued k kk (m s) (lm.at s p) }

module _ {S A : Type 0} {P R : S → Type 0} where
  Leads-catch :
      (m : M S A) (handler : Exception → M S A)
      → Leads P R m
      → ((e : Exception) → Keeps R (handler e))
      → Leads P R (catch m handler)
  unfolding monad
  Leads-catch m handler lm kh = record { at = λ s p. handled handler kh (m s) (lm.at s p) }

module _ {Q : Type 0} ⦃queue : StringQueue Q⦄ ⦃os : Kernel⦄ (n : ℕ) (small : n < 2 ^ 31) where
  weaker : (s : App Q) → IsFreshAt n s → IsFresh s
  weaker s v = v.0

  accept_new_client-Leads :
      (evfd : ℤ) → Leads {S = App Q} (IsFreshAt n) IsFresh (accept_new_client evfd)
  unfolding accept_new_client
  accept_new_client-Leads evfd =
      Leads-catch _ _
        (Leads-before _ _ accepting λ pair. process_new_client-Keeps pair.0 pair.1 evfd)
        on_accept_error-Keeps
    where
      accepting : Leads {S = App Q} (IsFreshAt n) IsFresh (accept_client true)
      accepting = record {
        at = λ s (v, e).
            accept_client-IsFresh true s v (subst (λ (k : ℕ). k < 2 ^ 31) (sym e) small);
      }

  admitting :
      (b : Bool) (evfd : ℤ)
      → Leads {S = App Q} (IsFreshAt n) IsFresh (when b (accept_new_client evfd))
  unfolding monad
  admitting true evfd = record { at = (accept_new_client-Leads evfd).at }
  admitting false evfd = record { at = weaker }

  listener_round-Leads :
      (em : EpollManager) (ret sv_socket evfd : ℤ)
      → Leads {S = App Q} (IsFreshAt n) IsFresh (listener_round em ret sv_socket evfd)
  unfolding listener_round
  listener_round-Leads em ret sv_socket evfd = Leads-after weaker _ _ (Keeps-lift _) λ woken.
      Leads-after weaker _ _ (search (keeps_rules, process_queue-Keeps)) λ _.
        Leads-after weaker _ _ (Keeps-lift _) λ typed.
          Leads-after weaker _ _ (search (keeps_rules, call-Keeps, quit_server-Keeps))
            λ _. Leads-after weaker _ _ (Keeps-lift _) λ connecting. admitting connecting evfd

-- While the counter is below 2^31, a round of the listener, whatever it does and however it ends,
-- keeps the identifiers of the connected clients distinct and handed out by the counter.
pub listener_round-IsFresh :
    {Q : Type 0} ⦃queue : StringQueue Q⦄ ⦃os : Kernel⦄ (em : EpollManager) (ret sv_socket evfd : ℤ)
    (s : App Q)
    → s.next_id < 2 ^ 31
    → IsFresh s
    → IsFresh (listener_round em ret sv_socket evfd s).1
listener_round-IsFresh em ret sv_socket evfd s small v =
    (listener_round-Leads s.next_id small em ret sv_socket evfd).at s (v, refl)
