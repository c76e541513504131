-- ===== src/ControlFallback/Routed.antt =====
-- The whole of a recovery.
use goodwe_wallbox_sems_home.Prelude.{
  ℕ, zero, suc, ◌+◌, ◌-◌, ◌≤◌, ◌<◌, ◌≡◌, ◌≢◌, refl, ap, ◌∙◌, Bool, true, false, not, ◌&&◌, ◌||◌,
  List, ◌∷◌, ltb, if◌then◌else◌, String, arith, ltb→lt,
}
use goodwe_wallbox_sems_home.ControlFallback.State.{
  Owner, Failure, superseded, unavailable, Answer, Entry, handed, World, Outcome, ok, raised, stuck,
  continue, await, verified, set_local, pass,
}
use goodwe_wallbox_sems_home.ControlFallback.Recover.{
  Cause, cause_of, Choice, is_unsent, is_eligible, check, reconciliation, finish, conclude, confirm,
  hand, reroute, reconcile, recover_control,
}
use goodwe_wallbox_sems_home.ControlFallback.Awaits.{await-then, set_local-then}
use goodwe_wallbox_sems_home.ControlFallback.Carried.{
  Carried, untouched, handing, check-then, Q, raise, yield, finish-Q,
}

module _ (env : ℕ → Answer) (key : String) (choice : Choice) (version : ℕ) (old : List Entry) where
  abbrev P : Outcome Bool × World → Type 0
  P r = Q env key choice version old r

  failing : (f : Failure) (w : World) → w.log ≡ handed ∷ old → P (raised f, w)
  failing f w e = raise env key choice version old f w (handed ∷ old) e handing

  conclude-Q :
      (epoch : ℕ) (w : World) → w.log ≡ handed ∷ old → P (conclude env key choice version epoch w)
  unfolding conclude verified pass
  conclude-Q epoch w e = go (not o.local || (not o.last_update_success || not o.available))
    where
      o : Owner
      o = w.shared.owner

      v : World
      v = pass (env w.awaits) (verified w)

      go :
          (x : Bool)
          → (let r : Outcome Bool × World =
                if x
                then (raised unavailable, w)
                else continue (await env (verified w)) (λ a v.
                  continue
                    (check epoch version v)
                    (λ u v'. finish env key choice version a.status v')) in
              P r)
      go true = failing unavailable w e
      go false =
          await-then env P (verified w)
            (λ a v.
              continue (check epoch version v) (λ u v'. finish env key choice version a.status v'))
            (λ f. failing f v e)
            (check-then env P epoch version v
              (λ u v'. finish env key choice version (env w.awaits).status v')
              (failing superseded v e)
              (λ c. finish-Q env key choice version old w.awaits epoch v e refl c))

  confirm-Q : (w : World) → w.log ≡ handed ∷ old → P (confirm env key choice version w)
  unfolding confirm pass
  confirm-Q w e =
      let epoch = w.shared.owner.routing_epoch in
      let v : World = pass (env w.awaits) w in
      check-then env P epoch version w
        (λ u v. continue (await env v) (λ a v'.
          continue (check epoch version v') (λ u' v''. conclude env key choice version epoch v'')))
        (failing superseded w e)
        (λ c.
          await-then env P w
            (λ a v'.
              continue (check epoch version v')
                (λ u' v''. conclude env key choice version epoch v''))
            (λ f. failing f v e)
            (check-then env P epoch version v (λ u' v''. conclude env key choice version epoch v'')
              (failing superseded v e) (λ c'. conclude-Q epoch v e)))

  idle : (f : Failure) (w : World) → w.log ≡ old → P (raised f, w)
  idle f w e = raise env key choice version old f w old e untouched

  hand-Q : (epoch : ℕ) (w : World) → w.log ≡ old → P (hand env key choice version epoch w)
  unfolding hand pass
  hand-Q epoch w e =
      let v : World = pass (env w.awaits) w in
      await-then env P w
        (λ a v. continue (check epoch version v) (λ u v'.
          continue (set_local env v')
            (λ a' v''. continue (await env v'') (λ a'' v'''. confirm env key choice version v'''))))
        (λ f. idle f v e)
        (check-then env P epoch version v
          (λ u v'.
            continue (set_local env v') (λ a' v''.
              continue (await env v'') (λ a'' v'''. confirm env key choice version v''')))
          (idle superseded v e)
          (λ c.
            set_local-then env P v
              (λ a' v''. continue (await env v'') (λ a'' v'''. confirm env key choice version v'''))
              (λ f u h. failing f u (h ∙ ap (◌∷◌ handed) e))
              (λ a u h.
                await-then env P u (λ a'' v'''. confirm env key choice version v''')
                  (λ f. failing f (pass (env u.awaits) u) (h ∙ ap (◌∷◌ handed) e))
                  (confirm-Q (pass (env u.awaits) u) (h ∙ ap (◌∷◌ handed) e)))))

  reroute-Q : (epoch : ℕ) (w : World) → w.log ≡ old → P (reroute env key choice version epoch w)
  unfolding reroute
  reroute-Q epoch w e =
      check-then env P epoch version w
        (λ u v.
          if ltb v.now v.shared.fallback.next_attempt
          then (ok false, v)
          else hand env key choice version epoch v)
        (idle superseded w e) (λ c. go (ltb w.now w.shared.fallback.next_attempt))
    where
      go :
          (x : Bool)
          → (let r : Outcome Bool × World =
                if x then (ok false, w) else hand env key choice version epoch w in
              P r)
      go true = yield env key choice version old false w old e untouched
      go false = hand-Q epoch w e

  reconcile-Q :
      ((n : ℕ) → 1 ≤ (env n).elapsed)
      → (epoch deadline fuel : ℕ) (w : World) → deadline - w.now < fuel
      → w.log ≡ old
      → P (reconcile env key choice version epoch deadline fuel w)
  unfolding reconcile pass
  reconcile-Q slow epoch deadline zero w l e = absurd (omega (arith, l))
  reconcile-Q slow epoch deadline (suc fuel) w l e =
      go (ltb w.now deadline) refl (λ h. reconcile-Q slow epoch deadline fuel v h e)
    where
      v : World
      v = pass (env w.awaits) w

      later : w.now < deadline → deadline - v.now < fuel
      later h = omega (arith, h, l, slow w.awaits)

      go :
          (x : Bool)
          → ltb w.now deadline ≡ x
          → (deadline - v.now < fuel → P (reconcile env key choice version epoch deadline fuel v))
          → P (elim x as (λ _. Outcome Bool × World) [
            | false ↦ reroute env key choice version epoch w
            | true ↦ continue (check epoch version w) (λ u v.
                if v.shared.owner.last_update_success && v.shared.owner.matched
                then (ok true, v)
                else continue
                    (await env v)
                    (λ a v'. reconcile env key choice version epoch deadline fuel v'))
          ])
      go false f n = reroute-Q epoch w e
      go true f n =
          check-then env P epoch version w
            (λ u v.
              if v.shared.owner.last_update_success && v.shared.owner.matched
              then (ok true, v)
              else continue (await env v)
                  (λ a v'. reconcile env key choice version epoch deadline fuel v'))
            (idle superseded w e)
            (λ c.
              seen (w.shared.owner.last_update_success && w.shared.owner.matched)
                (n (later (ltb→lt w.now deadline f))))
        where
          seen :
              (y : Bool)
              → P (reconcile env key choice version epoch deadline fuel v)
              → (let r : Outcome Bool × World =
                    if y
                    then (ok true, w)
                    else continue
                        (await env w)
                        (λ a v'. reconcile env key choice version epoch deadline fuel v') in
                  P r)
          seen true m = yield env key choice version old true w old e untouched
          seen false m =
              await-then env P w (λ a v'. reconcile env key choice version epoch deadline fuel v')
                (λ f. idle f v e) m

-- Whatever the awaits of a recovery meet, provided that each takes some time: it ends, and begins
-- at most one handover to TCP and after it at most one operation of the request. An operation
-- begins only while nothing is closed and no other transition is under way, the request is the
-- latest one and not expired, and automatic fallback is enabled, not paused and not blocked; for a
-- charging request the status that the await right before it gave must permit it: not stopped for a Stop, and for a
-- Start not charging, stopped, in state 0 with connection 1 and no fault code.
pub recover_control-Carried :
    (env : ℕ → Answer) (key : String) (choice : Choice) (version : ℕ) (causes : List Cause)
    (w : World)
    → ((n : ℕ) → 1 ≤ (env n).elapsed)
    → let r = recover_control env key choice version causes w in
      (r.0 ≢ stuck) × Carried env key choice version w.log r.1.log
unfolding recover_control
recover_control-Carried env key choice version causes w slow =
    go (not (is_eligible key choice cause w))
  where
    cause : Cause
    cause = cause_of causes

    wait : ℕ
    wait = reconciliation choice (is_unsent cause)

    epoch : ℕ
    epoch = w.shared.owner.routing_epoch

    go :
        (x : Bool)
        → (let r : Outcome Bool × World =
              if x
              then (ok false, w)
              else continue
                  (check epoch version w)
                  (λ u v. reconcile env key choice version epoch (v.now + wait) (suc wait) v) in
            Q env key choice version w.log r)
    go true = yield env key choice version w.log false w w.log refl untouched
    go false =
        check-then env (Q env key choice version w.log) epoch version w
          (λ u v. reconcile env key choice version epoch (v.now + wait) (suc wait) v)
          (raise env key choice version w.log superseded w w.log refl untouched)
          (λ c.
            reconcile-Q env key choice version w.log slow epoch (w.now + wait) (suc wait) w
              (omega arith) refl)
