-- ===== src/AutomaticFallback/Handover.antt =====
-- When AutomaticFallback hands the connection over.
use goodwe_wallbox_sems_home.Prelude.{
  none, min, ◌*◌, ℕ, ◌+◌, ◌≡◌, inl, refl, Bool, true, false, not, ◌&&◌, ◌||◌, some, List, ltb, leb,
  ◌==◌, is_some, if◌then◌else◌, arith, ◌≤◌, Option,
}
use goodwe_wallbox_sems_home.AutomaticFallback.State.{
  trial_timeout, failure_delay, local_observation, retry_delay, Reason, Fallback, timed_out,
  authentication, unavailable, Answer, Handover, World, raised, Outcome, ok, fail, M, continue, set,
  await,
}
use goodwe_wallbox_sems_home.AutomaticFallback.Tick.{
  since, survived, is_safe, before, swallow_timeout, trial_refresh, handover, recover, try_cloud,
  probed, returned, return_local, decide, tick, supervised,
}
use goodwe_wallbox_sems_home.AutomaticFallback.Permitted.{
  AtMostOne, Unchanged, continue-AtMostOne, await_same, AtMostOne-if, handover-AtMostOne, TrialOver,
}

module _ (env : ℕ → Answer) (s : List Handover) where
  recover-AtMostOne : (now : ℕ) (w : World) → Unchanged s w → AtMostOne s (recover env now w).1
  unfolding recover
  recover-AtMostOne now w h =
      AtMostOne-if env s (ltb now w.fallback.recovery_retry) (ok tt, w) recovered (λ early. inl h)
        λ due.
          continue-AtMostOne env s (AtMostOne s) (handover env false true w₁) ended
            (handover-AtMostOne env s false true w₁ h (λ l. absurd (ground (arith, l)))) (λ v k. k)
            (λ changed v k. k)
    where
      w₁ : World
      w₁ =
          set
            (λ f. record f {
              recovery_retry = now + retry_delay;
              reason = some Reason.local_unavailable;
              trial_deadline = some (now + trial_timeout);
            })
            w

      ended : Bool → M (Unit {0})
      ended changed v =
          (ok tt, set (λ f. record (local_observation true v.now f) { next_attempt = 0 }) v)

      recovered : Outcome (Unit {0}) × World
      recovered = continue (handover env false true w₁) ended

  try_cloud-AtMostOne :
      (epoch : ℕ) (reachable : Bool) (w : World)
      → Unchanged s w
      → AtMostOne s (try_cloud env epoch reachable w).1
  unfolding try_cloud
  try_cloud-AtMostOne epoch reachable w h =
      AtMostOne-if env s
        (w.fallback.paused
          || (w.fallback.closed
              || (w.owner.closed
                  || (not w.owner.local
                      || (w.owner.transitioning || not (epoch == w.owner.routing_epoch))))))
        (ok tt, w) (if not reachable then (ok tt, w₁) else tried) (λ old. inl h)
        λ current.
          AtMostOne-if env s (not reachable) (ok tt, w₁) tried (λ bad. inl h)
            λ good.
              continue-AtMostOne env s (AtMostOne s) (handover env false false w₂) ended
                (handover-AtMostOne env s false false w₂ h (λ l. absurd (ground (arith, l))))
                (λ v k. k) (λ changed v k. k)
    where
      w₁ : World
      w₁ =
          set
            (λ f. record f {
              reason = some Reason.cloud_preflight_unavailable;
              next_attempt = w.now + retry_delay;
            })
            w

      w₂ : World
      w₂ =
          set
            (λ f. record f {
              reason = some Reason.cloud_return_trial;
              trial_deadline = some (w.now + trial_timeout);
            })
            w

      ended : Bool → M (Unit {0})
      ended changed v = (ok tt, set (λ f. record f { next_attempt = 0 }) v)

      tried : Outcome (Unit {0}) × World
      tried = continue (handover env false false w₂) ended

  probed-AtMostOne :
      (epoch : ℕ) (r : Outcome Bool × World) → Unchanged s r.1 → AtMostOne s (probed env epoch r).1
  probed-AtMostOne epoch (ok reachable, w) h = try_cloud-AtMostOne epoch reachable w h
  probed-AtMostOne epoch (fail (raised authentication), w) h = inl h
  probed-AtMostOne epoch (fail (raised unavailable), w) h = try_cloud-AtMostOne epoch false w h
  probed-AtMostOne epoch (fail (raised timed_out), w) h = try_cloud-AtMostOne epoch false w h
  probed-AtMostOne epoch (fail (raised r), w) h = inl h
  probed-AtMostOne epoch (fail f, w) h = inl h

  returned-AtMostOne : (r : Outcome Bool × World) → AtMostOne s r.1 → AtMostOne s (returned env r).1
  returned-AtMostOne (fail f, w) h = h
  returned-AtMostOne (ok true, w) h = h
  returned-AtMostOne (ok false, w) h = h

  return_local-AtMostOne :
      (now : ℕ) (w : World) → now ≤ w.now → Unchanged s w → AtMostOne s (return_local env now w).1
  unfolding return_local
  return_local-AtMostOne now w past h =
      AtMostOne-if env s (not trial_failed && not outage) (ok tt, w)
        (returned env (handover env true false w₁)) (λ fine. inl h)
        λ bad. returned-AtMostOne (handover env true false w₁) (
          handover-AtMostOne env s true false w₁ (same trial_failed)
            (λ l. over trial_failed (finished f.trial_deadline refl bad)))
    where
      f : Fallback
      f = w.fallback

      trial_failed : Bool
      trial_failed = is_some f.trial_deadline && not (before now f.trial_deadline)

      outage : Bool
      outage =
          not (is_some f.trial_deadline)
          && (leb 3 f.failures && since now f.failed_since failure_delay)

      backed_off : World
      backed_off =
          set
            (λ f. record f {
              return_delay = min (f.return_delay * 2) 7200000;
              reason = some Reason.cloud_return_failed;
            })
            w

      w₁ : World
      w₁ = if trial_failed then backed_off else w

      finished :
          (o : Option ℕ)
          → f.trial_deadline ≡ o
          → (not (is_some o && not (before now o))
              && not
                  (not (is_some o) && (leb 3 f.failures && since now f.failed_since failure_delay)))
            ≡ false
          → TrialOver w
      finished none e g t j = absurd (ground (arith, e, j))
      finished (some d) e g t j = ground (arith, e, g, j, past)

      over : (b : Bool) → TrialOver w → TrialOver (if b then backed_off else w)
      over true h = h
      over false h = h

      same : (b : Bool) → Unchanged s (if b then backed_off else w)
      same true = h
      same false = h

  decide-AtMostOne : (w : World) → Unchanged s w → AtMostOne s (decide env w).1
  unfolding decide
  decide-AtMostOne w h =
      AtMostOne-if env s (ltb w.now f.next_attempt && not local_failed) (ok tt, w) _
        (λ early. inl h)
        λ due.
          AtMostOne-if env s local_failed (recover env w.now w) _ (λ b. recover-AtMostOne w.now w h)
            λ b.
              AtMostOne-if env s w.owner.local _ (return_local env w.now w)
                (λ l.
                  AtMostOne-if env s (not (is_safe w.owner)) (ok tt, w)
                    (probed env w.owner.routing_epoch (await env w)) (λ bad. inl h)
                    λ good.
                      probed-AtMostOne w.owner.routing_epoch (await env w)
                        (await_same env s (λ t. t ≡ s) w h))
                (λ l. return_local-AtMostOne w.now w (omega arith) h)
    where
      f : Fallback
      f = w.fallback

      local_failed : Bool
      local_failed =
          w.owner.local && (leb 3 f.local_failures && since w.now f.local_failed_since 15000)

  trial_refresh-Unchanged : (w : World) → Unchanged s w → Unchanged s (trial_refresh env w).1
  unfolding trial_refresh
  trial_refresh-Unchanged w h = go (before w.now w.fallback.trial_deadline)
    where
      kept : (r : Outcome Bool × World) → Unchanged s r.1 → Unchanged s (swallow_timeout r).1
      kept (fail (raised timed_out), v) k = k
      kept (fail (raised r), v) k = k
      kept (fail e, v) k = k
      kept (ok b, v) k = k

      go : (b : Bool) → Unchanged s (if b then swallow_timeout (await env w) else (ok false, w)).1
      go true = kept (await env w) (await_same env s (λ t. t ≡ s) w h)
      go false = h

  tick-AtMostOne : (w : World) → Unchanged s w → AtMostOne s (tick env w).1
  unfolding tick
  tick-AtMostOne w h =
      AtMostOne-if env s
        (not w.fallback.enabled
          || (w.fallback.paused
              || (w.fallback.closed
                  || (w.fallback.blocked || (w.owner.closed || w.owner.transitioning)))))
        (ok tt, w) _ (λ off. inl h)
        λ on.
          AtMostOne-if env s (not w.owner.local && is_some w.fallback.trial_deadline) _
            (decide env w)
            (λ trial.
              continue-AtMostOne env s (Unchanged s) (trial_refresh env w) _
                (trial_refresh-Unchanged w h) (λ v k. inl k)
                λ refreshed v k.
                  AtMostOne-if env s (not (is_some v.fallback.trial_deadline)) (ok tt, v)
                    (decide env v) (λ over. inl k) (λ open_trial. decide-AtMostOne v k))
            (λ none_open. decide-AtMostOne w h)

-- Whatever its awaits come to, and whatever the rest does meanwhile, a tick makes at most one
-- handover. It makes it when nobody has paused or closed the supervision, also not while it waited
-- for the lock; to the local connection after a trial whose time is over, or with three cloud
-- failures counted; and to the cloud, unless to recover, when at that moment a working connection
-- shows the wallbox idle and no session starts.
pub supervised-AtMostOne : (env : ℕ → Answer) (w : World) → AtMostOne w.handovers (supervised env w)
unfolding supervised
supervised-AtMostOne env w = survive (tick env w) (tick-AtMostOne env w.handovers w refl)
  where
    survive :
        (r : Outcome (Unit {0}) × World)
        → AtMostOne w.handovers r.1
        → AtMostOne w.handovers (survived env r)
    survive (ok u, v) h = h
    survive (fail e, v) h = h
