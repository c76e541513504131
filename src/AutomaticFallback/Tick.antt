-- ===== src/AutomaticFallback/Tick.antt =====
-- `tick` and `_handover` of AutomaticFallback.
use goodwe_wallbox_sems_home.Prelude.{
  ℕ, ◌+◌, ◌*◌, Bool, true, false, not, ◌&&◌, ◌||◌, Option, none, some, ◌∷◌, min, ltb, leb, ◌==◌,
  is_some, if◌then◌else◌,
}
use goodwe_wallbox_sems_home.AutomaticFallback.State.{
  Reason, trial_timeout, retry_delay, failure_delay, local_observation, Owner, timed_out,
  authentication, unavailable, Answer, Handover, World, raised, handover_superseded,
  charging_changed, Outcome, ok, fail, M, continue, set, await,
}

abbrev pub is_idle : Option Bool → Bool
is_idle (some false) = true
is_idle _ = false

-- Nothing speaks against a return to the cloud: the state is known, and no session runs or starts.
unfoldable pub is_safe : Owner → Bool
is_safe o =
    o.last_update_success && (o.transport_available && (is_idle o.charging && not o.starting))

abbrev pub swallow_timeout : Outcome Bool × World → Outcome Bool × World
swallow_timeout (fail (raised timed_out), w) = (ok false, w)
swallow_timeout r = r

abbrev pub before : ℕ → Option ℕ → Bool
before now none = false
before now (some deadline) = ltb now deadline

abbrev pub since : ℕ → Option ℕ → ℕ → Bool
since now none delay = false
since now (some start) delay = leb (start + delay) now

module _ (env : ℕ → Answer) where
  -- A refresh for as long as a trial lasts, at most 10 s.
  unfoldable pub trial_refresh : M Bool
  trial_refresh w =
      if before w.now w.fallback.trial_deadline
      then swallow_timeout (await env w)
      else (ok false, w)

  -- `owner._set_local(local)`, and the intent that follows a local one.
  unfoldable pub set_local : Bool → Bool → M Bool
  set_local local recovery w =
      let h : Handover = record {
        to_local = local;
        recovery = recovery;
        fallback = w.fallback;
        owner = w.owner;
        now = w.now;
      } in
      continue (await env (record w { handovers = h ∷ w.handovers })) λ done.
        if local then (λ v. continue (await env v) λ saved u. (ok true, u)) else (λ v. (ok true, v))

  -- `write` of `_handover`, under the lock.
  unfoldable pub write : Bool → Bool → M Bool
  write local recovery w =
      if w.fallback.paused || w.fallback.closed
      then (fail handover_superseded, w)
      else if local && (not (is_some w.fallback.trial_deadline) && ltb w.fallback.failures 3)
      then (ok false, set (λ f. record f { next_attempt = 0 }) w)
      else if not local && (not recovery && not (is_safe w.owner))
      then (fail charging_changed, set (λ f. record f { trial_deadline = none }) w)
      else set_local local recovery w

  -- `_handover`; the lock of `async_setting_write` is an await.
  unfoldable pub handover : Bool → Bool → M Bool
  handover local recovery w =
      let w₁ = set (λ f. record f { next_attempt = w.now + retry_delay }) w in
      continue (continue (await env w₁) λ locked. write local recovery) λ changed v.
        continue
          (if not local && is_some v.fallback.trial_deadline then trial_refresh v else await env v)
          λ refreshed u. (ok changed, u)

  -- A failed local connection is left at once.
  unfoldable pub recover : ℕ → M (Unit {0})
  recover now w =
      if ltb now w.fallback.recovery_retry
      then (ok tt, w)
      else continue
          (handover false true (
            set
              (λ f. record f {
                recovery_retry = now + retry_delay;
                reason = some Reason.local_unavailable;
                trial_deadline = some (now + trial_timeout);
              })
              w))
          λ changed v.
            (ok tt, set (λ f. record (local_observation true v.now f) { next_attempt = 0 }) v)

  -- A trial of the cloud, once its probe has come back.
  unfoldable pub try_cloud : ℕ → Bool → M (Unit {0})
  try_cloud epoch reachable w =
      if w.fallback.paused
        || (w.fallback.closed
            || (w.owner.closed
                || (not w.owner.local
                    || (w.owner.transitioning || not (epoch == w.owner.routing_epoch)))))
      then (ok tt, w)
      else if not reachable
      then (
        ok tt,
        set
            (λ f. record f {
              reason = some Reason.cloud_preflight_unavailable;
              next_attempt = w.now + retry_delay;
            })
            w,
      )
      else continue
          (handover false false (
            set
              (λ f. record f {
                reason = some Reason.cloud_return_trial;
                trial_deadline = some (w.now + trial_timeout);
              })
              w))
          λ changed v. (ok tt, set (λ f. record f { next_attempt = 0 }) v)

  -- The exceptions of the probe.
  abbrev pub probed : ℕ → Outcome Bool × World → Outcome (Unit {0}) × World
  probed epoch (ok reachable, w) = try_cloud epoch reachable w
  probed epoch (fail (raised authentication), w) =
      (ok tt, set (λ f. record f { blocked = true; reason = some Reason.authentication_failed }) w)
  probed epoch (fail (raised unavailable), w) = try_cloud epoch false w
  probed epoch (fail (raised timed_out), w) = try_cloud epoch false w  -- TimeoutError is an OSError
  probed epoch (fail f, w) = (fail f, w)

  -- The return to the local connection after a failed trial or an outage.
  abbrev pub returned : Outcome Bool × World → Outcome (Unit {0}) × World
  returned (fail f, w) = (fail f, w)
  returned (ok false, w) = (ok tt, w)
  returned (ok true, w) = (
    ok tt,
    set (λ f. record f { trial_deadline = none; next_attempt = w.now + f.return_delay }) w,
  )

  unfoldable pub return_local : ℕ → M (Unit {0})
  return_local now w =
      let f = w.fallback in
      let trial_failed = is_some f.trial_deadline && not (before now f.trial_deadline) in
      let outage =
        not (is_some f.trial_deadline)
        && (leb 3 f.failures && since now f.failed_since failure_delay) in
      if not trial_failed && not outage
      then (ok tt, w)
      else returned (
          handover true false (
            if trial_failed
            then set
                (λ f. record f {
                  return_delay = min (f.return_delay * 2) 7200000;
                  reason = some Reason.cloud_return_failed;
                })
                w
            else w))

  -- The decision of a tick, once a trial was refreshed.
  unfoldable pub decide : M (Unit {0})
  decide w =
      let f = w.fallback in
      let local_failed =
        w.owner.local && (leb 3 f.local_failures && since w.now f.local_failed_since 15000) in
      if ltb w.now f.next_attempt && not local_failed
      then (ok tt, w)
      else if local_failed
      then recover w.now w
      else if w.owner.local
      then (if not (is_safe w.owner)
          then (ok tt, w)
          else probed w.owner.routing_epoch (await env w))
      else return_local w.now w

  unfoldable pub tick : M (Unit {0})
  tick w =
      let f = w.fallback in
      if not f.enabled
        || (f.paused || (f.closed || (f.blocked || (w.owner.closed || w.owner.transitioning))))
      then (ok tt, w)
      else if not w.owner.local && is_some f.trial_deadline
      then continue (trial_refresh w)
          (λ refreshed v. if not (is_some v.fallback.trial_deadline) then (ok tt, v) else decide v)
      else decide w

  -- A round of `_run` after its sleep: no exception stops the supervision.
  abbrev pub survived : Outcome (Unit {0}) × World → World
  survived (ok u, w) = w
  survived (fail e, w) =
      set
        (λ f. record f { reason = some Reason.handover_failed; next_attempt = w.now + retry_delay })
        w

  unfoldable pub supervised : World → World
  supervised w = survived (tick w)
