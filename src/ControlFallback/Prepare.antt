-- ===== src/ControlFallback/Prepare.antt =====
-- `submit`, `_prepare` and `close`.
use goodwe_wallbox_sems_home.Prelude.{
  ℕ, zero, suc, Bool, true, false, not, ◌&&◌, ◌||◌, Option, none, some, ltb, ◌==◌, if◌then◌else◌,
}
use goodwe_wallbox_sems_home.AutomaticFallback.State.{authentication_failed}
use goodwe_wallbox_sems_home.ControlFallback.State.{
  stuck, Pending, Failure, superseded, cancelled, authentication, unavailable, other, Answer, World,
  Outcome, ok, raised, M, continue, await, unexpired, is_usable, set_fallback, verified, set_local,
  pass,
}

-- What LatestIntent makes of the choice is `queued`, none for an exception; the task may fail to
-- be created.
abbrev pub queue_with : Option Pending → Bool → M Bool
queue_with none created w = (raised other, record w { preparing = false; failed = false })
queue_with (some p) created w =
    let v = record w { shared = record w.shared { pending = p }; failed = false } in
    if created
    then (ok true, record v { preparing = true })
    else (raised other, record v { preparing = false })

unfoldable pub submit : Option Pending → Bool → M Bool
submit queued created w =
    let s = w.shared in
    if s.closed
      || (s.owner.closed
          || (s.owner.local
              || (not s.owner.has_cloud
                  || (not (is_usable s.fallback)
                      || (s.pending.blackout || (s.pending.waiting || s.pending.executing))))))
    then (ok false, w)
    else queue_with queued created w

-- `_check`
unfoldable pub is_current : ℕ → World → Bool
is_current epoch w =
    let s = w.shared in
    (not s.closed
      && (not s.owner.closed
          && (not s.owner.local && (not s.owner.transitioning && epoch == s.owner.routing_epoch))))
    && (is_usable s.fallback && (s.pending.waiting && unexpired w.now s.pending.batch_deadline))

unfoldable pub check : ℕ → M (Unit {0})
unfolding is_current
check epoch w = if is_current epoch w then (ok tt, w) else (raised unavailable, w)

module _ (env : ℕ → Answer) where
  -- Whether the configuration came, and if so whether it is for this wallbox.
  abbrev pub read_as : Option Failure → Answer → World → Outcome (Option Bool) × World
  read_as none a w = (ok a.configuration, w)
  read_as (some authentication) a w = (
    raised authentication,
    set_fallback (λ f. record f { blocked = true; reason = some authentication_failed }) w,
  )
  read_as (some unavailable) a w = (ok none, w)
  read_as (some f) a w = (raised f, w)

  unfoldable pub preflight : M (Option Bool)
  unfolding pass
  preflight w = read_as (env w.awaits).failure (env w.awaits) (pass (env w.awaits) w)

  -- A try to hand over: whether `started` is set after it, and what it comes to.
  abbrev pub Try : Type 0
  Try = Bool × (Outcome (Unit {0}) × World)

  -- `handover`, under the lock of the policy.
  unfoldable pub handover : ℕ → World → Try
  unfolding is_current set_local
  handover epoch w =
      if is_current epoch w
      then (true, continue (set_local env w) (λ a v. (ok tt, v)))
      else (false, (raised unavailable, w))

  -- What `async_setting_write` does after `handover` can raise too.
  abbrev pub released : Try → Try
  unfolding await
  released (started, r) =
      (started, continue r (λ u v. continue (await env v) (λ a v'. (ok tt, v'))))

  -- `async_setting_write`: the wait for the lock raises, or `handover` is called.
  abbrev pub locked : ℕ → Option Failure → World → Try
  unfolding handover await
  locked epoch none w = released (handover epoch w)
  locked epoch (some f) w = (false, (raised f, w))

  unfoldable pub setting_write : ℕ → World → Try
  unfolding handover await pass
  setting_write epoch w = locked epoch (env w.awaits).failure (pass (env w.awaits) w)

  -- The handler of RequestSuperseded: only before the handover has begun is there another round.
  abbrev pub retried : Try → Outcome (Unit {0}) × World → Outcome (Unit {0}) × World
  retried (started, (raised superseded, w)) again =
      if started || w.shared.policy_closed then (raised superseded, w) else again
  retried (started, r) again = r

  -- The timeout around the loop ends it after some number of rounds.
  unfoldable pub hand : ℕ → ℕ → M (Unit {0})
  unfolding check setting_write await
  hand epoch zero w = (raised unavailable, w)
  hand epoch (suc rounds) w = continue (check epoch w) (λ u v.
      let t = setting_write epoch v in
      let again = continue (await env t.1.1) (λ a v'. hand epoch rounds v') in retried t again)

  -- After the refresh.
  abbrev pub confirmed : M (Unit {0})
  unfolding verified
  confirmed w =
      let o = w.shared.owner in
      if o.closed || (not o.local || (not o.last_update_success || not o.available))
      then (raised unavailable, w)
      else (ok tt, verified w)

  abbrev pub route : ℕ → ℕ → Option Bool → M (Unit {0})
  unfolding hand await verified
  route epoch rounds (some true) w = (ok tt, w)
  route epoch rounds (some false) w = (raised other, w)
  route epoch rounds none w =
      if ltb w.now w.shared.fallback.next_attempt
      then (raised unavailable, w)
      else continue (hand epoch rounds w) (λ u v. continue (await env v) (λ a v'. confirmed v'))

  unfoldable pub attempt : ℕ → ℕ → M (Unit {0})
  unfolding preflight check hand await verified
  attempt epoch rounds w =
      continue (preflight w) (λ c v. continue (check epoch v) (λ u v'. route epoch rounds c v'))

  -- The `finally`.
  abbrev pub cleared : Outcome (Unit {0}) × World → Outcome (Unit {0}) × World
  cleared (o, w) = (o, record w { preparing = false })

  -- `pending_intent._fail`, an await.
  abbrev pub ended : Outcome (Unit {0}) × World → Outcome (Unit {0}) × World
  unfolding await
  ended (ok u, w) = (ok u, w)
  ended (stuck, w) = (stuck, w)
  ended (raised cancelled, w) = (raised cancelled, w)
  ended (raised f, w) = continue (await env (record w { failed = true })) (λ a v. (ok tt, v))

  unfoldable pub prepare : ℕ → ℕ → M (Unit {0})
  unfolding attempt await
  prepare epoch rounds w = cleared (ended (attempt epoch rounds w))

  -- `close`: the pending intent's own closing, and the end of the cancelled task, if there is one.
  abbrev pub stopped : Bool → M (Unit {0})
  unfolding await
  stopped true w = continue (await env w) (λ a v. (ok tt, record v { preparing = false }))
  stopped false w = (ok tt, record w { preparing = false })

  unfoldable pub close : Bool → M (Unit {0})
  unfolding await
  close has_task w =
      continue (await env (record w { shared = record w.shared { closed = true } }))
        (λ a v. stopped has_task v)
