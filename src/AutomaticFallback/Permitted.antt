-- ===== src/AutomaticFallback/Permitted.antt =====
-- What a handover of AutomaticFallback has to satisfy, and that `_handover` does.
use goodwe_wallbox_sems_home.Prelude.{
  none, some, [], ℕ, ◌+◌, ◌≡◌, ◌⊎◌, inl, inr, refl, ap, Bool, true, false, not, ◌&&◌, ◌||◌, none,
  List, ◌∷◌, ltb, is_some, if◌then◌else◌, arith, some, ◌≤◌, Option, sym, ◌∙◌,
}
use goodwe_wallbox_sems_home.AutomaticFallback.State.{
  observes, observes_local, pauses, closes, blocks, control_handover, control_verified, retry_delay,
  timed_out, Answer, Handover, World, raised, handover_superseded, charging_changed, Outcome, ok,
  fail, M, continue, set, await, pass, apply, apply_all, observation, Event, local_observation,
  Fallback, pause, close, observes,
}
use goodwe_wallbox_sems_home.AutomaticFallback.Tick.{
  is_safe, before, swallow_timeout, trial_refresh, set_local, write, handover,
}

-- A handover as it should be, in the state in which it is made: nobody has paused or closed the
-- supervision; it goes to the local connection after a trial whose time is over, or with three
-- cloud failures counted; and it goes to the cloud when the wallbox is seen idle by a working
-- connection, or to recover.
pub record IsPermitted (h : Handover) : Type 0 where
  pub not_paused : h.fallback.paused ≡ false
  pub not_closed : h.fallback.closed ≡ false
  pub cloud_failed :
      h.to_local ≡ true
      → ((t : ℕ) × (h.fallback.trial_deadline ≡ some t) × (t ≤ h.now)) ⊎ (3 ≤ h.fallback.failures)
  pub wallbox_idle : h.to_local ≡ false → h.recovery ≡ false → is_safe h.owner ≡ true

-- If a trial is on, its time is over.
abbrev pub TrialOver : World → Type 0
TrialOver w = (t : ℕ) → w.fallback.trial_deadline ≡ some t → t ≤ w.now

-- The other tasks start no trial.
apply-trial :
    (e : Event) (f : Fallback)
    → ((apply e f).trial_deadline ≡ f.trial_deadline) ⊎ ((apply e f).trial_deadline ≡ none)
unfolding apply observation local_observation pause close
apply-trial (observes true reason blocked now) f = inr refl
apply-trial (observes false reason blocked now) f = inl refl
apply-trial (observes_local true now) f = inl refl
apply-trial (observes_local false now) f = inl refl
apply-trial pauses f = inl refl
apply-trial closes f = inl refl
apply-trial blocks f = inl refl
apply-trial (control_handover now) f = inl refl
apply-trial (control_verified now) f = inr refl

apply_all-trial :
    (es : List Event) (f : Fallback) (t : ℕ)
    → (apply_all es f).trial_deadline ≡ some t
    → f.trial_deadline ≡ some t
unfolding apply_all
apply_all-trial [] f t h = h
apply_all-trial (e ∷ es) f t h =
    let k : (apply e f).trial_deadline ≡ some t = apply_all-trial es (apply e f) t h in
    elim (apply-trial e f) [ inl same ↦ sym same ∙ k | inr gone ↦ absurd (ground (arith, gone, k)) ]

pass-TrialOver : (a : Answer) (w : World) → TrialOver w → TrialOver (pass a w)
unfolding pass
pass-TrialOver a w h t e =
    let k : t ≤ w.now = h t (apply_all-trial a.meanwhile w.fallback t e) in omega (arith, k)

abbrev pub AtMostOne : List Handover → World → Type 0
AtMostOne before w =
    (w.handovers ≡ before) ⊎ ((h : Handover) × (w.handovers ≡ h ∷ before) × IsPermitted h)

abbrev pub Unchanged : List Handover → World → Type 0
Unchanged before w = w.handovers ≡ before

module _ (env : ℕ → Answer) (s : List Handover) where
  pub continue-AtMostOne :
      {A B : Type 0} (P : World → Type 0) (r : Outcome A × World) (k : A → M B)
      → P r.1
      → ((w : World) → P w → AtMostOne s w)
      → ((a : A) (w : World) → P w → AtMostOne s (k a w).1)
      → AtMostOne s (continue r k).1
  continue-AtMostOne P (ok a, w) k h f g = g a w h
  continue-AtMostOne P (fail e, w) k h f g = f w h

  pub await_same :
      (P : List Handover → Type 0) (w : World) → P w.handovers → P (await env w).1.handovers
  unfolding await pass
  await_same P w h = h

  pub AtMostOne-if :
      {A : Type 0} (b : Bool) (x y : A × World)
      → (b ≡ true → AtMostOne s x.1)
      → (b ≡ false → AtMostOne s y.1)
      → AtMostOne s (if b then x else y).1
  AtMostOne-if true x y h k = h refl
  AtMostOne-if false x y h k = k refl

  pub await-AtMostOne : (w : World) → AtMostOne s w → AtMostOne s (await env w).1
  unfolding await pass
  await-AtMostOne w h = h

  swallow : (r : Outcome Bool × World) → AtMostOne s r.1 → AtMostOne s (swallow_timeout r).1
  swallow (fail (raised timed_out), w) h = h
  swallow (fail (raised r), w) h = h
  swallow (fail f, w) h = h
  swallow (ok b, w) h = h

  pub trial_refresh-AtMostOne : (w : World) → AtMostOne s w → AtMostOne s (trial_refresh env w).1
  unfolding trial_refresh
  trial_refresh-AtMostOne w h =
      AtMostOne-if (before w.now w.fallback.trial_deadline) (swallow_timeout (await env w))
        (ok false, w) (λ early. swallow (await env w) (await-AtMostOne w h)) (λ late. h)

  set_local-AtMostOne :
      (local recovery : Bool) (w : World)
      → Unchanged s w
      → IsPermitted (record {
        to_local = local;
        recovery = recovery;
        fallback = w.fallback;
        owner = w.owner;
        now = w.now;
      })
      → AtMostOne s (set_local env local recovery w).1
  unfolding set_local
  set_local-AtMostOne local recovery w h p =
      continue-AtMostOne (AtMostOne s) (await env w₁) (after local) (await-AtMostOne w₁ made)
        (λ v k. k) (λ done v k. finished local v k)
    where
      the_call : Handover
      the_call = record {
        to_local = local;
        recovery = recovery;
        fallback = w.fallback;
        owner = w.owner;
        now = w.now;
      }

      w₁ : World
      w₁ = record w { handovers = the_call ∷ w.handovers }

      made : AtMostOne s w₁
      made = inr (the_call, ap (◌∷◌ the_call) h, p)

      after : Bool → Bool → M Bool
      after local done =
          if local
          then (λ v. continue (await env v) λ saved u. (ok true, u))
          else (λ v. (ok true, v))

      finished : (local : Bool) (v : World) → AtMostOne s v → AtMostOne s (after local true v).1
      finished true v k =
          continue-AtMostOne (AtMostOne s) (await env v) _ (await-AtMostOne v k) (λ u j. j)
            (λ saved u j. j)
      finished false v k = k

  failed_cloud :
      (o : Option ℕ) (failures now : ℕ)
      → ((t : ℕ) → o ≡ some t → t ≤ now)
      → (not (is_some o) && ltb failures 3) ≡ false
      → ((t : ℕ) × (o ≡ some t) × (t ≤ now)) ⊎ (3 ≤ failures)
  failed_cloud none failures now h e = inr (ground (arith, e))
  failed_cloud (some t) failures now h e = inl (t, refl, h t refl)

  write-AtMostOne :
      (local recovery : Bool) (w : World)
      → Unchanged s w
      → (local ≡ true → TrialOver w)
      → AtMostOne s (write env local recovery w).1
  unfolding write
  write-AtMostOne local recovery w h over =
      AtMostOne-if (w.fallback.paused || w.fallback.closed) (fail handover_superseded, w) _
        (λ bad. inl h)
        λ good.
          AtMostOne-if
            (local && (not (is_some w.fallback.trial_deadline) && ltb w.fallback.failures 3))
            (ok false, set (λ f. record f { next_attempt = 0 }) w) _ (λ bad. inl h)
            λ failed.
              AtMostOne-if (not local && (not recovery && not (is_safe w.owner)))
                (fail charging_changed, set (λ f. record f { trial_deadline = none }) w)
                (set_local env local recovery w) (λ bad. inl h)
                λ safe. set_local-AtMostOne local recovery w h (record {
                  not_paused = ground (arith, good);
                  not_closed = ground (arith, good);
                  cloud_failed = λ l.
                      failed_cloud w.fallback.trial_deadline w.fallback.failures w.now (over l)
                        (ground (arith, failed, l));
                  wallbox_idle = λ l r. ground (arith, safe, l, r);
                })

  pub handover-AtMostOne :
      (local recovery : Bool) (w : World)
      → Unchanged s w
      → (local ≡ true → TrialOver w)
      → AtMostOne s (handover env local recovery w).1
  unfolding handover
  handover-AtMostOne local recovery w h over =
      continue-AtMostOne (AtMostOne s) (continue (await env w₁) λ locked. write env local recovery)
        _
        (continue-AtMostOne Ready (await env w₁) (λ locked. write env local recovery) ready
          (λ v k. inl k.0) (λ locked v k. write-AtMostOne local recovery v k.0 k.1))
        (λ v k. k)
        λ changed v k.
          continue-AtMostOne (AtMostOne s)
            (if not local && is_some v.fallback.trial_deadline
              then trial_refresh env v
              else await env v)
            _
            (AtMostOne-if (not local && is_some v.fallback.trial_deadline) (trial_refresh env v)
              (await env v) (λ b. trial_refresh-AtMostOne v k) (λ b. await-AtMostOne v k))
            (λ u j. j) (λ refreshed u j. j)
    where
      w₁ : World
      w₁ = set (λ f. record f { next_attempt = w.now + retry_delay }) w

      Ready : World → Type 0
      Ready v = Unchanged s v × (local ≡ true → TrialOver v)

      ready : Ready (await env w₁).1
      ready =
          unfold await in
          (await_same (λ t. t ≡ s) w₁ h, λ l. pass-TrialOver (env w₁.awaits) w₁ (over l))
