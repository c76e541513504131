-- ===== src/CloudPushPolling/Trust.antt =====
-- What the longer interval of CloudPushPolling rests on.
use goodwe_wallbox_sems_home.Prelude.{
  ℕ, ◌+◌, ◌*◌, ◌≤◌, ◌≡◌, ◌⊎◌, inl, inr, refl, Bool, true, false, not, ◌&&◌, ◌||◌, Option, none,
  some, List, [], ◌∷◌, leb, leb→le, ◌==◌, if◌then◌else◌, arith, Bool-cases,
}
use goodwe_wallbox_sems_home.CloudPushPolling.Defs.{
  Polling, Push, new, telemetry_hint, reset, Report, qualifies, same_base, rebase, count, extend,
  observed, failed, is_expired, check,
}
use goodwe_wallbox_sems_home.CloudPushPolling.Count.{
  IsTrusted, count-IsTrusted, count-samples, count-few,
}

rebase-samples :
    (push : Push) (seconds : ℕ) (p : Polling) → (rebase push seconds p).samples ≤ p.samples
unfolding rebase reset
rebase-samples push seconds p =
    go (not (same_base p.base_seconds seconds) || not (p.epoch == push.epoch))
  where
    go :
        (b : Bool)
        → (record (if b then record (reset p) { epoch = push.epoch } else p) {
          base_seconds = some seconds;
        }).samples
          ≤ p.samples
    go true = omega arith
    go false = omega arith

-- The events of a run.
pub data Event : Type 0 where
  hints : ℕ → Event
  observes : Push → ℕ → ℕ → Report → Event
  fails : Push → Event
  checks : Push → ℕ → Event

unfoldable pub step : Event → Polling → Polling
step (hints now) p = telemetry_hint now p
step (observes push now seconds r) p = (observed push now seconds r p).1
step (fails push) p = (failed push p).1
step (checks push now) p = (check push now p).1

-- Whether an event is a report that a new hint has announced and that counts.
abbrev pub verifies : Event → Polling → ℕ
verifies (observes push now seconds r) p =
    if qualifies push now seconds r (rebase push seconds p) then 1 else 0
verifies _ p = 0

-- The object after a run, and the verified reports in it.
abbrev pub run : List Event → Polling × ℕ → Polling × ℕ
run [] s = s
run (e ∷ es) (p, n) = run es (step e p, n + verifies e p)

record IsCounted (p : Polling) (n : ℕ) : Type 0 where
  pub few : p.samples ≤ 3
  pub counted_all : p.samples ≤ n
  pub extended_needs : p.extended ≡ true → 3 ≤ n

step-IsCounted :
    (e : Event) (p : Polling) (n : ℕ) → IsCounted p n → IsCounted (step e p) (n + verifies e p)
unfolding step telemetry_hint observed extend failed reset check
step-IsCounted (hints now) p n h = record {
  few = h.few;
  counted_all = omega (arith, h.counted_all);
  extended_needs = λ x. omega (arith, h.extended_needs x);
}
step-IsCounted (observes push now seconds r) p n h =
    let q = rebase push seconds p in
    let a = rebase-samples push seconds p in
    let b = count-samples push now seconds r q in
    record {
      few = count-few push now seconds r q (omega (arith, a, h.few));
      counted_all = omega (arith, a, b, h.counted_all);
      extended_needs = λ x. omega (arith, a, b, h.counted_all, leb→le 3 _ x);
    }
step-IsCounted (fails push) p n h = record {
  few = omega arith;
  counted_all = omega arith;
  extended_needs = λ x. absurd (ground (arith, x));
}
step-IsCounted (checks push now) p n h =
    go (not p.extended) (not (is_expired push now p)) (not push.eligible)
  where
    kept : IsCounted p (n + 0)
    kept = record {
      few = h.few;
      counted_all = omega (arith, h.counted_all);
      extended_needs = λ x. omega (arith, h.extended_needs x);
    }

    revoked : IsCounted (reset p) (n + 0)
    revoked = record {
      few = omega arith;
      counted_all = omega arith;
      extended_needs = λ x. absurd (ground (arith, x));
    }

    go :
        (a b c : Bool)
        → let s : (Bool × Option ℕ) × Polling =
            if a
            then ((false, none), p)
            else if b
            then ((false, none), p)
            else if c
            then ((false, none), reset p)
            else (
              (push.last_update_success && not push.polling_disabled, p.base_seconds),
              reset p,
            ) in
          IsCounted s.1 (n + 0)
    go true b c = kept
    go false true c = kept
    go false false true = revoked
    go false false false = revoked

run-IsCounted :
    (es : List Event) (p : Polling) (n : ℕ)
    → IsCounted p n
    → IsCounted (run es (p, n)).0 (run es (p, n)).1
run-IsCounted [] p n h = h
run-IsCounted (e ∷ es) p n h =
    run-IsCounted es (step e p) (n + verifies e p) (step-IsCounted e p n h)

-- The polling interval is at most doubled, and only when three reports have been verified in the
-- run so far; the report just read is then fresh and complete, the stream is connected, and a
-- report was verified no longer than the normal interval ago.
pub interval-IsTrusted :
    (first : Push) (es : List Event) (push : Push) (now seconds : ℕ) (r : Report)
    → let s = run es (new first, 0) in
      let o = observed push now seconds r s.0 in
      (o.0 ≡ seconds)
      ⊎ ((o.0 ≡ seconds * 2)
          × (3 ≤ s.1 + verifies (observes push now seconds r) s.0)
          × IsTrusted push now seconds r o.1)
unfolding new observed extend
interval-IsTrusted first es push now seconds r = elim (Bool-cases (leb 3 c.samples)) [
  | inl e ↦ inr (rw e refl, omega (arith, a, b, i.counted_all, leb→le 3 c.samples e), trusted e)
  | inr e ↦ inl (interval (leb 3 c.samples) e)
]
  where
    s : Polling × ℕ
    s = run es (new first, 0)

    i : IsCounted s.0 s.1
    i = run-IsCounted es (new first) 0 (record {
      few = omega arith;
      counted_all = omega arith;
      extended_needs = λ x. absurd (ground (arith, x));
    })

    q : Polling
    q = rebase push seconds s.0

    c : Polling
    c = count push now seconds r q

    a : q.samples ≤ s.0.samples
    a = rebase-samples push seconds s.0

    b : c.samples ≤ q.samples + (if qualifies push now seconds r q then 1 else 0)
    b = count-samples push now seconds r q

    interval : (t : Bool) → t ≡ false → seconds * (if t then 2 else 1) ≡ seconds
    interval true e = absurd (ground (arith, e))
    interval false e = omega arith

    trusted :
        leb 3 c.samples ≡ true
        → IsTrusted push now seconds r (record c { extended = leb 3 c.samples })
    trusted e =
        let t = count-IsTrusted push now seconds r q (omega (arith, a, i.few)) e in
        record {
          connected = t.connected;
          fresh = t.fresh;
          complete = t.complete;
          verified = t.verified;
          same_verified = t.same_verified;
          recent = t.recent;
          enough = t.enough;
        }
