-- ===== src/CloudPushPolling/Count.antt =====
-- What one report does to the trust of CloudPushPolling.
use goodwe_wallbox_sems_home.Prelude.{
  ℕ, ◌+◌, ◌≤◌, ◌≡◌, refl, Bool, true, false, not, ◌||◌, Option, none, some, min, leb, if◌then◌else◌,
  arith,
}
use goodwe_wallbox_sems_home.CloudPushPolling.Defs.{
  Polling, Push, reset, Report, within, silent, qualifies, count,
}

-- The stream is trusted at `now`: the report just read is fresh and complete, and one was verified
-- by a hint no longer than the normal interval ago.
pub record IsTrusted (push : Push) (now seconds : ℕ) (r : Report) (p : Polling) : Type 0 where
  pub connected : push.connected ≡ true
  pub fresh : r.fresh ≡ true
  pub complete : r.complete ≡ true
  pub verified : ℕ
  pub same_verified : p.last_verified_at ≡ some verified
  pub recent : now ≤ verified + seconds
  pub enough : p.samples ≡ 3

module _ (push : Push) (now seconds : ℕ) (r : Report) (p : Polling) where
  bad : Bool
  bad =
      not r.fresh
      || (not r.complete || (not push.connected || silent now p.last_verified_at seconds))

  verified_now : Polling
  verified_now = record p {
    consumed_hint = p.hint;
    samples = min ((if within now p.last_verified_at seconds then p.samples else 0) + 1) 3;
    last_verified_at = some now;
    last_marker = r.marker;
  }

  counted : Bool → Bool → Polling
  counted q b =
      if q
      then verified_now
      else if b
      then reset (record p { consumed_hint = p.hint })
      else record p { consumed_hint = p.hint }

  verified_parts :
      qualifies push now seconds r p ≡ true
      → (push.connected ≡ true) × (r.fresh ≡ true) × (r.complete ≡ true)
  unfolding qualifies
  verified_parts h = (ground (arith, h), ground (arith, h), ground (arith, h))

  was_verified :
      (o : Option ℕ)
      → silent now o seconds ≡ false
      → (verified : ℕ) × (o ≡ some verified) × (now ≤ verified + seconds)
  was_verified none h = absurd (ground arith)
  was_verified (some v) h = (v, refl, ground (arith, h))

  pub count-IsTrusted :
      p.samples ≤ 3
      → leb 3 (count push now seconds r p).samples ≡ true
      → IsTrusted push now seconds r (count push now seconds r p)
  unfolding count bad counted verified_now reset
  count-IsTrusted few enough = go (qualifies push now seconds r p) refl bad refl enough
    where
      go :
          (q : Bool)
          → qualifies push now seconds r p ≡ q
          → (b : Bool) → bad ≡ b
          → leb 3 (counted q b).samples ≡ true
          → IsTrusted push now seconds r (counted q b)
      go true e b f h =
          let v = verified_parts e in
          record {
            connected = v.0;
            fresh = v.1;
            complete = v.2;
            verified = now;
            same_verified = refl;
            recent = omega arith;
            enough = ground (arith, h);
          }
      go false e true f h = absurd (ground (arith, h))
      go false e false f h =
          let v = was_verified p.last_verified_at (ground (arith, f)) in
          record {
            connected = ground (arith, f);
            fresh = ground (arith, f);
            complete = ground (arith, f);
            verified = v.0;
            same_verified = v.1;
            recent = v.2;
            enough = ground (arith, h, few);
          }

  pub count-samples :
      (count push now seconds r p).samples
      ≤ p.samples + (if qualifies push now seconds r p then 1 else 0)
  unfolding count bad counted verified_now reset
  count-samples = go (qualifies push now seconds r p) bad
    where
      go : (q b : Bool) → (counted q b).samples ≤ p.samples + (if q then 1 else 0)
      go true b = sample (within now p.last_verified_at seconds)
        where
          sample : (w : Bool) → min ((if w then p.samples else 0) + 1) 3 ≤ p.samples + 1
          sample true = omega arith
          sample false = omega arith
      go false true = omega arith
      go false false = omega arith

  pub count-few : p.samples ≤ 3 → (count push now seconds r p).samples ≤ 3
  unfolding count bad counted verified_now reset
  count-few few = go (qualifies push now seconds r p) bad
    where
      go : (q b : Bool) → (counted q b).samples ≤ 3
      go true b = omega arith
      go false true = omega arith
      go false false = few
