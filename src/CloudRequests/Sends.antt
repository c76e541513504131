-- ===== src/CloudRequests/Sends.antt =====
-- What the body of a request sends: how often, and until when.
use goodwe_wallbox_sems_home.Prelude.{
  ℕ, suc, ◌+◌, ◌-◌, ◌≤◌, ◌≡◌, refl, Bool, true, false, not, ◌&&◌, ◌||◌, Option, none, some, List,
  String, if◌then◌else◌, leb, ltb, ◌==◌, arith, ◌∷◌,
}
use goodwe_wallbox_sems_home.Prelude.Value.{ℤ, Real}
use goodwe_wallbox_sems_home.CloudRequests.Budget.{
  rate_limited, connection, Outcome, ok, raised, Entry, World, Answer, continue, pass,
  request_timeout, heard,
}
use goodwe_wallbox_sems_home.CloudRequests.Gate.{
  Response, Reply, answered, refused, broken, Request, asked_delay, has_delay, wait_for, limit,
  settle, judge, dispatch, second, retry, retried, refused_at, first, try, timed, guarded,
  ceil_seconds,
}
use goodwe_wallbox_sems_home.CloudRequests.Timeouts.{
  Ends, Sends, here, response, send, more, after_timeout,
}

module _ (env : ℕ → Answer) (parse : String → Option Real) (until : String → Option ℤ)
    (answer : ℕ → Reply) (deadline limit_at : Option ℕ) (old : List Entry) where
  abbrev S : ℕ → World → Type 0
  S n w = Sends deadline limit_at old n w.log

  judge-Sends :
      (n : ℕ) (q : Request) (r : Response) (w : World)
      → S n w
      → S n (judge env parse until answer q r w).1
  unfolding judge limit settle
  judge-Sends n q r w h =
      go (r.status == 429 || (r.status == 503 && has_delay (asked_delay parse until r)))
        (leb 200 r.status && ltb r.status 300)
    where
      d : Option ℕ
      d = asked_delay parse until r

      v : World
      v = record w { log = heard w.now r.status r.retry_after ∷ w.log }

      go :
          (x y : Bool)
          → (let s : Outcome Response × World =
                if x
                then (
                  (if q.raise_on_limit
                      then raised (rate_limited (ceil_seconds (wait_for w.gate d)))
                      else ok r),
                  limit (wait_for w.gate d) v,
                )
                else (
                  ok r,
                  if y then record v { gate = record v.gate { delay = 30000000 } } else v,
                ) in
              S n s.1)
      go true y = response h
      go false true = response h
      go false false = response h

  dispatch-Sends :
      (n : ℕ) (t : Option ℕ) (w : World)
      → Ends w.now t deadline
      → Ends w.now t limit_at
      → S n w
      → S (suc n) (dispatch env parse until answer t w)
  unfolding dispatch pass
  dispatch-Sends n t w e f h = send e f h

  retry-Sends :
      (n t : ℕ) (q : Request) (w : World)
      → Ends w.now (some t) deadline
      → Ends w.now (some t) limit_at
      → S n w
      → S (suc n) (retry env parse until answer q t w).1
  unfolding retry
  retry-Sends n t q w e f h = go (answer w.calls)
    where
      sent_it : S (suc n) (dispatch env parse until answer (some t) w)
      sent_it = dispatch-Sends n (some t) w e f h

      go :
          (r : Reply)
          → S
              (suc n)
              (second env parse until answer q r (dispatch env parse until answer (some t) w)).1
      go (answered r) = judge-Sends (suc n) q r (dispatch env parse until answer (some t) w) sent_it
      go (refused tls reset) = sent_it
      go broken = sent_it

Ends-later : (a t b u : ℕ) (l : Option ℕ) → b + u ≤ a + t → Ends a (some t) l → Ends b (some u) l
Ends-later a t b u none h e = tt
Ends-later a t b u (some l) h e = omega (arith, h, e)

-- `started + timeout`, if there is a timeout.
abbrev pub limit_of : ℕ → Option ℕ → Option ℕ
limit_of started none = none
limit_of started (some timeout) = some (started + timeout)

-- How often a request may be sent.
abbrev pub most : Bool → ℕ
most true = 2
most false = 1

module _ (env : ℕ → Answer) (parse : String → Option Real) (until : String → Option ℤ)
    (answer : ℕ → Reply) (limit_at : Option ℕ) (old : List Entry) where
  abbrev Within : Option ℕ → ℕ → World → Type 0
  Within deadline n w = Sends deadline limit_at old n w.log

  retried-Sends :
      (started timeout : ℕ) (q : Request) (w : World)
      → Ends started (some timeout) limit_at
      → Within w.deadline 1 w
      → Within w.deadline 2 (retried env parse until answer q started timeout w).1
  unfolding retry request_timeout
  retried-Sends started timeout q w b h = go (leb (started + timeout) w.now) refl
    where
      go :
          (x : Bool)
          → leb (started + timeout) w.now ≡ x
          → (let s : Outcome Response × World =
                if x
                then (raised connection, w)
                else continue
                    (request_timeout (started + timeout - w.now) w)
                    (λ t v. retry env parse until answer q t v) in
              Within w.deadline 2 s.1)
      go true e = more h
      go false e =
          after_timeout (Within w.deadline 2) (started + timeout - w.now) w
            (λ t v. retry env parse until answer q t v) (more h)
            (λ t le ends.
              retry-Sends env parse until answer w.deadline limit_at old 1 t q w ends
                (Ends-later started timeout w.now t limit_at (ground (arith, e, le)) b) h)

  try-Sends :
      (q : Request) (timeout : Option ℕ) (w : World)
      → Ends w.now timeout w.deadline
      → Ends w.now timeout limit_at
      → Within w.deadline 0 w
      → Within w.deadline (most q.retry_read) (try env parse until answer q timeout w).1
  unfolding try judge request_timeout retry dispatch pass
  try-Sends q timeout w e f h = go (answer w.calls)
    where
      v : World
      v = dispatch env parse until answer timeout w

      once : Within w.deadline 1 v
      once = dispatch-Sends env parse until answer w.deadline limit_at old 0 timeout w e f h

      at_most : (b : Bool) (u : World) → Within w.deadline 1 u → Within w.deadline (most b) u
      at_most true u k = more k
      at_most false u k = k

      again :
          (o : Option ℕ)
          → Ends w.now o limit_at
          → Within w.deadline 2 (refused_at env parse until answer q w.now o v).1
      again none g = more once
      again (some t) g = retried-Sends w.now t q v g once

      refusal :
          (read x : Bool)
          → (let s : Outcome Response × World =
                if not read || x
                then (raised connection, v)
                else refused_at env parse until answer q w.now timeout v in
              Within w.deadline (most read) s.1)
      refusal false x = once
      refusal true true = more once
      refusal true false = again timeout f

      go :
          (r : Reply)
          → Within w.deadline
              (most q.retry_read)
              (first env parse until answer q timeout w.now r v).1
      go (answered r) =
          at_most q.retry_read (judge env parse until answer q r v).1
            (judge-Sends env parse until answer w.deadline limit_at old 1 q r v once)
      go (refused tls reset) = refusal q.retry_read (tls || not reset)
      go broken = at_most q.retry_read v once

-- Under the lock a request is sent at most once, or twice if it is a read that may be retried, and
-- not at all during a cooldown. A send with a timeout ends, by that timeout, no later than the
-- budget of the operation, if there is one, and than the given timeout after the start.
pub guarded-Sends :
    (env : ℕ → Answer) (parse : String → Option Real) (until : String → Option ℤ)
    (answer : ℕ → Reply) (q : Request) (w : World)
    → Sends w.deadline
        (limit_of w.now q.timeout)
        w.log
        (if ltb w.now w.gate.retry_at then 0 else most q.retry_read)
        (guarded env parse until answer q w).1.log
unfolding guarded request_timeout try
guarded-Sends env parse until answer q w = go (ltb w.now w.gate.retry_at)
  where
    unlimited : (o : Option ℕ) → Ends w.now none o
    unlimited none = tt
    unlimited (some l) = tt

    body :
        (o : Option ℕ)
        → Sends w.deadline
            (limit_of w.now o)
            w.log
            (most q.retry_read)
            (timed env parse until answer q o w).1.log
    body none = try-Sends env parse until answer none w.log q none w (unlimited w.deadline) tt here
    body (some timeout) =
        after_timeout
          (λ v. Sends w.deadline (some (w.now + timeout)) w.log (most q.retry_read) v.log) timeout w
          (λ t v. try env parse until answer q (some t) v) here
          (λ t le ends.
            try-Sends env parse until answer (some (w.now + timeout)) w.log q (some t) w ends
              (omega (arith, le)) here)

    go :
        (x : Bool)
        → (let s : Outcome Response × World =
              if x
              then (raised (rate_limited (ceil_seconds (w.gate.retry_at - w.now))), w)
              else timed env parse until answer q q.timeout w in
            Sends w.deadline
              (limit_of w.now q.timeout)
              w.log
              (if x then 0 else most q.retry_read)
              s.1.log)
    go true = here
    go false = body q.timeout
