-- ===== src/CloudRequests/Gate.antt =====
-- CloudRequestGate (cloud_rate_limit.py): one request under the lock.
use goodwe_wallbox_sems_home.Prelude.{
  ℕ, ◌+◌, ◌-◌, ◌*◌, ◌/◌, min, max, Bool, true, false, not, ◌&&◌, ◌||◌, Option, none, some, ◌∷◌,
  String, if◌then◌else◌, leb, ltb, ◌==◌,
}
use goodwe_wallbox_sems_home.Prelude.Value.{ℤ, pos, negsuc, Real, finite, infinite, nan}
use goodwe_wallbox_sems_home.CloudRequests.Budget.{
  rate_limited, connection, other, ok, raised, Gate, sent, heard, World, Answer, M, continue, pass,
  request_timeout, serialized,
}

abbrev pub first_delay : ℕ
first_delay = 30000000

abbrev pub last_delay : ℕ
last_delay = 300000000

-- `CloudRequestGate.__init__`.
unfoldable pub new : Gate
new = record { retry_at = 0; delay = first_delay }

-- A response: the status, `Retry-After` and whether the status is an int.
pub record Response : Type 0 where
  pub status : ℕ
  pub retry_after : Option String

-- What `send` comes to: a response; a ConnectionError of the HTTP library, of TLS or not, that a
-- reset of the peer caused or not; or another exception.
pub data Reply : Type 0 where
  answered : Response → Reply
  refused : Bool → Bool → Reply
  broken : Reply

pub record Request : Type 0 where
  pub raise_on_limit : Bool
  pub retry_read : Bool
  pub timeout : Option ℕ

-- `max(1, math.ceil(seconds))` for a pause in microseconds.
abbrev pub ceil_seconds : ℕ → ℕ
ceil_seconds wait = max 1 ((wait + 999999) / 1000000)

-- A finite delay that is not negative.
abbrev pub usable : Real → Option ℕ
usable (finite (pos n)) = some n
usable (finite (negsuc n)) = none
usable infinite = none
usable nan = none

abbrev pub usable_date : Option ℤ → Option ℕ
usable_date none = none
usable_date (some (pos n)) = some n
usable_date (some (negsuc n)) = none

-- `parse` is `float` of a text, none for its ValueError; `until` is the time that a date stands
-- for, less the time of the wall clock.
abbrev pub delay_from : Option Real → Option ℤ → Option ℕ
delay_from (some r) date = usable r
delay_from none date = usable_date date

abbrev pub text_delay : (String → Option Real) → (String → Option ℤ) → Option String → Option ℕ
text_delay parse until none = none
text_delay parse until (some t) = delay_from (parse t) (until t)

unfoldable pub asked_delay : (String → Option Real) → (String → Option ℤ) → Response → Option ℕ
asked_delay parse until r =
    if r.status == 429 || r.status == 503 then text_delay parse until r.retry_after else none

abbrev pub wait_for : Gate → Option ℕ → ℕ
wait_for g none = g.delay
wait_for g (some d) = max 1000000 d

abbrev pub has_delay : Option ℕ → Bool
has_delay none = false
has_delay (some d) = true

unfoldable pub limit : ℕ → World → World
limit wait w = record w {
  gate = record { retry_at = w.now + wait; delay = min (w.gate.delay * 2) last_delay };
}

unfoldable pub settle : Response → World → World
settle r w =
    if leb 200 r.status && ltb r.status 300
    then record w { gate = record w.gate { delay = first_delay } }
    else w

module _ (env : ℕ → Answer) (parse : String → Option Real) (until : String → Option ℤ)
    (send : ℕ → Reply) where
  -- The status of a response.
  abbrev pub judged : Request → Response → Option ℕ → M Response
  unfolding limit settle
  judged q r d w =
      if r.status == 429 || (r.status == 503 && has_delay d)
      then (
        (if q.raise_on_limit
            then raised (rate_limited (ceil_seconds (wait_for w.gate d)))
            else ok r),
        limit (wait_for w.gate d) w,
      )
      else (ok r, settle r w)

  unfoldable pub judge : Request → Response → M Response
  unfolding asked_delay limit settle
  judge q r w =
      judged q r (asked_delay parse until r)
        (record w { log = heard w.now r.status r.retry_after ∷ w.log })

  unfoldable pub dispatch : Option ℕ → World → World
  unfolding pass
  dispatch timeout w = pass (env w.calls) (record w { log = sent w.now timeout ∷ w.log })

  -- The sole retry: what is sent a second time is not sent again.
  abbrev pub second : Request → Reply → M Response
  unfolding judge
  second q (answered r) w = judge q r w
  second q (refused tls reset) w = (raised connection, w)
  second q broken w = (raised other, w)

  unfoldable pub retry : Request → ℕ → M Response
  unfolding judge dispatch
  retry q t w = second q (send w.calls) (dispatch (some t) w)

  abbrev pub retried : Request → ℕ → ℕ → M Response
  unfolding request_timeout retry
  retried q started timeout w =
      if leb (started + timeout) w.now
      then (raised connection, w)
      else continue (request_timeout (started + timeout - w.now) w) (λ t v. retry q t v)

  abbrev pub refused_at : Request → ℕ → Option ℕ → M Response
  unfolding request_timeout retry
  refused_at q started none w = (raised connection, w)
  refused_at q started (some timeout) w = retried q started timeout w

  abbrev pub first : Request → Option ℕ → ℕ → Reply → M Response
  unfolding judge request_timeout retry
  first q timeout started (answered r) w = judge q r w
  first q timeout started (refused tls reset) w =
      if not q.retry_read || (tls || not reset)
      then (raised connection, w)
      else refused_at q started timeout w
  first q timeout started broken w = (raised other, w)

  unfoldable pub try : Request → Option ℕ → M Response
  unfolding judge request_timeout retry dispatch
  try q timeout w = first q timeout w.now (send w.calls) (dispatch timeout w)

  abbrev pub timed : Request → Option ℕ → M Response
  unfolding request_timeout try
  timed q none w = try q none w
  timed q (some timeout) w = continue (request_timeout timeout w) (λ t v. try q (some t) v)

  -- The body under the lock.
  unfoldable pub guarded : Request → M Response
  unfolding request_timeout try
  guarded q w =
      if ltb w.now w.gate.retry_at
      then (raised (rate_limited (ceil_seconds (w.gate.retry_at - w.now))), w)
      else timed q q.timeout w

  -- `CloudRequestGate.request`.
  unfoldable pub request : Request → M Response
  unfolding serialized guarded
  request q w = continue (serialized env w) (λ u v. guarded q v)
