-- ===== src/CloudRequests/Observation.antt =====
-- CloudObservationReader.read (cloud_observation.py): a timestamped report, with one renewal of the
-- shared token. Times are microseconds.
use goodwe_wallbox_sems_home.Prelude.{
  ℕ, ◌+◌, ◌≤◌, ◌≡◌, refl, ◌⊎◌, inl, inr, Bool, true, false, not, ◌&&◌, ◌||◌, Option, none, some,
  String, leb, ltb, ◌==◌, if◌then◌else◌, str_eq, arith,
}
use goodwe_wallbox_sems_home.Prelude.Maps.{Map, get}
use goodwe_wallbox_sems_home.Prelude.Value.{
  Value, nothing, boolean, integer, real, text, pos, finite, is_number,
}

-- A response body that is a dict: `bool(hasError)`, the code, `data` if it is a dict, and whether
-- the message says that the authorization has expired.
pub record Payload : Type 0 where
  pub has_error : Bool
  pub code : Option Value
  pub report : Option (Map Value)
  pub says_expired : Bool

-- What the gate's request comes to: an exception, or a status and the body, none for another one.
pub data Reply : Type 0 where
  failed : Reply
  answered : ℕ → Option Payload → Reply

-- One attempt as the outside answers it: whether the provider has a token.
pub record Round : Type 0 where
  pub has_token : Bool
  pub reply : Reply
  pub elapsed : ℕ

-- The reader, with how many requests it has made of the gate, each of which may send twice, and
-- how often it told the shared session that its token was rejected.
pub record Reader : Type 0 where
  pub closed : Bool
  pub retry_at : ℕ
  pub now : ℕ
  pub requests : ℕ
  pub rejections : ℕ

-- ConnectionError and IncompleteCloudReport.
pub data Failure : Type 0 where
  unavailable incomplete : Failure

pub data Outcome : Type 0 where
  observed : Map Value → Outcome
  raised : Failure → Outcome

-- What an attempt says: a result, or that the token is expired.
pub data Verdict : Type 0 where
  final : Outcome → Verdict
  expired : Verdict

abbrev pub is_own : String → Option Value → Bool
is_own serial (some (text s)) = str_eq s serial
is_own serial _ = false

-- `bool(value)`
abbrev pub is_true : Option Value → Bool
is_true none = false
is_true (some nothing) = false
is_true (some (boolean b)) = b
is_true (some (integer (pos n))) = not (n == 0)
is_true (some (real (finite (pos n)))) = not (n == 0)
is_true (some (text s)) = not (str_eq s "")
is_true (some v) = true

-- `code in (0, "0", None)`
abbrev pub is_success : Option Value → Bool
is_success none = true
is_success (some nothing) = true
is_success (some (text s)) = str_eq s "0"
is_success (some v) = is_number 0 v

-- `str(code) in ("100001", "100002")`
abbrev pub is_expiry : Option Value → Bool
is_expiry (some (text s)) = str_eq s "100001" || str_eq s "100002"
is_expiry (some (integer (pos n))) = n == 100001 || n == 100002
is_expiry _ = false

abbrev pub other_payload : Payload → Verdict
other_payload p = if is_expiry p.code || p.says_expired then expired else final (raised unavailable)

abbrev pub own_report : String → Payload → Option (Map Value) → Verdict
own_report serial p none = other_payload p
own_report serial p (some d) =
    if not p.has_error && (is_success p.code && is_own serial (get "sn" d))
    then (if is_true (get "lastUpdate" d) then final (observed d) else final (raised incomplete))
    else other_payload p

abbrev pub of_payload : String → Option Payload → Verdict
of_payload serial none = final (raised unavailable)
of_payload serial (some p) = own_report serial p p.report

unfoldable pub verdict : String → Reply → Verdict
verdict serial failed = final (raised unavailable)
verdict serial (answered status payload) =
    if status == 401 || status == 403
    then expired
    else if leb 400 status
    then final (raised unavailable)
    else of_payload serial payload

abbrev pub posted : Round → Reader → Reader
posted r w = record w { requests = w.requests + 1; now = w.now + r.elapsed }

-- After the renewal: `_reject_telemetry` pauses the reads, the session is left alone.
abbrev pub last : Verdict → Reader → Outcome × Reader
last (final o) w = (o, w)
last expired w = (raised unavailable, record w { retry_at = w.now + 30000000 })

unfoldable pub second : String → Round → Reader → Outcome × Reader
unfolding verdict
second serial r w =
    if not r.has_token then (raised unavailable, w) else last (verdict serial r.reply) (posted r w)

abbrev pub renewed : String → Round → Verdict → Reader → Outcome × Reader
unfolding second
renewed serial r (final o) w = (o, w)
renewed serial r expired w = second serial r (record w { rejections = w.rejections + 1 })

unfoldable pub read : String → Round → Round → Reader → Outcome × Reader
unfolding verdict second
read serial r s w =
    if w.closed || ltb w.now w.retry_at
    then (raised unavailable, w)
    else if not r.has_token
    then (raised unavailable, w)
    else renewed serial s (verdict serial r.reply) (posted r w)

-- `close` after the lock was free.
unfoldable pub close : Reader → Reader
close w = record w { closed = true }

-- A result is a report of the serial with a report time.
abbrev pub IsOwn : String → Outcome → Type 0
IsOwn serial (observed d) =
    (is_own serial (get "sn" d) ≡ true) × (is_true (get "lastUpdate" d) ≡ true)
IsOwn serial (raised f) = Unit {0}

abbrev Judged : String → Verdict → Type 0
Judged serial (final o) = IsOwn serial o
Judged serial expired = Unit {0}

other_payload-Judged : (serial : String) (p : Payload) → Judged serial (other_payload p)
other_payload-Judged serial p = go (is_expiry p.code || p.says_expired)
  where
    go : (x : Bool) → Judged serial (if x then expired else final (raised unavailable))
    go true = tt
    go false = tt

of_payload-Judged : (serial : String) (o : Option Payload) → Judged serial (of_payload serial o)
of_payload-Judged serial none = tt
of_payload-Judged serial (some p) = body p.report
  where
    told :
        (d : Map Value) (x y z : Bool)
        → is_own serial (get "sn" d) ≡ y
        → is_true (get "lastUpdate" d) ≡ z
        → Judged serial (
            if x && y
            then (if z then final (observed d) else final (raised incomplete))
            else other_payload p)
    told d false y z e f = other_payload-Judged serial p
    told d true false z e f = other_payload-Judged serial p
    told d true true false e f = tt
    told d true true true e f = (e, f)

    pick :
        (d : Map Value) (a b : Bool)
        → Judged serial (
            if a && (b && is_own serial (get "sn" d))
            then (if is_true (get "lastUpdate" d)
                then final (observed d)
                else final (raised incomplete))
            else other_payload p)
    pick d false b = other_payload-Judged serial p
    pick d true b = told d b (is_own serial (get "sn" d)) (is_true (get "lastUpdate" d)) refl refl

    body : (o : Option (Map Value)) → Judged serial (own_report serial p o)
    body none = other_payload-Judged serial p
    body (some d) = pick d (not p.has_error) (is_success p.code)

verdict-Judged : (serial : String) (r : Reply) → Judged serial (verdict serial r)
unfolding verdict
verdict-Judged serial failed = tt
verdict-Judged serial (answered status payload) =
    go (status == 401 || status == 403) (leb 400 status)
  where
    go :
        (x y : Bool)
        → Judged serial (
            if x
            then expired
            else if y
            then final (raised unavailable)
            else of_payload serial payload)
    go true y = tt
    go false true = tt
    go false false = of_payload-Judged serial payload

-- A read makes at most two requests of the gate, each of which may send twice, and reports a
-- rejected token at most once, and then only with a request before; a reader that is closed or
-- pauses makes none. What it returns is a report of the serial with a report time. It pauses anew,
-- for 30 seconds, only after two requests.
pub read-Bounded :
    (serial : String) (r s : Round) (w : Reader)
    → let o = read serial r s w in
      IsOwn serial o.0
      × (o.1.requests ≤ w.requests + (if w.closed || ltb w.now w.retry_at then 0 else 2))
      × (o.1.rejections ≤ w.rejections + 1)
      × (o.1.rejections + w.requests ≤ w.rejections + o.1.requests)
      × ((o.1.retry_at ≡ w.retry_at)
          ⊎ ((o.1.retry_at ≡ o.1.now + 30000000) × (o.1.requests ≡ w.requests + 2)))
unfolding read second
read-Bounded serial r s w = go (w.closed || ltb w.now w.retry_at) r.has_token
  where
    Within : ℕ → Outcome × Reader → Type 0
    Within n o =
        IsOwn serial o.0
        × (o.1.requests ≤ w.requests + n)
        × (o.1.rejections ≤ w.rejections + 1)
        × (o.1.rejections + w.requests ≤ w.rejections + o.1.requests)
        × ((o.1.retry_at ≡ w.retry_at)
            ⊎ ((o.1.retry_at ≡ o.1.now + 30000000) × (o.1.requests ≡ w.requests + 2)))

    v : Reader
    v = record (posted r w) { rejections = w.rejections + 1 }

    again : (x : Verdict) → Judged serial x → Within 2 (last x (posted s v))
    again (final o) j = (j, omega arith, omega arith, omega arith, inl refl)
    again expired j = (tt, omega arith, omega arith, omega arith, inr (refl, omega arith))

    token :
        (t : Bool)
        → (let o : Outcome × Reader =
              if not t
              then (raised unavailable, v)
              else last (verdict serial s.reply) (posted s v) in
            Within 2 o)
    token true = again (verdict serial s.reply) (verdict-Judged serial s.reply)
    token false = (tt, omega arith, omega arith, omega arith, inl refl)

    first : (x : Verdict) → Judged serial x → Within 2 (renewed serial s x (posted r w))
    first (final o) j = (j, omega arith, omega arith, omega arith, inl refl)
    first expired j = token s.has_token

    go :
        (x t : Bool)
        → (let o : Outcome × Reader =
              if x
              then (raised unavailable, w)
              else if not t
              then (raised unavailable, w)
              else renewed serial s (verdict serial r.reply) (posted r w) in
            Within (if x then 0 else 2) o)
    go true t = (tt, omega arith, omega arith, omega arith, inl refl)
    go false false = (tt, omega arith, omega arith, omega arith, inl refl)
    go false true = first (verdict serial r.reply) (verdict-Judged serial r.reply)
