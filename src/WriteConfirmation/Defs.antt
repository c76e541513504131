-- ===== src/WriteConfirmation/Defs.antt =====
-- The state and the operations of WriteConfirmation. Times are ms of the monotonic clock.
use goodwe_wallbox_sems_home.Prelude.{
  ℕ, ◌+◌, Bool, true, false, not, ◌&&◌, ◌||◌, String, Option, none, some, List, [], ◌∷◌, min, max,
  ltb, ◌==◌, if◌then◌else◌,
}
use goodwe_wallbox_sems_home.Prelude.Value.{Value}
use goodwe_wallbox_sems_home.Prelude.Maps.{Map, get, put, remove, has}

pub data Source : Type 0 where
  telemetry settings : Source

abbrev pub same_source : Source → Source → Bool
same_source telemetry telemetry = true
same_source settings settings = true
same_source _ _ = false

pub data Uncertainty : Type 0 where
  timeout error : Uncertainty

pub record PendingRead : Type 0 where
  pub value : Value
  pub epoch : ℕ
  pub started : ℕ
  pub source : Source
  pub last_read : ℕ
  pub uncertain : Bool
  pub uncertainty : Uncertainty

-- The texts of `results`; the ones that carry an uncertainty are `…_after_timeout` and
-- `…_after_error`.
pub data Result : Type 0 where
  writing pending superseded cancelled write_failed device_rejected confirmed read_failed
        unconfirmed :
      Result
  pending_after confirmed_after unconfirmed_after : Uncertainty → Result

-- What the object reads of its owner, the coordinator.
pub record Owner : Type 0 where
  pub local : Bool
  pub transitioning : Bool
  pub closed : Bool
  pub routing_epoch : ℕ

-- A token is the number of the `begin` that made it; `timer` is when `_cancel`'s timer fires.
pub record Monitor : Type 0 where
  pub modbus : Bool
  pub cloud_session : Bool
  pub pending : Map PendingRead
  pub tokens : Map ℕ
  pub next_token : ℕ
  pub results : Map Result
  pub timer : Option ℕ
  pub busy : Bool
  pub closed : Bool

unfoldable pub new : Bool → Bool → Monitor
new modbus cloud_session = record {
  modbus = modbus;
  cloud_session = cloud_session;
  pending = [];
  tokens = [];
  next_token = 0;
  results = [];
  timer = none;
  busy = false;
  closed = false;
}

-- `_finish`, whose log is left out.
unfoldable pub finish : String → Result → Monitor → Monitor
finish field result m = record m {
  pending = remove field m.pending;
  results = put field result m.results;
}

abbrev pub finish_all : Result → Map PendingRead → Monitor → Monitor
finish_all result [] m = m
finish_all result ((field, t) ∷ rest) m = finish_all result rest (finish field result m)

abbrev pub after : (Uncertainty → Result) → Result → PendingRead → Result
after uncertain certain t = if t.uncertain then uncertain t.uncertainty else certain

-- `_schedule`: the slots of the readback, counted from the acceptance.
abbrev pub slots : Bool → List ℕ
slots true =
    (5000 ∷ 10000 ∷ 15000 ∷ 20000 ∷ 25000 ∷ 30000 ∷ 35000 ∷ 40000 ∷ 45000 ∷ 50000 ∷ 55000 ∷ 60000
      ∷ [])
slots false = (5000 ∷ 10000 ∷ 20000 ∷ 35000 ∷ 60000 ∷ [])

-- `candidates[0]`: the first slot after the last read.
abbrev pub next_slot : ℕ → ℕ → List ℕ → Option ℕ
next_slot started last_read [] = none
next_slot started last_read (s ∷ ss) =
    if ltb last_read (started + s) then some (started + s) else next_slot started last_read ss

pub data Verdict : Type 0 where
  stale expired : Verdict
  due_at : ℕ → Verdict

abbrev pub slot_verdict : PendingRead → Option ℕ → Verdict
slot_verdict t none = expired
slot_verdict t (some slot) = due_at (min (t.started + 60000) (max slot (t.last_read + 5000)))

unfoldable pub verdict : Bool → Owner → ℕ → PendingRead → Verdict
verdict modbus o now t =
    if o.local || not (t.epoch == o.routing_epoch)
    then stale
    else if ltb (t.started + 60000) now
    then expired
    else slot_verdict t (next_slot t.started t.last_read (slots modbus))

abbrev pub judge : Verdict → String → PendingRead → Monitor × List ℕ → Monitor × List ℕ
judge stale field t (m, due) = (finish field cancelled m, due)
judge expired field t (m, due) = (finish field (after unconfirmed_after unconfirmed t) m, due)
judge (due_at time) field t (m, due) = (m, time ∷ due)

abbrev pub judge_all : Owner → ℕ → Map PendingRead → Monitor × List ℕ → Monitor × List ℕ
judge_all o now [] r = r
judge_all o now ((field, t) ∷ rest) r =
    judge_all o now rest (judge (verdict r.0.modbus o now t) field t r)

abbrev pub least : List ℕ → Option ℕ
least [] = none
least (a ∷ rest) = elim (least rest) [ none ↦ some a | some b ↦ some (min a b) ]

-- The timer: `now + max(0, min(due) - now)`.
abbrev pub armed : Bool → ℕ → Option ℕ → Option ℕ
armed false now due = none
armed true now none = none
armed true now (some time) = some (max now time)

unfoldable pub schedule : Owner → ℕ → Monitor → Monitor
schedule o now m =
    let r = judge_all o now m.pending (record m { timer = none }, []) in
    record r.0 { timer = armed (not r.0.busy && not r.0.closed) now (least r.1) }

-- `begin`; the ticket is the token and the routing epoch.
abbrev pub supersede : String → Monitor → Monitor
supersede field m = if has field m.pending then finish field superseded m else m

unfoldable pub begin : Owner → ℕ → String → Monitor → (ℕ × ℕ) × Monitor
begin o now field m =
    let m₁ = record m { tokens = put field m.next_token m.tokens; next_token = m.next_token + 1 } in
    let m₂ = supersede field m₁ in
    (
      (m.next_token, o.routing_epoch),
      schedule o now (record m₂ { results = put field writing m₂.results }),
    )

abbrev pub holds : Option ℕ → ℕ → Bool
holds none token = false
holds (some t) token = t == token

unfoldable pub accepted :
    Owner → ℕ → String → Value → ℕ × ℕ → Source → Bool → Uncertainty → Monitor → Bool × Monitor
accepted o now field value (token, epoch) source uncertain uncertainty m =
    let m₁ = record m { tokens = remove field m.tokens } in
    let read : PendingRead = record {
      value = value;
      epoch = epoch;
      started = now;
      source = source;
      last_read = now;
      uncertain = uncertain;
      uncertainty = uncertainty;
    } in
    if not (holds (get field m.tokens) token)
    then (false, m)
    else if m.closed || (o.local || (o.transitioning || not (epoch == o.routing_epoch)))
    then (false, record m₁ { results = put field cancelled m₁.results })
    else (
      true,
      schedule o now (record m₁ {
        pending = put field read m₁.pending;
        results = put field (after pending_after pending read) m₁.results;
      }),
    )

unfoldable pub rejected : String → ℕ × ℕ → Monitor → Monitor
rejected field (token, epoch) m =
    if holds (get field m.tokens) token
    then record m { tokens = remove field m.tokens; results = put field write_failed m.results }
    else m
