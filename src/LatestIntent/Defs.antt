-- ===== src/LatestIntent/Defs.antt =====
-- LatestIntent: its state, `submit` and the queue. Times are ms of the monotonic clock.
use goodwe_wallbox_sems_home.Prelude.{
  ℕ, ◌+◌, Bool, true, false, not, ◌&&◌, ◌||◌, Option, none, some, List, [], ◌∷◌, ◌==◌, is_some,
  if◌then◌else◌,
}

-- The logical controls; a choice for another key is a ValueError.
pub data Key : Type 0 where
  charging mode power minimum_power auto_start unknown : Key

abbrev pub same_key : Key → Key → Bool
same_key charging charging = true
same_key mode mode = true
same_key power power = true
same_key minimum_power minimum_power = true
same_key auto_start auto_start = true
same_key unknown unknown = true
same_key _ _ = false

-- A value: True and False of the charging control, or a number.
pub data Choice : Type 0 where
  on off : Choice
  number : ℕ → Choice

abbrev pub same_choice : Choice → Choice → Bool
same_choice on on = true
same_choice off off = true
same_choice (number m) (number n) = m == n
same_choice _ _ = false

-- A request, with the number and the time of the `submit` that made it: each has its own operation.
pub record Request : Type 0 where
  pub value : Choice
  pub operation : ℕ
  pub requested_at : ℕ

abbrev pub Pending : Type 0
Pending = List (Key × Request)

abbrev pub get : Key → Pending → Option Request
get k [] = none
get k ((k', r) ∷ rest) = if same_key k k' then some r else get k rest

abbrev pub put : Key → Request → Pending → Pending
put k r [] = (k, r) ∷ []
put k r ((k', r') ∷ rest) = if same_key k k' then (k, r) ∷ rest else (k', r') ∷ put k r rest

abbrev pub remove : Key → Pending → Pending
remove k [] = []
remove k ((k', r) ∷ rest) = if same_key k k' then remove k rest else (k', r) ∷ remove k rest

pub data Error : Type 0 where
  expired operation_failed : Error

-- `executing` is the key, the request and the version of the request that is being executed.
-- `running` is whether the task of `_run` is there, `failing` whether it awaits `recover_control`.
pub record Intent : Type 0 where
  pub pending : Pending
  pub running : Bool
  pub executing : Option (Key × Request × ℕ)
  pub failing : Bool
  pub error : Option Error
  pub closed : Bool
  pub version : ℕ
  pub batch_deadline : Option ℕ
  pub submitted : ℕ
  pub invalidations : ℕ  -- calls of `charge_mode_policy.invalidate`

unfoldable pub new : Intent
new = record {
  pending = [];
  running = false;
  executing = none;
  failing = false;
  error = none;
  closed = false;
  version = 0;
  batch_deadline = none;
  submitted = 0;
  invalidations = 0;
}

-- What the object reads of its owner; `preparing` is the control fallback's.
pub record Owner : Type 0 where
  pub preparing : Bool
  pub transitioning : Bool
  pub local : Bool
  pub cloud_restored : Bool  -- `cloud_restored_at is not None`
  pub last_update_success : Bool
  pub closed : Bool

unfoldable pub blackout : Owner → Bool
blackout o = o.preparing || (o.transitioning || (not o.local && o.cloud_restored))

unfoldable pub ready : Owner → Bool
ready o = not (blackout o) && (o.last_update_success && not o.closed)

pub data Submitted : Type 0 where
  shutting_down unknown_control : Submitted
  deferred : Bool → Submitted

abbrev pub is_value : Option Request → Choice → Bool
is_value none v = false
is_value (some r) v = same_choice r.value v

-- A Start that is executed, with no newer choice since.
abbrev pub executes_start : Option (Key × Request × ℕ) → ℕ → Bool
executes_start none version = false
executes_start (some (k, r, v)) version =
    same_key k charging && (same_choice r.value on && (v == version))

abbrev pub is_empty : Pending → Bool
is_empty [] = true
is_empty (e ∷ es) = false

abbrev pub is_unknown : Key → Bool
is_unknown unknown = true
is_unknown k = false

abbrev pub first : Option ℕ → ℕ → Option ℕ
first none t = some t
first (some d) t = some d

unfoldable pub retained : ℕ → Key → Choice → Intent → Intent
retained now key value i = record i {
  batch_deadline = first i.batch_deadline (now + 120000);
  pending =
      put key (record { value = value; operation = i.submitted; requested_at = now }) i.pending;
  version = i.version + 1;
  error = none;
  running = true;
  submitted = i.submitted + 1;
  invalidations = i.invalidations + 1;
}

unfoldable pub submit : Owner → ℕ → Key → Choice → Bool → Intent → Submitted × Intent
submit o now key value force i =
    if i.closed
    then (shutting_down, i)
    else if not (force || (blackout o || (not (is_empty i.pending) || is_some i.executing)))
    then (deferred false, i)
    else if is_unknown key
    then (unknown_control, i)
    else if is_value (get key i.pending) value
    then (deferred true, i)
    else if same_key key charging && (same_choice value on && executes_start i.executing i.version)
    then (deferred true, i)
    else (deferred true, retained now key value i)

-- `next(key for key in order if key in self.pending)`; `none` is its StopIteration.
abbrev pub first_of : List Key → Pending → Option Key
first_of [] p = none
first_of (k ∷ ks) p = if is_some (get k p) then some k else first_of ks p

abbrev pub order : Bool → List Key
order true = mode ∷ power ∷ minimum_power ∷ auto_start ∷ charging ∷ []
order false = power ∷ mode ∷ minimum_power ∷ auto_start ∷ charging ∷ []

unfoldable pub next : Owner → Pending → Option Key
next o p = if is_value (get charging p) off then some charging else first_of (order o.local) p

-- `_fail`
unfoldable pub fail : Error → Intent → Intent
fail e i = record i { error = some e; pending = []; batch_deadline = none }
