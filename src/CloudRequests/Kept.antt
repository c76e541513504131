-- ===== src/CloudRequests/Kept.antt =====
-- What one request keeps of the cooldown.
use goodwe_wallbox_sems_home.Prelude.{
  ℕ, ◌+◌, ◌-◌, ◌≤◌, ◌≡◌, refl, Bool, true, false, not, ◌&&◌, ◌||◌, Option, none, some, List, [],
  ◌∷◌, String, if◌then◌else◌, leb, ltb, ltb→ge, ◌==◌, arith,
}
use goodwe_wallbox_sems_home.Prelude.Value.{ℤ, Real}
use goodwe_wallbox_sems_home.CloudRequests.Budget.{
  Gate, rate_limited, connection, Outcome, ok, raised, Entry, sent, heard, World, Answer, continue,
  pass, request_timeout,
}
use goodwe_wallbox_sems_home.CloudRequests.Gate.{
  Response, Reply, answered, refused, broken, Request, asked_delay, text_delay, has_delay, wait_for,
  limit, settle, judge, dispatch, second, retry, refused_at, first, try, timed, guarded,
  ceil_seconds, first_delay, last_delay,
}
use goodwe_wallbox_sems_home.CloudRequests.Timeouts.{after_timeout}

abbrev pub or_first : Option ℕ → ℕ
or_first none = first_delay
or_first (some d) = d

abbrev pub EndsBy : ℕ → ℕ → Option ℕ → Type 0
EndsBy t at none = Unit {0}
EndsBy t at (some d) = at + d ≤ t

EndsBy-later : (t u at : ℕ) (d : Option ℕ) → t ≤ u → EndsBy t at d → EndsBy u at d
EndsBy-later t u at none h e = tt
EndsBy-later t u at (some d) h e = omega (arith, h, e)

module _ (parse : String → Option Real) (until : String → Option ℤ) where
  -- The pause that a response asks for: after a 429 the time of `Retry-After` or, without a usable
  -- one, 30 seconds; after a 503 the time of `Retry-After`, if there is a usable one.
  unfoldable pub demanded : ℕ → Option String → Option ℕ
  demanded status retry_after =
      if status == 429
      then some (or_first (text_delay parse until retry_after))
      else if status == 503
      then text_delay parse until retry_after
      else none

  -- The pauses that the responses of a log asked for end by a time.
  abbrev pub Over : ℕ → List Entry → Type 0
  Over t [] = Unit {0}
  Over t (sent s timeout ∷ log) = Over t log
  Over t (heard at status retry_after ∷ log) =
      EndsBy t at (demanded status retry_after) × Over t log

  -- Each send of a log came after all pauses that the server had asked for before it.
  abbrev pub Respected : List Entry → Type 0
  Respected [] = Unit {0}
  Respected (sent s timeout ∷ log) = Over s log × Respected log
  Respected (heard at status retry_after ∷ log) = Respected log

  pub Over-later : (t u : ℕ) (log : List Entry) → t ≤ u → Over t log → Over u log
  Over-later t u [] h o = tt
  Over-later t u (sent s timeout ∷ log) h o = Over-later t u log h o
  Over-later t u (heard at status retry_after ∷ log) h o =
      (EndsBy-later t u at (demanded status retry_after) h o.0, Over-later t u log h o.1)

  -- What all runs keep.
  pub record IsKept (w : World) : Type 0 where
    pub least : first_delay ≤ w.gate.delay
    pub most : w.gate.delay ≤ last_delay
    pub over : Over w.gate.retry_at w.log
    pub respected : Respected w.log

  -- It is kept, and no cooldown is on.
  abbrev pub IsOpen : World → Type 0
  IsOpen w = IsKept w × (w.gate.retry_at ≤ w.now)

  -- What the code waits is no shorter than what the response asks for.
  waits :
      (r : Response) (g : Gate) (now : ℕ)
      → first_delay ≤ g.delay
      → EndsBy (now + wait_for g (asked_delay parse until r)) now (demanded r.status r.retry_after)
  unfolding demanded asked_delay
  waits r g now h = go (r.status == 429) (r.status == 503) (text_delay parse until r.retry_after)
    where
      go :
          (x y : Bool) (d : Option ℕ)
          → EndsBy
              (now + wait_for g (if x || y then d else none))
              now
              (if x then some (or_first d) else if y then d else none)
      go true y none = omega (arith, h)
      go true y (some d) = omega arith
      go false true none = tt
      go false true (some d) = omega arith
      go false false d = tt

  -- A response that sets no pause asks for none.
  unasked :
      (r : Response) (t now : ℕ)
      → (r.status == 429 || (r.status == 503 && has_delay (asked_delay parse until r))) ≡ false
      → EndsBy t now (demanded r.status r.retry_after)
  unfolding demanded asked_delay
  unasked r t now h =
      go (r.status == 429) (r.status == 503) (text_delay parse until r.retry_after) h
    where
      go :
          (x y : Bool) (d : Option ℕ)
          → (x || (y && has_delay (if x || y then d else none))) ≡ false
          → EndsBy t now (if x then some (or_first d) else if y then d else none)
      go true y d e = absurd (ground (arith, e))
      go false true none e = tt
      go false true (some d) e = absurd (ground (arith, e))
      go false false d e = tt

module _ (env : ℕ → Answer) (parse : String → Option Real) (until : String → Option ℤ)
    (answer : ℕ → Reply) where
  judge-IsKept :
      (q : Request) (r : Response) (w : World)
      → IsOpen parse until w
      → IsKept parse until (judge env parse until answer q r w).1
  unfolding judge limit settle
  judge-IsKept q r w (k, o) =
      go (r.status == 429 || (r.status == 503 && has_delay d)) refl
        (leb 200 r.status && ltb r.status 300)
    where
      d : Option ℕ
      d = asked_delay parse until r

      v : World
      v = record w { log = heard w.now r.status r.retry_after ∷ w.log }

      limited : IsKept parse until (limit (wait_for w.gate d) v)
      limited = record {
        least = ground (arith, k.least);
        most = omega arith;
        over = (
          waits parse until r w.gate w.now k.least,
          Over-later parse until w.gate.retry_at (w.now + wait_for w.gate d) w.log
              (omega (arith, o)) k.over,
        );
        respected = k.respected;
      }

      go :
          (x : Bool)
          → (r.status == 429 || (r.status == 503 && has_delay d)) ≡ x
          → (y : Bool)
          → (let s : Outcome Response × World =
                if x
                then (
                  (if q.raise_on_limit
                      then raised (rate_limited (ceil_seconds (wait_for w.gate d)))
                      else ok r),
                  limit (wait_for w.gate d) v,
                )
                else (
                  ok r,
                  if y then record v { gate = record v.gate { delay = first_delay } } else v,
                ) in
              IsKept parse until s.1)
      go true e y = limited
      go false e true = record {
        least = omega arith;
        most = omega arith;
        over = (unasked parse until r w.gate.retry_at w.now e, k.over);
        respected = k.respected;
      }
      go false e false = record {
        least = k.least;
        most = k.most;
        over = (unasked parse until r w.gate.retry_at w.now e, k.over);
        respected = k.respected;
      }

  dispatch-IsOpen :
      (t : Option ℕ) (w : World)
      → IsOpen parse until w
      → IsOpen parse until (dispatch env parse until answer t w)
  unfolding dispatch pass
  dispatch-IsOpen t w (k, o) = (
    record {
      least = k.least;
      most = k.most;
      over = k.over;
      respected = (Over-later parse until w.gate.retry_at w.now w.log o k.over, k.respected);
    },
    omega (arith, o),
  )

  retry-IsKept :
      (q : Request) (t : ℕ) (w : World)
      → IsOpen parse until w
      → IsKept parse until (retry env parse until answer q t w).1
  unfolding retry
  retry-IsKept q t w o = go (answer w.calls)
    where
      v : World
      v = dispatch env parse until answer (some t) w

      p : IsOpen parse until v
      p = dispatch-IsOpen (some t) w o

      go : (r : Reply) → IsKept parse until (second env parse until answer q r v).1
      go (answered r) = judge-IsKept q r v p
      go (refused tls reset) = p.0
      go broken = p.0

  try-IsKept :
      (q : Request) (timeout : Option ℕ) (w : World)
      → IsOpen parse until w
      → IsKept parse until (try env parse until answer q timeout w).1
  unfolding try judge request_timeout retry dispatch pass
  try-IsKept q timeout w o = go (answer w.calls)
    where
      v : World
      v = dispatch env parse until answer timeout w

      p : IsOpen parse until v
      p = dispatch-IsOpen timeout w o

      late :
          (t : ℕ) (x : Bool)
          → (let s : Outcome Response × World =
                if x
                then (raised connection, v)
                else continue
                    (request_timeout (w.now + t - v.now) v)
                    (λ t' u. retry env parse until answer q t' u) in
              IsKept parse until s.1)
      late t true = p.0
      late t false =
          after_timeout (IsKept parse until) (w.now + t - v.now) v
            (λ t' u. retry env parse until answer q t' u) p.0 (λ t' le ends. retry-IsKept q t' v p)

      again : (l : Option ℕ) → IsKept parse until (refused_at env parse until answer q w.now l v).1
      again none = p.0
      again (some t) = late t (leb (w.now + t) v.now)

      refusal :
          (x : Bool)
          → (let s : Outcome Response × World =
                if x
                then (raised connection, v)
                else refused_at env parse until answer q w.now timeout v in
              IsKept parse until s.1)
      refusal true = p.0
      refusal false = again timeout

      go : (r : Reply) → IsKept parse until (first env parse until answer q timeout w.now r v).1
      go (answered r) = judge-IsKept q r v p
      go (refused tls reset) = refusal (not q.retry_read || (tls || not reset))
      go broken = p.0

  pub guarded-IsKept :
      (q : Request) (w : World)
      → IsKept parse until w
      → IsKept parse until (guarded env parse until answer q w).1
  unfolding guarded request_timeout try
  guarded-IsKept q w k = go (ltb w.now w.gate.retry_at) refl
    where
      body :
          (o : Option ℕ)
          → w.gate.retry_at ≤ w.now
          → IsKept parse until (timed env parse until answer q o w).1
      body none e = try-IsKept q none w (k, e)
      body (some timeout) e =
          after_timeout (IsKept parse until) timeout w
            (λ t v. try env parse until answer q (some t) v) k
            (λ t le ends. try-IsKept q (some t) w (k, e))

      go :
          (x : Bool)
          → ltb w.now w.gate.retry_at ≡ x
          → (let s : Outcome Response × World =
                if x
                then (raised (rate_limited (ceil_seconds (w.gate.retry_at - w.now))), w)
                else timed env parse until answer q q.timeout w in
              IsKept parse until s.1)
      go true e = k
      go false e = body q.timeout (ltb→ge w.now w.gate.retry_at e)
