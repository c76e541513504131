-- ===== src/Endpoint/Examples.antt =====
-- A wallbox that answers every line.
use mathlib.Core.Path.{subst}
use goodwe_wallbox_sems_home.Prelude.{
  ℕ, ◌≤◌, Bool, true, false, ◌≡◌, ◌≢◌, refl, sym, ap, inl, inr, none, some, List, [], ◌∷◌, ◌++◌,
  if◌then◌else◌, list_eq, list_eq→neq, drop, length, codes, starts_with, arith,
}
use goodwe_wallbox_sems_home.Endpoint.Address.{
  check_endpoint, local_endpoint, ipv4, octet, of_parts, all_digits, span, is_digit, number, scheme,
}
use goodwe_wallbox_sems_home.Endpoint.Device.{
  Outcome, ok, timed_out, failed, Session, Wallbox, netp, netp_set, sockb, ok_mark, none_answer,
  change, inspect, command, replace, write, confirmed,
}
use goodwe_wallbox_sems_home.Endpoint.Manager.{
  Journal, Answer, World, async_restore, async_activate, io, save, own,
}
use goodwe_wallbox_sems_home.Endpoint.Restored.{restore-completes}
use goodwe_wallbox_sems_home.Endpoint.Cooperative.{IsCooperative}
use goodwe_wallbox_sems_home.Endpoint.Foreign.{change-foreign}
use goodwe_wallbox_sems_home.Endpoint.Accepted.{local_endpoint-accepted}

-- A line without its end.
abbrev line : List ℕ → List ℕ
line [] = []
line (c ∷ []) = []
line (c ∷ d ∷ s) = c ∷ line (d ∷ s)

line-append : (v : List ℕ) → line (v ++ (13 ∷ [])) ≡ v
line-append [] = refl
line-append (c ∷ []) = refl
line-append (c ∷ d ∷ s) = ap (◌∷◌ c) (line-append (d ∷ s))

-- The device is its Socket A; the answer to a write is lost.
abbrev answer_to : List ℕ → Session (List ℕ) (List ℕ)
answer_to value d =
    if starts_with netp_set value
    then (timed_out, drop 8 value)
    else if list_eq value netp
    then (ok (ok_mark ++ d), d)
    else if list_eq value sockb
    then (ok none_answer, d)
    else (ok (codes "+ok=on"), d)

abbrev line_answer : List ℕ → Session (List ℕ) (List ℕ)
line_answer p d = answer_to (line p) d

read_keeps : (value d : List ℕ) → starts_with netp_set value ≡ false → (answer_to value d).1 ≡ d
read_keeps value d h = rw h (go (list_eq value netp) (list_eq value sockb))
  where
    go :
        (x y : Bool)
        → (let r : Outcome (List ℕ) × List ℕ =
              if x
              then (ok (ok_mark ++ d), d)
              else if y
              then (ok none_answer, d)
              else (ok (codes "+ok=on"), d) in
            r.1 ≡ d)
    go true y = refl
    go false true = refl
    go false false = refl

answered : (d answer : List ℕ) → (answer_to netp d).0 ≡ ok answer → answer ≡ ok_mark ++ d
answered d answer h = ground (arith, h)

abbrev wallbox : Wallbox (List ℕ)
wallbox = record {
  socket_a = λ d. d;
  start = λ d. (ok tt, d);
  raw = line_answer;
  close = λ d. d;
  socket_a-start = λ d. refl;
  socket_a-close = λ d. refl;
  socket_a-read = λ value d h.
      subst (λ v. (answer_to v d).1 ≡ d) (sym (line-append value)) (read_keeps value d h);
  socket_a-write = λ target d.
      inr (subst (λ v. (answer_to v d).1 ≡ target) (sym (line-append (netp_set ++ target))) refl);
  read_true = answered;
}

cooperates : IsCooperative wallbox
cooperates = record {
  starts = λ d. refl;
  names = λ d. refl;
  single = λ d. refl;
  takes = λ t d. subst (λ v. (answer_to v d).1 ≡ t) (sym (line-append (netp_set ++ t))) refl;
  survives = λ t d.
      subst (λ v. (answer_to v d).0 ≢ failed) (sym (line-append (netp_set ++ t)))
        (λ e. ground (arith, e));
}

abbrev home : List ℕ
home = codes "TCP,Client,30001,cloud.example,TLS"

abbrev here : List ℕ
here = codes "TCP,Client,8899,192.168.1.20"

here_is_local : local_endpoint (codes "192.168.1.20") 8899 ≡ some here
unfolding local_endpoint ipv4 octet of_parts all_digits
here_is_local = refl

leading_zero : local_endpoint (codes "192.168.01.20") 8899 ≡ none
unfolding local_endpoint ipv4 octet of_parts all_digits
leading_zero = refl

home_is_valid : check_endpoint home ≡ true
unfolding check_endpoint
home_is_valid = refl

no_zero_port : check_endpoint (codes "TCP,Client,0,cloud.example") ≡ false
unfolding check_endpoint
no_zero_port = refl

abbrev peer : List ℕ
peer = codes "192.168.1.30"

abbrev serial : List ℕ
serial = codes "97000ABC"

abbrev fresh : World (List ℕ)
fresh = record {
  device = home;
  store = none;
  manager = record { peer = peer; serial = serial; local = here; journal = none };
  awaits = 0;
}

abbrev env : ℕ → Answer
env n = record { cancelled = false; kept = true; raised = false }

redirected : (async_activate wallbox env fresh).1.device ≡ here
unfolding io save async_activate own inspect command change replace write confirmed check_endpoint
redirected = refl

abbrev journal : Journal
journal = record { peer = peer; serial = serial; local = here; original = home }

abbrev away : World (List ℕ)
away = record fresh {
  device = here;
  store = some journal;
  manager = record { peer = peer; serial = serial; local = here; journal = some journal };
}

restore-completes_example :
    let r = async_restore wallbox env away in
    (r.0 ≡ ok tt)
    × (wallbox.socket_a r.1.device ≡ journal.original)
    × (r.1.store ≡ none)
    × (r.1.manager.journal ≡ none)
restore-completes_example =
    restore-completes wallbox env journal away cooperates (λ n. (refl, refl, refl)) refl
      home_is_valid (inl refl)

abbrev stranger : List ℕ
stranger = codes "TCP,Client,502,10.0.0.9"

change-foreign_example :
    (wallbox.socket_a (change wallbox here home stranger).1 ≡ wallbox.socket_a stranger)
    × ((change wallbox here home stranger).0 ≢ ok tt)
change-foreign_example =
    change-foreign wallbox here home stranger (list_eq→neq stranger here refl)
      (list_eq→neq stranger home refl)

local_endpoint-accepted_example :
    (check_endpoint here ≡ true)
    × (number 0 (span is_digit (drop (length scheme) here)).0 ≡ 8899)
    × (1024 ≤ 8899)
    × (8899 ≤ 65535)
local_endpoint-accepted_example =
    local_endpoint-accepted (codes "192.168.1.20") 8899 here here_is_local
