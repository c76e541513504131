-- ===== src/Endpoint/Accepted.antt =====
-- The endpoint that the manager asks for is one that `check_endpoint` lets through.
use mathlib.Core.Path.{subst}
use goodwe_wallbox_sems_home.Prelude.{
  ℕ, ◌≤◌, Bool, true, false, not, ◌&&◌, ◌||◌, ◌≡◌, refl, sym, ap, ◌∙◌, inl, inr, Option, none, some,
  List, [], ◌∷◌, ◌++◌, if◌then◌else◌, length, leb, ltb, drop, Bool-cases, arith, All, All-append,
  append-nil, le→leb,
}
use goodwe_wallbox_sems_home.Endpoint.Address.{
  Ipv4, is_digit, is_host, span, number, scheme, check_endpoint, print_octet, print_port,
  print_ipv4, endpoint_for, local_endpoint, ipv4, octet, join, of_parts, dotted, is_unspecified,
  is_multicast, is_loopback,
}

abbrev IsDigit : ℕ → Type 0
IsDigit c = is_digit c ≡ true

abbrev IsHost : ℕ → Type 0
IsHost c = is_host c ≡ true

span-All :
    (p : ℕ → Bool) (xs ys : List ℕ)
    → All (λ c. p c ≡ true) xs
    → ((c : ℕ) (r : List ℕ) → ys ≡ c ∷ r → p c ≡ false)
    → span p (xs ++ ys) ≡ (xs, ys)
span-All p [] [] a n = refl
span-All p [] (c ∷ r) a n = rw (n c r refl) refl
span-All p (x ∷ xs) ys a n = rw a.0 (rw (span-All p xs ys a.1 n) refl)

print_octet-IsHost : (n : ℕ) → n ≤ 255 → All IsHost (print_octet n)
print_octet-IsHost n h = ground arith

print_port-IsDigit : (n : ℕ) → n ≤ 65535 → 1024 ≤ n → All IsDigit (print_port n)
print_port-IsDigit n h l = ground arith

number-print_port : (n : ℕ) → n ≤ 65535 → 1024 ≤ n → number 0 (print_port n) ≡ n
number-print_port n h l = ground arith

octet-bound : (s : List ℕ) (n : ℕ) → octet s ≡ some n → n ≤ 255
unfolding octet
octet-bound [] n h = absurd (ground (arith, h))
octet-bound (c ∷ s) n h = ground (arith, h)

record IsBounded (ip : Ipv4) : Type 0 where
  pub a : ip.a ≤ 255
  pub b : ip.b ≤ 255
  pub c : ip.c ≤ 255
  pub d : ip.d ≤ 255

join-IsBounded :
    (a b c d : Option ℕ) (ip : Ipv4)
    → ((n : ℕ) → a ≡ some n → n ≤ 255)
    → ((n : ℕ) → b ≡ some n → n ≤ 255)
    → ((n : ℕ) → c ≡ some n → n ≤ 255)
    → ((n : ℕ) → d ≡ some n → n ≤ 255)
    → join a b c d ≡ some ip
    → IsBounded ip
join-IsBounded (some a) (some b) (some c) (some d) ip ha hb hc hd h =
    subst IsBounded (ground (arith, h))
      (record { a = ha a refl; b = hb b refl; c = hc c refl; d = hd d refl })
join-IsBounded none b c d ip ha hb hc hd h = absurd (ground (arith, h))
join-IsBounded (some a) none c d ip ha hb hc hd h = absurd (ground (arith, h))
join-IsBounded (some a) (some b) none d ip ha hb hc hd h = absurd (ground (arith, h))
join-IsBounded (some a) (some b) (some c) none ip ha hb hc hd h = absurd (ground (arith, h))

of_parts-IsBounded : (p : List ℕ × List (List ℕ)) (ip : Ipv4) → of_parts p ≡ some ip → IsBounded ip
unfolding of_parts
of_parts-IsBounded (a, b ∷ c ∷ d ∷ []) ip h =
    join-IsBounded (octet a) (octet b) (octet c) (octet d) ip (octet-bound a) (octet-bound b)
      (octet-bound c) (octet-bound d) h
of_parts-IsBounded (a, []) ip h = absurd (ground (arith, h))
of_parts-IsBounded (a, b ∷ []) ip h = absurd (ground (arith, h))
of_parts-IsBounded (a, b ∷ c ∷ []) ip h = absurd (ground (arith, h))
of_parts-IsBounded (a, b ∷ c ∷ d ∷ e ∷ r) ip h = absurd (ground (arith, h))

print_ipv4-IsHost : (ip : Ipv4) → IsBounded ip → All IsHost (print_ipv4 ip)
print_ipv4-IsHost ip k = join_with (print_octet ip.a) _ (print_octet-IsHost ip.a k.a) (
    join_with (print_octet ip.b) _ (print_octet-IsHost ip.b k.b)
      (join_with (print_octet ip.c) _ (print_octet-IsHost ip.c k.c) (print_octet-IsHost ip.d k.d)))
  where
    join_with : (xs ys : List ℕ) → All IsHost xs → All IsHost ys → All IsHost (xs ++ (46 ∷ ys))
    join_with xs ys hx hy = All-append IsHost xs (46 ∷ ys) hx (refl, hy)

print_port-length : (n : ℕ) → (1 ≤ length (print_port n)) × (length (print_port n) ≤ 5)
print_port-length n = ground arith

print_ipv4-length : (ip : Ipv4) → 1 ≤ length (print_ipv4 ip)
print_ipv4-length ip = elim (Bool-cases (ltb ip.a 10)) [
  | inl e ↦ rw e (omega arith)
  | inr e ↦ elim (Bool-cases (ltb ip.a 100)) [
    | inl f ↦ rw e (rw f (omega arith))
    | inr f ↦ rw e (rw f (omega arith))
  ]
]

span_port :
    (port : ℕ) (ys : List ℕ)
    → port ≤ 65535
    → 1024 ≤ port
    → span is_digit (print_port port ++ (44 ∷ ys)) ≡ (print_port port, 44 ∷ ys)
span_port port ys h l =
    span-All is_digit (print_port port) (44 ∷ ys) (print_port-IsDigit port h l)
      (λ c r e. comma c r e)
  where
    comma : (c : ℕ) (r : List ℕ) → 44 ∷ ys ≡ c ∷ r → is_digit c ≡ false
    comma c r e = ground (arith, e)

span_host : (ip : Ipv4) → IsBounded ip → span is_host (print_ipv4 ip) ≡ (print_ipv4 ip, [])
span_host ip k =
    ap (span is_host) (sym (append-nil (print_ipv4 ip)))
    ∙ span-All is_host (print_ipv4 ip) [] (print_ipv4-IsHost ip k)
        (λ c r e. absurd (ground (arith, e)))

-- An endpoint that `local_endpoint` makes from an address and a port passes `check_endpoint`, and
-- its port field is the given port, which is between 1024 and 65535.
pub local_endpoint-accepted :
    (address : List ℕ) (port : ℕ) (value : List ℕ)
    → local_endpoint address port ≡ some value
    → (check_endpoint value ≡ true)
      × (number 0 (span is_digit (drop (length scheme) value)).0 ≡ port)
      × (1024 ≤ port)
      × (port ≤ 65535)
unfolding local_endpoint ipv4 check_endpoint
local_endpoint-accepted address port value h =
    go (of_parts (dotted address)) (λ ip e. of_parts-IsBounded (dotted address) ip e) h
  where
    Accepted : List ℕ → Type 0
    Accepted v =
        (check_endpoint v ≡ true)
        × (number 0 (span is_digit (drop (length scheme) v)).0 ≡ port)
        × (1024 ≤ port)
        × (port ≤ 65535)

    printed :
        (ip : Ipv4)
        → IsBounded ip
        → 1024 ≤ port
        → port ≤ 65535
        → Accepted (scheme ++ (print_port port ++ (44 ∷ print_ipv4 ip)))
    printed ip k l u =
        let p = print_port-length port in
        let n = number-print_port port u l in
        rw (span_port port (print_ipv4 ip) u l) (
          rw (span_host ip k) (
            rw n (
              rw (le→leb 1 _ p.0) (
                  rw (le→leb _ 5 p.1) (
                    rw (le→leb 1 _ (print_ipv4-length ip))
                      (rw (le→leb 1 port (omega (arith, l))) (rw (le→leb port 65535 u) refl)))),
              refl,
              l,
              u,
            )))

    go :
        (o : Option Ipv4)
        → ((ip : Ipv4) → o ≡ some ip → IsBounded ip)
        → endpoint_for port o ≡ some value
        → Accepted value
    go none k e = absurd (ground (arith, e))
    go (some ip) k e =
        choose (is_unspecified ip || (is_multicast ip || is_loopback ip))
          (leb 1024 port && leb port 65535) refl e
      where
        choose :
            (x y : Bool)
            → (leb 1024 port && leb port 65535) ≡ y
            → (let v : List ℕ = scheme ++ (print_port port ++ (44 ∷ print_ipv4 ip)) in
                (if x then none else if not y then none else some v) ≡ some value)
            → Accepted value
        choose true y f g = absurd (ground (arith, g))
        choose false false f g = absurd (ground (arith, g))
        choose false true f g =
            subst Accepted {x = scheme ++ (print_port port ++ (44 ∷ print_ipv4 ip))} {y = value}
              (ground (arith, g)) (printed ip (k ip refl) (ground (arith, f)) (ground (arith, f)))
