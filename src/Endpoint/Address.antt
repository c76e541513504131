-- ===== src/Endpoint/Address.antt =====
-- `local_endpoint` and `check_endpoint` of native_endpoint.py. Texts are lists of code points.
use goodwe_wallbox_sems_home.Prelude.{
  ℕ, ◌+◌, ◌-◌, ◌*◌, ◌/◌, ◌%◌, Bool, true, false, not, ◌&&◌, ◌||◌, Option, none, some, List, [], ◌∷◌,
  ◌++◌, leb, ltb, ◌==◌, if◌then◌else◌, list_eq, length, drop, codes, starts_with,
}

abbrev pub is_digit : ℕ → Bool
is_digit c = leb 48 c && leb c 57

-- The class `[A-Za-z0-9.-]`.
abbrev pub is_host : ℕ → Bool
is_host c =
    is_digit c || ((leb 65 c && leb c 90) || ((leb 97 c && leb c 122) || (c == 46 || c == 45)))

-- The longest start of a text whose characters satisfy a test, and what follows it.
abbrev pub span : (ℕ → Bool) → List ℕ → List ℕ × List ℕ
span p [] = ([], [])
span p (c ∷ s) = if p c then (c ∷ (span p s).0, (span p s).1) else ([], c ∷ s)

-- `int(digits)`.
abbrev pub number : ℕ → List ℕ → ℕ
number n [] = n
number n (c ∷ s) = number (n * 10 + (c - 48)) s

abbrev pub scheme : List ℕ
scheme = codes "TCP,Client,"

-- `(?:,TLS)?` and the end of the text.
abbrev pub is_end : List ℕ → Bool
is_end [] = true
is_end (c ∷ s) = list_eq (c ∷ s) (codes ",TLS")

-- What follows the port: a comma, a host and the end.
abbrev pub is_host_part : List ℕ → Bool
is_host_part [] = false
is_host_part (c ∷ s) = let h = span is_host s in c == 44 && (leb 1 (length h.0) && is_end h.1)

unfoldable pub check_endpoint : List ℕ → Bool
check_endpoint value =
    let d = span is_digit (drop (length scheme) value) in
    starts_with scheme value
    && (leb 1 (length d.0)
        && (leb (length d.0) 5
            && (is_host_part d.1 && (leb 1 (number 0 d.0) && leb (number 0 d.0) 65535))))

-- An `ipaddress.IPv4Address`.
pub record Ipv4 : Type 0 where
  pub a : ℕ
  pub b : ℕ
  pub c : ℕ
  pub d : ℕ

unfoldable pub all_digits : List ℕ → Bool
all_digits [] = true
all_digits (c ∷ s) = is_digit c && all_digits s

-- An octet of a dotted address: one to three digits, no leading zero, at most 255.
unfoldable pub octet : List ℕ → Option ℕ
unfolding all_digits
octet [] = none
octet (c ∷ s) =
    if all_digits (c ∷ s) && (leb (length s) 2 && (not (c == 48 && leb 1 (length s))))
    then (if leb (number 0 (c ∷ s)) 255 then some (number 0 (c ∷ s)) else none)
    else none

-- `text.split(".")`.
abbrev pub dotted : List ℕ → List ℕ × List (List ℕ)
dotted [] = ([], [])
dotted (c ∷ s) =
    let rest = dotted s in if c == 46 then ([], rest.0 ∷ rest.1) else (c ∷ rest.0, rest.1)

abbrev pub join : Option ℕ → Option ℕ → Option ℕ → Option ℕ → Option Ipv4
join (some a) (some b) (some c) (some d) = some (record { a = a; b = b; c = c; d = d })
join _ _ _ _ = none

unfoldable pub of_parts : List ℕ × List (List ℕ) → Option Ipv4
unfolding octet
of_parts (a, b ∷ c ∷ d ∷ []) = join (octet a) (octet b) (octet c) (octet d)
of_parts _ = none

-- `ipaddress.IPv4Address(address)`, none for its ValueError.
unfoldable pub ipv4 : List ℕ → Option Ipv4
unfolding of_parts
ipv4 address = of_parts (dotted address)

-- The decimal digits of a number below 1000, and below 100000, as `str` prints them.
abbrev pub print_octet : ℕ → List ℕ
print_octet n =
    if ltb n 10
    then (48 + n) ∷ []
    else if ltb n 100
    then (48 + n / 10) ∷ (48 + n % 10) ∷ []
    else (48 + n / 100) ∷ (48 + n / 10 % 10) ∷ (48 + n % 10) ∷ []

abbrev pub print_port : ℕ → List ℕ
print_port n =
    if ltb n 10000
    then (48 + n / 1000) ∷ (48 + n / 100 % 10) ∷ (48 + n / 10 % 10) ∷ (48 + n % 10) ∷ []
    else (48 + n / 10000)
      ∷ (48 + n / 1000 % 10)
      ∷ (48 + n / 100 % 10)
      ∷ (48 + n / 10 % 10)
      ∷ (48 + n % 10)
      ∷ []

abbrev pub print_ipv4 : Ipv4 → List ℕ
print_ipv4 i =
    print_octet i.a ++ (46 ∷ print_octet i.b ++ (46 ∷ print_octet i.c ++ (46 ∷ print_octet i.d)))

abbrev pub is_unspecified : Ipv4 → Bool
is_unspecified i = i.a == 0 && (i.b == 0 && (i.c == 0 && i.d == 0))

abbrev pub is_multicast : Ipv4 → Bool
is_multicast i = leb 224 i.a && leb i.a 239

abbrev pub is_loopback : Ipv4 → Bool
is_loopback i = i.a == 127

-- `local_endpoint` after the address is read; none for a ValueError. The port is an int.
abbrev pub endpoint_for : ℕ → Option Ipv4 → Option (List ℕ)
endpoint_for port none = none
endpoint_for port (some ip) =
    if is_unspecified ip || (is_multicast ip || is_loopback ip)
    then none
    else if not (leb 1024 port && leb port 65535)
    then none
    else some (scheme ++ (print_port port ++ (44 ∷ print_ipv4 ip)))

unfoldable pub local_endpoint : List ℕ → ℕ → Option (List ℕ)
unfolding ipv4
local_endpoint address port = endpoint_for port (ipv4 address)
