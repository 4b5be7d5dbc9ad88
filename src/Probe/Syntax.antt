-- ===== src/Probe/Syntax.antt =====
-- _get_allowed_ports, _validate_url_syntax and _is_octal_ip: the tests on a URL of the chain.
use ai_cyber_security_suite.Prelude.{
  ℕ, ◌^◌, ◌≡◌, Bool, false, not, ◌||◌, ◌&&◌, Option, none, some, List, [], ◌∷◌, if◌then◌else◌, ltb,
  leb, ◌==◌, any, length, mem, keep, map,
}
use ai_cyber_security_suite.Network.{
  Address, ipv4, quad, Library, is_blocked_ip, is_blocked_text, Checked, ok, refused, is_empty_text,
  starts_with, split, Parsed, SsrfError, empty_url, url_too_long, has_credentials, prohibited_port,
  blocked_address,
}
use ai_cyber_security_suite.Network.Urls.{Target, is_given, validate_target_url}

abbrev pub max_url_length : ℕ
max_url_length = 2048

abbrev pub default_allowed_ports : List ℕ
default_allowed_ports = 80 ∷ 443 ∷ []

abbrev pub if_any : List ℕ → List ℕ
if_any [] = default_allowed_ports
if_any (p ∷ ps) = p ∷ ps

-- Of MONITORING_ALLOWED_PORTS, which is empty where it is not set.
unfoldable pub get_allowed_ports : Library → List ℕ → List ℕ
get_allowed_ports l env =
    if is_empty_text (l.strip env)
    then default_allowed_ports
    else if_any (map l.decimal_of (keep l.is_digit (map l.strip (split b',' env))))

-- `[int(p, 8) for p in parts]`, none where one raises.
abbrev pub octals : Library → List (List ℕ) → Option (List ℕ)
octals l [] = some []
octals l (p ∷ ps) = elim (l.octal_of p) [
  | none ↦ none
  | some n ↦ elim (octals l ps) [ none ↦ none | some ns ↦ some (n ∷ ns) ]
]

-- The address of four octets.
abbrev pub octet_address : Option (List ℕ) → Option Address
octet_address (some (a ∷ b ∷ c ∷ d ∷ [])) =
    if leb a 255 && (leb b 255 && (leb c 255 && leb d 255))
    then some (ipv4 (quad a b c d))
    else none
octet_address _ = none

abbrev pub all_digits : Library → List (List ℕ) → Bool
all_digits l ps = not (any (λ p. not (l.is_digit p)) ps)

-- `p.startswith("0") and len(p) > 1`
abbrev pub has_leading_zero : List ℕ → Bool
has_leading_zero p = starts_with (b'0' ∷ []) p && ltb 1 (length p)

-- A whole host as one octal number in range.
abbrev pub octal_number : Option ℕ → Option Address
octal_number none = none
octal_number (some n) = if ltb n (2 ^ 32) then some (ipv4 n) else none

abbrev pub blocked_number : Library → Option Address → Bool
blocked_number l none = false
blocked_number l (some a) = is_blocked_ip l a

abbrev pub octal_or : Library → Option Address → Bool → Bool
octal_or l none other = other
octal_or l (some a) other = is_blocked_text l (l.show a)

unfoldable pub is_octal_ip : Library → List ℕ → Bool
is_octal_ip l host =
    let parts = split b'.' host in
    octal_or l
      (if all_digits l parts && any has_leading_zero parts
        then octet_address (octals l parts)
        else none)
      (has_leading_zero host
        && l.is_digit host
        && blocked_number l (octal_number (l.octal_of host)))

-- `raises` is a ValueError of urlparse, which is not caught.
pub data Validation : Type 0 where
  valid : Target → Validation
  invalid : SsrfError → Validation
  raises : Validation

pub valid-ne-invalid {ℓ} : {C : Type ℓ} {t : Target} {e : SsrfError} → invalid e ≡ valid t → C
valid-ne-invalid h = absurd (cc)

abbrev pub with_target : Library → List ℕ → Checked Target → Validation
with_target l ports (refused e) = invalid e
with_target l ports (ok t) =
    if not (mem t.port ports)
    then invalid prohibited_port
    else if is_octal_ip l t.hostname
    then invalid blocked_address
    else valid t

abbrev pub has_userinfo : Parsed → Bool
has_userinfo p = is_given p.username || (is_given p.password || any (λ c. c == b'@') p.netloc)

abbrev pub with_parsed : Library → List ℕ → List ℕ → Option Parsed → Validation
with_parsed l ports url none = raises
with_parsed l ports url (some p) =
    if has_userinfo p
    then invalid has_credentials
    else with_target l ports (validate_target_url l url)

unfoldable pub validate_url_syntax : Library → List ℕ → List ℕ → Validation
unfolding is_octal_ip
validate_url_syntax l ports url =
    if is_empty_text url
    then invalid empty_url
    else if ltb max_url_length (length (l.strip url))
    then invalid url_too_long
    else with_parsed l ports (l.strip url) (l.urlparse (l.strip url))
