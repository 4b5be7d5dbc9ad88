-- ===== src/Network/Urls.antt =====
-- validate_target_url: scheme, host, port and path of a URL that may be requested.
use ai_cyber_security_suite.Prelude.{
  ℕ, ◌<◌, ◌≡◌, ◌⊎◌, refl, Bool, true, false, not, ◌||◌, Option, none, some, List, [], ◌∷◌, ◌++◌,
  if◌then◌else◌, ◌==◌, arith, get_or,
}
use ai_cyber_security_suite.Containment.Allowlist.{codes, text_eq}
use ai_cyber_security_suite.Network.{
  Address, Library, is_blocked_ip, Checked, ok, refused, ◌>>=◌, ◌>>◌, refuse_if, is_empty_text,
  starts_with, Port, default_port, bad_port, port_number, Parsed, empty_url, unsupported_scheme,
  malformed_url, has_credentials, prohibited_scheme, no_hostname, invalid_port, blocked_address,
}
use ai_cyber_security_suite.Network.Hosts.{integer_address}

-- (scheme, hostname, port, path_and_query)
pub record Target : Type 0 where
  pub scheme : List ℕ
  pub hostname : List ℕ
  pub port : ℕ
  pub path_and_query : List ℕ

abbrev pub http : List ℕ
http = codes "http"

abbrev pub https : List ℕ
https = codes "https"

-- Is a text given, and not empty?
abbrev pub is_given : Option (List ℕ) → Bool
is_given none = false
is_given (some s) = not (is_empty_text s)

abbrev pub is_http : List ℕ → Bool
is_http scheme = text_eq scheme http || text_eq scheme https

-- `parsed.port or (443 if scheme == "https" else 80)`: port 0 is the default too.
abbrev pub port_of : List ℕ → Port → Checked ℕ
port_of scheme bad_port = refused invalid_port
port_of scheme default_port = ok (if text_eq scheme https then 443 else 80)
port_of scheme (port_number n) =
    ok (if n == 0 then (if text_eq scheme https then 443 else 80) else n)

abbrev pub is_blocked_literal : Library → Option Address → Bool
is_blocked_literal l none = false
is_blocked_literal l (some a) = is_blocked_ip l a

abbrev pub path_of : Parsed → List ℕ
path_of p =
    let path = (if is_empty_text p.path then codes "/" else p.path) in
    if is_empty_text p.query then path else path ++ b'?' ∷ p.query

-- The end of validate_target_url: the host's literal forms are tested, and the target is returned.
abbrev pub test_literals : Library → Parsed → List ℕ → List ℕ → ℕ → Checked Target
test_literals l p scheme hostname port = do
  refuse_if (is_blocked_literal l (integer_address l hostname)) blocked_address
  refuse_if (is_blocked_literal l (l.ip_address hostname)) blocked_address
  ok (record { scheme = scheme; hostname = hostname; port = port; path_and_query = path_of p })

abbrev pub scheme_of : Library → Parsed → List ℕ
scheme_of l p = l.lower p.scheme

abbrev pub host_of : Library → Parsed → List ℕ
host_of l p = l.lower (l.strip (get_or p.hostname []))

abbrev pub validate_parsed : Library → Option Parsed → Checked Target
validate_parsed l none = refused malformed_url
validate_parsed l (some p) = do
  refuse_if (is_given p.username || is_given p.password) has_credentials
  refuse_if (not (is_http (scheme_of l p))) prohibited_scheme
  refuse_if (is_empty_text (host_of l p)) no_hostname
  port ← port_of (scheme_of l p) p.port
  test_literals l p (scheme_of l p) (host_of l p) port

-- `url.startswith(("http://", "https://"))`
abbrev pub is_web : List ℕ → Bool
is_web url = starts_with (codes "http://") url || starts_with (codes "https://") url

unfoldable pub validate_target_url : Library → List ℕ → Checked Target
validate_target_url l url = do
  refuse_if (is_empty_text url) empty_url
  refuse_if (not (is_web (l.strip url))) unsupported_scheme
  validate_parsed l (l.urlparse (l.strip url))

-- What an accepted URL is.
pub record IsAcceptable (l : Library) (p : Parsed) (t : Target) : Type 0 where
  pub same_scheme : t.scheme ≡ scheme_of l p
  pub same_host : t.hostname ≡ host_of l p
  pub no_username : is_given p.username ≡ false
  pub no_password : is_given p.password ≡ false
  pub of_http : (t.scheme ≡ http) ⊎ (t.scheme ≡ https)
  pub has_host : is_empty_text t.hostname ≡ false
  pub has_port : 0 < t.port
  pub has_path : is_empty_text t.path_and_query ≡ false
  pub no_blocked_integer : is_blocked_literal l (integer_address l t.hostname) ≡ false
  pub no_blocked_literal : is_blocked_literal l (l.ip_address t.hostname) ≡ false

pub text_eq_sound : (s t : List ℕ) → text_eq s t ≡ true → s ≡ t
text_eq_sound [] [] h = refl
text_eq_sound [] (d ∷ t) h = cc
text_eq_sound (c ∷ s) [] h = cc
text_eq_sound (c ∷ s) (d ∷ t) h = ground (arith, text_eq_sound s t)
