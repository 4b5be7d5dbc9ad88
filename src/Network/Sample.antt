-- ===== src/Network/Sample.antt =====
-- A small library for examples: an address is written as its version and its number, and a URL is one
-- of https at the host "a.io" without a port, whose path is the URL.
use ai_cyber_security_suite.Prelude.{
  ℕ, ◌≡◌, refl, false, Option, none, some, List, [], ◌∷◌, if◌then◌else◌, ◌==◌,
}
use ai_cyber_security_suite.Containment.Allowlist.{codes}
use ai_cyber_security_suite.Network.{Address, ipv4, ipv6, quad, Library, Parsed, default_port}

abbrev read : List ℕ → Option Address
read (v ∷ n ∷ []) = if v == 4 then some (ipv4 n) else if v == 6 then some (ipv6 n) else none
read _ = none

abbrev show : Address → List ℕ
show (ipv4 n) = 4 ∷ n ∷ []
show (ipv6 n) = 6 ∷ n ∷ []

abbrev pub parsed : List ℕ → Parsed
parsed url = record {
  scheme = codes "https";
  netloc = codes "a.io";
  username = none;
  password = none;
  hostname = some (codes "a.io");
  port = default_port;
  path = url;
  query = [];
}

abbrev pub sample : Library
sample = record {
  strip = λ s. s;
  lower = λ s. s;
  is_digit = λ s. false;
  int_of = λ s. none;
  octal_of = λ s. none;
  decimal_of = λ s. 0;
  ip_address = read;
  show = show;
  urlparse = λ url. some (parsed url);
  urljoin = λ base location. some location;
  decode = λ s. s;
  is_private = λ a. false;
  is_loopback = λ a. false;
  is_link_local = λ a. false;
  is_multicast = λ a. false;
  is_reserved = λ a. false;
  is_unspecified = λ a. false;
}

pub sample-reads : (a : Address) → sample.ip_address (sample.strip (sample.show a)) ≡ some a
sample-reads (ipv4 n) = refl
sample-reads (ipv6 n) = refl

abbrev pub resolver : List ℕ
resolver = 4 ∷ quad 8 8 8 8 ∷ []

abbrev pub metadata : List ℕ
metadata = 4 ∷ quad 169 254 169 254 ∷ []
