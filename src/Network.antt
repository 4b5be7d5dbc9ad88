-- ===== src/Network.antt =====
-- Addresses that outbound requests may not reach, backend/core/security_network.py. The library's
-- functions on texts, addresses and URLs that the code calls are one argument, `Library`; scope ids of
-- IPv6 addresses are left out.
pub mod Ranges
pub mod Hosts
pub mod Urls
pub mod Names
pub mod Sample
mod Examples
use ai_cyber_security_suite.Prelude.{
  ℕ, ◌+◌, ◌-◌, ◌*◌, ◌/◌, ◌%◌, ◌^◌, Bool, true, false, ◌||◌, Option, none, some, List, [], ◌∷◌,
  if◌then◌else◌, ◌==◌, any, ◌≡◌, refl,
}

-- An address as the number that `ipaddress` holds, below 2 ^ 32 or 2 ^ 128.
pub data Address : Type 0 where
  ipv4 ipv6 : ℕ → Address

-- A network by its address and the length of its prefix.
pub data Network : Type 0 where
  net4 net6 : ℕ → ℕ → Network

abbrev pub quad : ℕ → ℕ → ℕ → ℕ → ℕ
quad a b c d = a * 2 ^ 24 + b * 2 ^ 16 + c * 2 ^ 8 + d

-- `ip in net`: the same version, and the prefix's bits.
abbrev pub contains : Address → Network → Bool
contains (ipv4 a) (net4 base prefix) = a / 2 ^ (32 - prefix) == base / 2 ^ (32 - prefix)
contains (ipv6 a) (net6 base prefix) = a / 2 ^ (128 - prefix) == base / 2 ^ (128 - prefix)
contains _ _ = false

abbrev pub blocked_networks : List Network
blocked_networks =
    net4 (quad 0 0 0 0) 8
    ∷ net4 (quad 10 0 0 0) 8
    ∷ net4 (quad 100 64 0 0) 10
    ∷ net4 (quad 127 0 0 0) 8
    ∷ net4 (quad 169 254 0 0) 16
    ∷ net4 (quad 172 16 0 0) 12
    ∷ net4 (quad 192 0 0 0) 24
    ∷ net4 (quad 192 0 2 0) 24
    ∷ net4 (quad 192 168 0 0) 16
    ∷ net4 (quad 198 18 0 0) 15
    ∷ net4 (quad 198 51 100 0) 24
    ∷ net4 (quad 203 0 113 0) 24
    ∷ net4 (quad 224 0 0 0) 4
    ∷ net4 (quad 240 0 0 0) 4
    ∷ net4 (quad 255 255 255 255) 32
    ∷ net6 0 128
    ∷ net6 1 128
    ∷ net6 (0xffff * 2 ^ 32) 96
    ∷ net6 (0x64 * 2 ^ 112 + 0xff9b * 2 ^ 96) 96
    ∷ net6 (0x100 * 2 ^ 112) 64
    ∷ net6 (0x2001 * 2 ^ 112 + 0xdb8 * 2 ^ 96) 32
    ∷ net6 (0xfc00 * 2 ^ 112) 7
    ∷ net6 (0xfe80 * 2 ^ 112) 10
    ∷ net6 (0xff00 * 2 ^ 112) 8
    ∷ []

-- `parsed.port`: none, a number, or the ValueError.
pub data Port : Type 0 where
  default_port bad_port : Port
  port_number : ℕ → Port

-- What `urlparse` makes of a URL; an absent text is none.
pub record Parsed : Type 0 where
  pub scheme : List ℕ
  pub netloc : List ℕ
  pub username : Option (List ℕ)
  pub password : Option (List ℕ)
  pub hostname : Option (List ℕ)
  pub port : Port
  pub path : List ℕ
  pub query : List ℕ

-- `int_of` is int(text, 0), `octal_of` int(text, 8), `decimal_of` int of a text of digits, `ip_address`
-- the parser of ipaddress and `show` the str of an address; none is an exception. The last six are the
-- flags of an address.
pub record Library : Type 0 where
  pub strip : List ℕ → List ℕ
  pub lower : List ℕ → List ℕ
  pub is_digit : List ℕ → Bool
  pub int_of : List ℕ → Option ℕ
  pub octal_of : List ℕ → Option ℕ
  pub decimal_of : List ℕ → ℕ
  pub ip_address : List ℕ → Option Address
  pub show : Address → List ℕ
  pub urlparse : List ℕ → Option Parsed
  pub urljoin : List ℕ → List ℕ → Option (List ℕ)
  pub decode : List ℕ → List ℕ
  pub is_private : Address → Bool
  pub is_loopback : Address → Bool
  pub is_link_local : Address → Bool
  pub is_multicast : Address → Bool
  pub is_reserved : Address → Bool
  pub is_unspecified : Address → Bool

-- An IPv4-mapped address is its IPv4 address: `ip.ipv4_mapped or ip`.
abbrev pub unwrap : Address → Address
unwrap (ipv4 a) = ipv4 a
unwrap (ipv6 a) = if a / 2 ^ 32 == 0xffff then ipv4 (a % 2 ^ 32) else ipv6 a

abbrev pub has_flag : Library → Address → Bool
has_flag l a =
    l.is_private a
    || (l.is_loopback a
        || (l.is_link_local a || (l.is_multicast a || (l.is_reserved a || l.is_unspecified a))))

abbrev pub is_listed : Address → Bool
is_listed a = any (contains a) blocked_networks

abbrev pub is_restricted : Library → Address → Bool
is_restricted l a = if has_flag l a then true else is_listed a

-- Of an address that is parsed.
unfoldable pub is_blocked_ip : Library → Address → Bool
is_blocked_ip l a = is_restricted l (unwrap a)

abbrev pub blocked_if_parsed : Library → Option Address → Bool
blocked_if_parsed l none = true
blocked_if_parsed l (some a) = is_blocked_ip l a

-- Of a text: what is no address is blocked.
unfoldable pub is_blocked_text : Library → List ℕ → Bool
is_blocked_text l text = blocked_if_parsed l (l.ip_address (l.strip text))

pub data SsrfError : Type 0 where
  empty_url unsupported_scheme malformed_url has_credentials prohibited_scheme : SsrfError
  no_hostname invalid_port blocked_address url_too_long prohibited_port : SsrfError
  empty_hostname dns_timed_out dns_failed no_records blocked_record : SsrfError
  no_public_address : SsrfError

pub data Checked {ℓ} (A : Type ℓ) : Type ℓ where
  ok : A → Checked A
  refused : SsrfError → Checked A

infixl 5 ◌>>=◌ ◌>>◌
abbrev pub ◌>>=◌ {ℓ κ} : {A : Type ℓ} {B : Type κ} → Checked A → (A → Checked B) → Checked B
ok a >>= f = f a
refused e >>= f = refused e

abbrev pub ◌>>◌ {ℓ} : {B : Type ℓ} → Checked (Unit {0}) → Checked B → Checked B
m >> k = m >>= λ _. k

-- `if test: raise SSRFSecurityError(...)`
abbrev pub refuse_if : Bool → SsrfError → Checked (Unit {0})
refuse_if true e = refused e
refuse_if false e = ok tt

abbrev pub is_empty_text : List ℕ → Bool
is_empty_text [] = true
is_empty_text (c ∷ s) = false

abbrev pub starts_with : List ℕ → List ℕ → Bool
starts_with [] s = true
starts_with (c ∷ p) [] = false
starts_with (c ∷ p) (d ∷ s) = if c == d then starts_with p s else false

abbrev pub first_part : ℕ → List (List ℕ) → List (List ℕ)
first_part c [] = (c ∷ []) ∷ []
first_part c (p ∷ ps) = (c ∷ p) ∷ ps

-- `text.split(sep)` at one character.
abbrev pub split : ℕ → List ℕ → List (List ℕ)
split sep [] = [] ∷ []
split sep (c ∷ s) = let rest = split sep s in if c == sep then [] ∷ rest else first_part c rest

pub ok_inj {ℓ} : {A : Type ℓ} {a b : A} → Checked.ok a ≡ Checked.ok b → a ≡ b
ok_inj h = cc

pub ok-ne-refused {ℓ κ} :
    {A : Type ℓ} {C : Type κ} {a : A} {e : SsrfError} → refused e ≡ Checked.ok a → C
ok-ne-refused h = absurd (cc)

-- What a chain that succeeds has passed.
pub refuse_if-inv {ℓ} :
    {A : Type ℓ} (b : Bool) (e : SsrfError) (k : Checked A) {a : A}
    → (refuse_if b e >> k) ≡ ok a
    → (b ≡ false) × (k ≡ ok a)
refuse_if-inv true e k h = ok-ne-refused h
refuse_if-inv false e k h = (refl, h)

pub >>=-inv {ℓ κ} :
    {A : Type ℓ} {B : Type κ} (m : Checked A) (f : A → Checked B) {b : B}
    → (m >>= f) ≡ ok b
    → (a : A) × (m ≡ ok a) × (f a ≡ ok b)
>>=-inv (ok a) f h = (a, refl, h)
>>=-inv (refused e) f h = ok-ne-refused h
