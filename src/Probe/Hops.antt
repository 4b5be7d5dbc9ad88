-- ===== src/Probe/Hops.antt =====
-- What a probe connects to, and how it follows redirects.
use ai_cyber_security_suite.Prelude.{
  ℕ, ◌+◌, ◌≤◌, ◌<◌, ◌≡◌, refl, inl, inr, Bool, true, false, Option, none, some, List, [], ◌∷◌,
  if◌then◌else◌, leb, ltb, any, length, mem, All, arith, Bool-cases, clash,
}
use ai_cyber_security_suite.Containment.Allowlist.{text_eq}
use ai_cyber_security_suite.Network.{
  Address, Library, Parsed, is_empty_text, is_blocked_text, Checked, ok, refused, >>=-inv, ok_inj,
  ok-ne-refused,
}
use ai_cyber_security_suite.Network.Hosts.{Answer, resolve_and_validate_host}
use ai_cyber_security_suite.Network.Hosts.Resolution.{resolve_and_validate_host-IsSafe}
use ai_cyber_security_suite.Network.Urls.{Target, validate_target_url}
use ai_cyber_security_suite.Worker.{
  is_ssrf, ProbeFailureCategory, redirect_limit, unknown_failure, tls_validation_failure,
  http_client_error, connection_timeout, dns_failure, ssrf_blocked,
}
use ai_cyber_security_suite.Probe.Syntax.{
  Validation, valid, invalid, raises, validate_url_syntax, has_userinfo, valid-ne-invalid,
  max_url_length, with_parsed, with_target,
}
use ai_cyber_security_suite.Probe.{
  World, Exchange, redirect, response, tls_error, connect_error, connect_timeout, read_timeout,
  http_error, other_error, Connection, Report, Ending, reports, fails, resolve_and_pin_host,
  first_address, failure, Hop, ends, follows, follow, exchanged, pinned, checked, hop,
  max_redirects, is_dns, status_failure, respond,
}

-- A connection to a validated address at an allowed port.
abbrev pub IsConfined : Library → List ℕ → Connection → Type 0
IsConfined l ports c = (is_blocked_text l c.pinned_ip ≡ false) × (mem c.port ports ≡ true)

-- The redirects of a report, against the connections that were opened after `count` redirects. A
-- report that a URL was refused comes after as many connections as redirects.
abbrev pub Counts : ℕ → List Connection → Ending → Type 0
Counts count cs fails = Unit
Counts count cs (reports r) =
    (r.redirect_count ≤ max_redirects)
    × (r.redirect_count ≤ count + length cs)
    × (count + length cs ≤ r.redirect_count + 1)
    × (is_ssrf r.failure_category ≡ true → count + length cs ≡ r.redirect_count)

-- What one hop at a URL may do.
abbrev pub IsSound : Library → List ℕ → List ℕ → ℕ → List (List ℕ) → Hop → Type 0
IsSound l ports url count chain (ends cs e) =
    All (λ c. IsConfined l ports c × (c.url ≡ url)) cs × (length cs ≤ 1) × Counts count cs e
IsSound l ports url count chain (follows c next) =
    IsConfined l ports c
    × (c.url ≡ url)
    × (any (text_eq next) chain ≡ false)
    × (count < max_redirects)

target-allowed :
    (l : Library) (ports : List ℕ) (r : Checked Target) {t : Target}
    → with_target l ports r ≡ valid t
    → mem t.port ports ≡ true
target-allowed l ports (refused e) h = cc
target-allowed l ports (ok u) h = ground arith

parsed-allowed :
    (l : Library) (ports url : List ℕ) (o : Option Parsed) {t : Target}
    → with_parsed l ports url o ≡ valid t
    → mem t.port ports ≡ true
parsed-allowed l ports url none h = cc
parsed-allowed l ports url (some p) {t} h = elim (Bool-cases (has_userinfo p)) [
  | inl e ↦ absurd (valid-ne-invalid (rw e at h))
  | inr e ↦ target-allowed l ports (validate_target_url l url) (rw e at h)
]

syntax-allowed :
    (l : Library) (ports url : List ℕ) {t : Target}
    → validate_url_syntax l ports url ≡ valid t
    → mem t.port ports ≡ true
unfolding validate_url_syntax
syntax-allowed l ports url h = elim (Bool-cases (is_empty_text url)) [
  | inl e ↦ absurd (valid-ne-invalid (rw e at h))
  | inr e ↦ elim (Bool-cases (ltb max_url_length (length (l.strip url)))) [
    | inl f ↦ absurd (valid-ne-invalid (rw (e, f) at h))
    | inr f ↦ parsed-allowed l ports (l.strip url) (l.urlparse (l.strip url)) (rw (e, f) at h)
  ]
]

-- A hop that opens one connection.
module _ (l : Library) (ports url : List ℕ) (count : ℕ) (chain : List (List ℕ)) (c : Connection)
    (confined : IsConfined l ports c) (here : c.url ≡ url) (few : count ≤ max_redirects) where
  one-IsSound :
      (r : Report)
      → r.redirect_count ≡ count
      → is_ssrf r.failure_category ≡ false
      → IsSound l ports url count chain (ends (c ∷ []) (reports r))
  one-IsSound r same other = (
    ((confined, here), tt),
    omega arith,
    (omega arith, omega arith, omega arith, λ h. absurd (clash _ h other)),
  )

  failed-IsSound :
      (tls : Option Bool) (category : ProbeFailureCategory)
      → is_ssrf (some category) ≡ false
      → IsSound l ports url count chain (ends (c ∷ []) (reports (failure c.url count tls category)))
  failed-IsSound tls category other = one-IsSound (failure c.url count tls category) refl other

  follow-IsSound :
      (next : Option (List ℕ))
      → count < max_redirects
      → IsSound l ports url count chain (follow c count chain next)
  follow-IsSound none less = failed-IsSound none unknown_failure refl
  follow-IsSound (some next) less = elim (Bool-cases (any (text_eq next) chain)) [
    | inl e ↦ rw e (failed-IsSound none redirect_limit refl)
    | inr e ↦ rw e (confined, here, e, less)
  ]

  status_failure-is_ssrf : (s : ℕ) → is_ssrf (status_failure s) ≡ false
  status_failure-is_ssrf s = ground arith

  exchanged-IsSound :
      (t : Target) (x : Exchange) → IsSound l ports url count chain (exchanged l t c count chain x)
  exchanged-IsSound t (redirect location) = elim (Bool-cases (leb max_redirects count)) [
    | inl e ↦ rw e (failed-IsSound none redirect_limit refl)
    | inr e ↦ rw e (follow-IsSound (l.urljoin c.url (l.strip location)) (ground arith))
  ]
  exchanged-IsSound t (response s chunks) =
      one-IsSound (respond l t c.url count s chunks) refl (status_failure-is_ssrf s)
  exchanged-IsSound t tls_error = failed-IsSound (some false) tls_validation_failure refl
  exchanged-IsSound t connect_error = failed-IsSound none http_client_error refl
  exchanged-IsSound t connect_timeout = failed-IsSound none connection_timeout refl
  exchanged-IsSound t read_timeout = failed-IsSound none connection_timeout refl
  exchanged-IsSound t http_error = failed-IsSound none http_client_error refl
  exchanged-IsSound t other_error = failed-IsSound none unknown_failure refl

first_address-IsPublic :
    (l : Library) (ips : List (List ℕ)) {ip : List ℕ}
    → All (λ x. is_blocked_text l x ≡ false) ips
    → first_address ips ≡ ok ip
    → is_blocked_text l ip ≡ false
first_address-IsPublic l [] h e = ok-ne-refused e
first_address-IsPublic l (x ∷ xs) h e = rw (← (ok_inj e)) h.0

module _ (l : Library) (reads : (a : Address) → l.ip_address (l.strip (l.show a)) ≡ some a)
    (ports : List ℕ) (w : World) where
  pinned-IsPublic :
      (dns : List ℕ → Answer) (hostname : List ℕ) {ip : List ℕ}
      → resolve_and_pin_host l dns hostname ≡ ok ip
      → is_blocked_text l ip ≡ false
  unfolding resolve_and_pin_host
  pinned-IsPublic dns hostname h =
      let (ips, found, first) =
        >>=-inv (resolve_and_validate_host l dns hostname) first_address h in
      let ((public_, _), _) = resolve_and_validate_host-IsSafe l reads dns hostname found in
      first_address-IsPublic l ips public_ first

  module _ (url : List ℕ) (count : ℕ) (chain : List (List ℕ)) (few : count ≤ max_redirects) where
    refused-IsSound :
        (category : ProbeFailureCategory)
        → IsSound l ports url count chain (ends [] (reports (failure url count none category)))
    refused-IsSound category = (tt, omega arith, (few, omega arith, omega arith, λ h. omega arith))

    pinned-IsSound :
        (t : Target) (o : Checked (List ℕ))
        → mem t.port ports ≡ true
        → ((ip : List ℕ) → o ≡ ok ip → is_blocked_text l ip ≡ false)
        → IsSound l ports url count chain (pinned l w t url count chain o)
    pinned-IsSound t (refused e) allowed f =
        refused-IsSound (if is_dns e then dns_failure else ssrf_blocked)
    pinned-IsSound t (ok ip) allowed f =
        exchanged-IsSound l ports url count chain
          (record { pinned_ip = ip; port = t.port; url = url }) (f ip refl, allowed) refl few t
          (w.exchange count url ip)

    checked-IsSound :
        (v : Validation)
        → ((t : Target) → v ≡ valid t → mem t.port ports ≡ true)
        → IsSound l ports url count chain (checked l w url count chain v)
    checked-IsSound raises f = (tt, omega arith, tt)
    checked-IsSound (invalid e) f = refused-IsSound ssrf_blocked
    checked-IsSound (valid t) f =
        pinned-IsSound t (resolve_and_pin_host l (w.dns count) t.hostname) (f t refl)
          (λ ip h. pinned-IsPublic (w.dns count) t.hostname h)

    pub hop-IsSound : IsSound l ports url count chain (hop l ports w url count chain)
    unfolding hop
    hop-IsSound =
        checked-IsSound (validate_url_syntax l ports url) (λ t h. syntax-allowed l ports url h)
