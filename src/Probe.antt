-- ===== src/Probe.antt =====
-- The network probe, backend/services/monitoring_probe.py: the checks of each URL of a redirect chain,
-- the pinned address that is connected, and the body that is read. What the resolver and the servers
-- answer is an argument, `World`; times and messages are left out.
pub mod Syntax
pub mod Body
pub mod Hops
pub mod Chains
mod Examples
use ai_cyber_security_suite.Prelude.{
  ℕ, zero, suc, ◌+◌, ◌<◌, Bool, true, false, not, ◌||◌, ◌&&◌, Option, none, some, List, [], ◌∷◌,
  ◌++◌, if◌then◌else◌, ltb, leb, ◌==◌, any, length, take,
}
use ai_cyber_security_suite.Containment.Allowlist.{codes, text_eq}
use ai_cyber_security_suite.Network.{
  Library, SsrfError, dns_timed_out, dns_failed, no_records, no_public_address, Checked, ok,
  refused, ◌>>=◌,
}
use ai_cyber_security_suite.Network.Hosts.{Answer, resolve_and_validate_host}
use ai_cyber_security_suite.Network.Urls.{Target, https}
use ai_cyber_security_suite.Worker.{
  ProbeFailureCategory, ssrf_blocked, dns_failure, connection_timeout, tls_validation_failure,
  http_client_error, http_server_error, redirect_limit, unknown_failure,
}
use ai_cyber_security_suite.Probe.Syntax.{Validation, valid, invalid, raises, validate_url_syntax}
use ai_cyber_security_suite.Probe.Body.{read_body}

abbrev pub max_redirects : ℕ
max_redirects = 3

-- What the request for a URL gives: a redirect with its location, a response with its status and the
-- chunks of its body, or an exception.
pub data Exchange : Type 0 where
  redirect : List ℕ → Exchange
  response : ℕ → List (List ℕ) → Exchange
  tls_error connect_error connect_timeout read_timeout http_error other_error : Exchange

-- At each hop, the resolver's answers, and what a URL at a pinned address gives.
pub record World : Type 0 where
  pub dns : ℕ → List ℕ → Answer
  pub exchange : ℕ → List ℕ → List ℕ → Exchange

-- A connection that is opened.
pub record Connection : Type 0 where
  pub pinned_ip : List ℕ
  pub port : ℕ
  pub url : List ℕ

pub record Report : Type 0 where
  pub success : Bool
  pub status_code : Option ℕ
  pub final_url : List ℕ
  pub redirect_count : ℕ
  pub tls_valid : Option Bool
  pub body_sample : List ℕ
  pub failure_category : Option ProbeFailureCategory

pub data Ending : Type 0 where
  reports : Report → Ending
  fails : Ending

abbrev pub failure : List ℕ → ℕ → Option Bool → ProbeFailureCategory → Report
failure url count tls category = record {
  success = false;
  status_code = none;
  final_url = url;
  redirect_count = count;
  tls_valid = tls;
  body_sample = [];
  failure_category = some category;
}

-- The first of the validated addresses.
abbrev pub first_address : List (List ℕ) → Checked (List ℕ)
first_address [] = refused no_public_address
first_address (ip ∷ ips) = ok ip

-- The time limit on the resolution is the resolver's answer `timed_out`.
unfoldable pub resolve_and_pin_host : Library → (List ℕ → Answer) → List ℕ → Checked (List ℕ)
resolve_and_pin_host l dns hostname = resolve_and_validate_host l dns hostname >>= first_address

-- `"DNS" in str(exc)`
abbrev pub is_dns : SsrfError → Bool
is_dns dns_timed_out = true
is_dns dns_failed = true
is_dns no_records = true
is_dns _ = false

abbrev pub status_failure : ℕ → Option ProbeFailureCategory
status_failure status =
    if ltb status 400
    then none
    else if ltb status 500
    then some http_client_error
    else some http_server_error

abbrev pub respond : Library → Target → List ℕ → ℕ → ℕ → List (List ℕ) → Report
respond l t url count status chunks = record {
  success = ltb status 400;
  status_code = some status;
  final_url = url;
  redirect_count = count;
  tls_valid = some (text_eq t.scheme https);
  body_sample = take 1024 (l.decode (read_body 0 chunks));
  failure_category = status_failure status;
}

-- One round of the loop: it ends the probe, after the connections that it opened, or goes on to a URL.
pub data Hop : Type 0 where
  ends : List Connection → Ending → Hop
  follows : Connection → List ℕ → Hop

-- The next URL of a redirect; none is an exception of urljoin.
abbrev pub follow : Connection → ℕ → List (List ℕ) → Option (List ℕ) → Hop
follow c count chain none = ends (c ∷ []) (reports (failure c.url count none unknown_failure))
follow c count chain (some next) =
    if any (text_eq next) chain
    then ends (c ∷ []) (reports (failure c.url count none redirect_limit))
    else follows c next

abbrev pub exchanged : Library → Target → Connection → ℕ → List (List ℕ) → Exchange → Hop
exchanged l t c count chain (redirect location) =
    if leb max_redirects count
    then ends (c ∷ []) (reports (failure c.url count none redirect_limit))
    else follow c count chain (l.urljoin c.url (l.strip location))
exchanged l t c count chain (response status chunks) =
    ends (c ∷ []) (reports (respond l t c.url count status chunks))
exchanged l t c count chain tls_error =
    ends (c ∷ []) (reports (failure c.url count (some false) tls_validation_failure))
exchanged l t c count chain connect_error =
    ends (c ∷ []) (reports (failure c.url count none http_client_error))
exchanged l t c count chain connect_timeout =
    ends (c ∷ []) (reports (failure c.url count none connection_timeout))
exchanged l t c count chain read_timeout =
    ends (c ∷ []) (reports (failure c.url count none connection_timeout))
exchanged l t c count chain http_error =
    ends (c ∷ []) (reports (failure c.url count none http_client_error))
exchanged l t c count chain other_error =
    ends (c ∷ []) (reports (failure c.url count none unknown_failure))

abbrev pub pinned : Library → World → Target → List ℕ → ℕ → List (List ℕ) → Checked (List ℕ) → Hop
pinned l w t url count chain (refused e) =
    ends [] (reports (failure url count none (if is_dns e then dns_failure else ssrf_blocked)))
pinned l w t url count chain (ok ip) =
    let c : Connection = record { pinned_ip = ip; port = t.port; url = url } in
    exchanged l t c count chain (w.exchange count url ip)

abbrev pub checked : Library → World → List ℕ → ℕ → List (List ℕ) → Validation → Hop
checked l w url count chain raises = ends [] fails
checked l w url count chain (invalid e) = ends [] (reports (failure url count none ssrf_blocked))
checked l w url count chain (valid t) =
    pinned l w t url count chain (resolve_and_pin_host l (w.dns count) t.hostname)

unfoldable pub hop : Library → List ℕ → World → List ℕ → ℕ → List (List ℕ) → Hop
hop l ports w url count chain = checked l w url count chain (validate_url_syntax l ports url)

abbrev pub prepend : Connection → List Connection × Ending → List Connection × Ending
prepend c r = (c ∷ r.0, r.1)

-- A round of the loop, and the rounds after it.
abbrev pub after : Hop → (List ℕ → List Connection × Ending) → List Connection × Ending
after (ends cs e) go_on = (cs, e)
after (follows c next) go_on = prepend c (go_on next)

-- The loop over the hops that are left; the connections come with the ending.
unfoldable pub probe_hops :
    Library → List ℕ → World → ℕ → List ℕ → ℕ → List (List ℕ) → List Connection × Ending
probe_hops l ports w zero url count chain = ([], reports (failure url count none redirect_limit))
probe_hops l ports w (suc n) url count chain =
    after (hop l ports w url count chain)
      (λ next. probe_hops l ports w n next (count + 1) (chain ++ next ∷ []))

unfoldable pub probe_inner : Library → List ℕ → World → List ℕ → List Connection × Ending
probe_inner l ports w url = probe_hops l ports w (max_redirects + 1) url 0 (url ∷ [])

-- The time limit on the whole: `cut` is none, or how many connections were opened until it passed.
unfoldable pub probe : Library → List ℕ → World → Option ℕ → List ℕ → List Connection × Ending
probe l ports w none url = probe_inner l ports w url
probe l ports w (some k) url =
    (take k (probe_inner l ports w url).0, reports (failure url 0 none connection_timeout))
