-- ===== src/Probe/Examples.antt =====
-- A probe that is redirected.
use ai_cyber_security_suite.Prelude.{
  ℕ, zero, suc, ◌≡◌, ◌≤◌, refl, none, List, [], ◌∷◌, length, map, take, All, arith,
}
use ai_cyber_security_suite.Containment.Allowlist.{codes}
use ai_cyber_security_suite.Network.Sample.{sample, sample-reads, resolver, metadata}
use ai_cyber_security_suite.Network.{is_blocked_text, is_blocked_ip}
use ai_cyber_security_suite.Network.Hosts.{Answer, records, resolve_and_validate_host}
use ai_cyber_security_suite.Network.Hosts.Resolution.{IsUnique}
use ai_cyber_security_suite.Probe.{
  World, redirect, Connection, probe, probe_inner, probe_hops, resolve_and_pin_host, hop,
}
use ai_cyber_security_suite.Network.Urls.{validate_target_url}
use ai_cyber_security_suite.Probe.Syntax.{validate_url_syntax}
use ai_cyber_security_suite.Probe.Body.{max_body_bytes, read_body, concat, read_body_prefix}
use ai_cyber_security_suite.Probe.Hops.{IsConfined, Counts}
use ai_cyber_security_suite.Probe.Chains.{probe-IsConfined, probe_inner-Counts, probe_hops-enough}

abbrev ports : List ℕ
ports = 80 ∷ 443 ∷ []

abbrev first_url : List ℕ
first_url = codes "https://a.io/1"

abbrev second_url : List ℕ
second_url = codes "https://a.io/2"

-- The first URL redirects to the second, whose host has been rebound by then.
abbrev answers : ℕ → List ℕ → Answer
answers zero host = records (resolver ∷ [])
answers (suc n) host = records (metadata ∷ [])

abbrev rebinding : World
rebinding = record { dns = answers; exchange = λ n url ip. redirect second_url }

abbrev opened : List Connection
opened = record { pinned_ip = resolver; port = 443; url = first_url } ∷ []

probe-IsConfined_example :
    All (IsConfined sample ports) (probe sample ports rebinding none first_url).0
    × (length (probe sample ports rebinding none first_url).0 ≤ 4)
probe-IsConfined_example = probe-IsConfined sample sample-reads ports rebinding none first_url

probe_inner-Counts_example :
    IsUnique (map (λ c. c.url) (probe_inner sample ports rebinding first_url).0)
    × Counts 0
        (probe_inner sample ports rebinding first_url).0
        (probe_inner sample ports rebinding first_url).1
probe_inner-Counts_example = probe_inner-Counts sample sample-reads ports rebinding first_url

probe_hops-enough_example :
    probe_hops sample ports rebinding 9 first_url 0 (first_url ∷ [])
    ≡ probe_hops sample ports rebinding 4 first_url 0 (first_url ∷ [])
probe_hops-enough_example =
    probe_hops-enough sample sample-reads ports rebinding 4 9 first_url 0 (first_url ∷ []) refl
      (omega arith) (omega arith)

read_body_prefix_example :
    (read_body 0 ((1 ∷ 2 ∷ []) ∷ (3 ∷ []) ∷ [])
      ≡ take max_body_bytes (concat ((1 ∷ 2 ∷ []) ∷ (3 ∷ []) ∷ [])))
    × (length (read_body 0 ((1 ∷ 2 ∷ []) ∷ (3 ∷ []) ∷ [])) ≤ max_body_bytes)
read_body_prefix_example = read_body_prefix ((1 ∷ 2 ∷ []) ∷ (3 ∷ []) ∷ [])

-- The rebound address is never connected.
stops : (probe sample ports rebinding none first_url).0 ≡ opened
unfolding probe probe_inner probe_hops hop resolve_and_validate_host is_blocked_text is_blocked_ip
    validate_url_syntax validate_target_url resolve_and_pin_host
stops = refl
