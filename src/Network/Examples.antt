-- ===== src/Network/Examples.antt =====
-- Hosts and URLs at the sample library.
use ai_cyber_security_suite.Prelude.{
  ℕ, ◌*◌, ◌+◌, ◌^◌, ◌≡◌, ◌≤◌, refl, true, false, ◌&&◌, none, some, List, [], ◌∷◌, ◌++◌,
  if◌then◌else◌, ◌==◌, length, any, All, arith,
}
use ai_cyber_security_suite.Containment.Allowlist.{codes, text_eq}
use ai_cyber_security_suite.Network.{
  ipv4, ipv6, quad, Library, is_empty_text, is_listed, is_blocked_ip, is_blocked_text, ok, refused,
  blocked_record,
}
use ai_cyber_security_suite.Network.Sample.{sample, sample-reads, resolver, metadata}
use ai_cyber_security_suite.Network.Ranges.{is_special, is_listed-is_special, is_blocked_ip-mapped}
use ai_cyber_security_suite.Network.Hosts.{Answer, records, resolve_and_validate_host}
use ai_cyber_security_suite.Network.Hosts.Resolution.{
  IsSafe, resolve_and_validate_host-IsSafe, resolve_and_validate_host-records,
}
use ai_cyber_security_suite.Network.Urls.{Target}
use ai_cyber_security_suite.Network.Names.{
  ends_in_newline, Strips, sanitize_domain_for_whois, IsHarmless,
  sanitize_domain_for_whois-IsHarmless,
}

is_listed-is_special_example : is_listed (ipv4 (quad 172 31 0 9)) ≡ is_special 172 31 0
is_listed-is_special_example =
    is_listed-is_special 172 31 0 9 (omega arith) (omega arith) (omega arith) (omega arith)

is_blocked_ip-mapped_example :
    is_blocked_ip sample (ipv6 (0xffff * 2 ^ 32 + quad 127 0 0 1))
    ≡ is_blocked_ip sample (ipv4 (quad 127 0 0 1))
is_blocked_ip-mapped_example = is_blocked_ip-mapped sample (quad 127 0 0 1) (omega arith)

abbrev honest : List ℕ → Answer
honest host = records (resolver ∷ resolver ∷ [])

abbrev rebound : List ℕ → Answer
rebound host = records (resolver ∷ metadata ∷ [])

resolves : resolve_and_validate_host sample honest (codes "a.io") ≡ ok (resolver ∷ [])
unfolding resolve_and_validate_host is_blocked_text is_blocked_ip
resolves = refl

resolve_and_validate_host-IsSafe_example :
    IsSafe sample (resolver ∷ []) × (1 ≤ length (resolver ∷ []))
resolve_and_validate_host-IsSafe_example =
    resolve_and_validate_host-IsSafe sample sample-reads honest (codes "a.io") resolves

resolve_and_validate_host-records_example :
    (any (is_blocked_text sample) (resolver ∷ metadata ∷ []) ≡ true
      → resolve_and_validate_host sample rebound (codes "a.io") ≡ refused blocked_record)
    × (any (is_blocked_text sample) (resolver ∷ metadata ∷ []) ≡ false
        → (ips : List (List ℕ)) × (resolve_and_validate_host sample rebound (codes "a.io") ≡ ok ips)
          × All (λ x. any (text_eq x) ips ≡ true) (resolver ∷ metadata ∷ []))
resolve_and_validate_host-records_example =
    resolve_and_validate_host-records sample rebound (codes "a.io") resolver (metadata ∷ [])
      (refl, refl, refl) refl

abbrev home : List ℕ
home = codes "https://a.io/"

abbrev home_target : Target
home_target = record {
  scheme = codes "https";
  hostname = codes "a.io";
  port = 443;
  path_and_query = home;
}

-- The sample with a strip that drops the newlines at the end of a text.
strip_newlines : List ℕ → List ℕ
strip_newlines [] = []
strip_newlines (c ∷ s) =
    let rest = strip_newlines s in if is_empty_text rest && c == 10 then [] else c ∷ rest

abbrev stripping : Library
stripping = record sample { strip = strip_newlines }

stripping-Strips : Strips stripping
unfolding strip_newlines
stripping-Strips [] = refl
stripping-Strips (c ∷ s) = cons_end (strip_newlines s) (stripping-Strips s)
  where
    cons_end :
        (rest : List ℕ)
        → ends_in_newline rest ≡ false
        → ends_in_newline (if is_empty_text rest && c == 10 then [] else c ∷ rest) ≡ false
    cons_end [] h = ground arith
    cons_end (d ∷ t) h = h

takes_host :
    sanitize_domain_for_whois stripping (codes "https://www.a-1.io:80" ++ 10 ∷ [])
    ≡ some (codes "a.io")
unfolding sanitize_domain_for_whois strip_newlines
takes_host = refl

drops_newline :
    sanitize_domain_for_whois stripping (codes "www.a-1.io" ++ 10 ∷ codes ":80")
    ≡ some (codes "a-1.io")
unfolding sanitize_domain_for_whois strip_newlines
drops_newline = refl

sanitize_domain_for_whois-IsHarmless_example : IsHarmless stripping (codes "a-1.io")
sanitize_domain_for_whois-IsHarmless_example =
    sanitize_domain_for_whois-IsHarmless stripping (codes "www.a-1.io" ++ 10 ∷ codes ":80")
      stripping-Strips drops_newline

refuses_shell : sanitize_domain_for_whois sample (codes "a.io;id") ≡ none
unfolding sanitize_domain_for_whois
refuses_shell = refl
