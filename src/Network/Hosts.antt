-- ===== src/Network/Hosts.antt =====
-- resolve_and_validate_host: the addresses that a host name may be connected at.
pub mod Resolution
use ai_cyber_security_suite.Prelude.{
  ℕ, ◌+◌, ◌*◌, ◌^◌, ◌≤◌, ◌<◌, ◌≡◌, ◌∙◌, refl, ap, inl, inr, Bool, true, false, ◌||◌, ◌&&◌, Option,
  none, some, List, [], ◌∷◌, ◌++◌, if◌then◌else◌, leb, ltb, any, length, All, All-append,
  any-append-left, any-snoc, clash, arith, Bool-cases, if-cases,
}
use ai_cyber_security_suite.Containment.Allowlist.{codes, text_eq}
use ai_cyber_security_suite.Network.{
  Address, ipv4, Library, is_blocked_ip, is_blocked_text, Checked, ok, refused, ◌>>=◌, ◌>>◌,
  refuse_if, is_empty_text, starts_with, ok_inj, ok-ne-refused, SsrfError, empty_hostname,
  blocked_address, dns_timed_out, dns_failed, no_records, blocked_record, no_public_address,
}

-- The answer of the resolver: the texts of its addresses, in order.
pub data Answer : Type 0 where
  timed_out failed : Answer
  records : List (List ℕ) → Answer

-- `hostname.isdigit() or (hostname.startswith("0x") and len(hostname) <= 10)`
abbrev pub is_integer_form : Library → List ℕ → Bool
is_integer_form l host = l.is_digit host || (starts_with (codes "0x") host && leb (length host) 10)

-- The address that the host is the integer of, where it is one in range.
abbrev pub in_range : Option ℕ → Option Address
in_range none = none
in_range (some n) = if ltb n (2 ^ 32) then some (ipv4 n) else none

abbrev pub integer_address : Library → List ℕ → Option Address
integer_address l host = if is_integer_form l host then in_range (l.int_of host) else none

-- `if ip_str not in validated_ips: validated_ips.append(ip_str)`
abbrev pub admit : List (List ℕ) → List ℕ → List (List ℕ)
admit seen ip = if any (text_eq ip) seen then seen else seen ++ ip ∷ []

-- The loop over the records; `seen` are the addresses that were validated.
abbrev pub validate_records : Library → List (List ℕ) → List (List ℕ) → Checked (List (List ℕ))
validate_records l seen [] = ok seen
validate_records l seen (ip ∷ ips) =
    let rest = validate_records l (admit seen ip) ips in
    if is_blocked_text l ip then refused blocked_record else rest

abbrev pub some_address : List (List ℕ) → Checked (List (List ℕ))
some_address [] = refused no_public_address
some_address (ip ∷ ips) = ok (ip ∷ ips)

abbrev pub validate_answer : Library → Answer → Checked (List (List ℕ))
validate_answer l timed_out = refused dns_timed_out
validate_answer l failed = refused dns_failed
validate_answer l (records []) = refused no_records
validate_answer l (records (ip ∷ ips)) = do
  seen ← validate_records l [] (ip ∷ ips)
  some_address seen

abbrev pub literal_or : Library → Option Address → Checked (List (List ℕ)) → Checked (List (List ℕ))
literal_or l none other = other
literal_or l (some a) other =
    if is_blocked_ip l a then refused blocked_address else ok (l.show a ∷ [])

-- `dns` is what the resolver answers at this call.
unfoldable pub resolve_and_validate_host :
    Library → (List ℕ → Answer) → List ℕ → Checked (List (List ℕ))
resolve_and_validate_host l dns hostname =
    let host = l.lower (l.strip hostname) in
    do
      refuse_if (is_empty_text host) empty_hostname
      literal_or l (integer_address l host)
          (literal_or l (l.ip_address host) (validate_answer l (dns host)))
