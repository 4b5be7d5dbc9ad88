-- ===== src/Containment/Policies.antt =====
-- get_or_create_policy and update_policy.
pub mod Versions
use ai_cyber_security_suite.Prelude.{
  ℕ, ◌+◌, Bool, true, false, ◌&&◌, Option, none, some, List, [], ◌∷◌, ◌++◌, if◌then◌else◌, ◌==◌,
  find, any, update,
}
use ai_cyber_security_suite.Broadcaster.Envelope.{Severity, critical}
use ai_cyber_security_suite.Containment.Model.{Policy, Tables, policy_updated}

abbrev pub default_policy : ℕ → Policy
default_policy tenant = record {
  tenant_id = tenant;
  auto_containment_enabled = false;
  auto_blacklist_enabled = false;
  auto_quarantine_enabled = false;
  auto_incident_binding_enabled = false;
  containment_min_severity = critical;
  blacklist_ttl_seconds = 86400;
  policy_version = 1;
  updated_by = none;
}

abbrev pub policy_of : ℕ → Tables → Option Policy
policy_of tenant t = find (λ p. p.tenant_id == tenant) t.policies

abbrev pub synthesized : ℕ → Tables → Option Policy → Tables × Policy
synthesized tenant t (some p) = (t, p)
synthesized tenant t none =
    (record t { policies = t.policies ++ default_policy tenant ∷ [] }, default_policy tenant)

unfoldable pub get_or_create_policy : ℕ → Tables → Tables × Policy
get_or_create_policy tenant t = synthesized tenant t (policy_of tenant t)

-- ContainmentPolicyUpdate
pub record PolicyUpdate : Type 0 where
  pub auto_containment_enabled : Bool
  pub auto_blacklist_enabled : Bool
  pub auto_quarantine_enabled : Bool
  pub auto_incident_binding_enabled : Bool
  pub containment_min_severity : Severity
  pub blacklist_ttl_seconds : ℕ
  pub policy_version : ℕ

-- `tenant_id == tenant_id and policy_version == update_data.policy_version`
abbrev pub is_current : ℕ → PolicyUpdate → Policy → Bool
is_current tenant u p = p.tenant_id == tenant && p.policy_version == u.policy_version

abbrev pub rewritten : ℕ → PolicyUpdate → Policy → Policy
rewritten user u p = record p {
  auto_containment_enabled = u.auto_containment_enabled;
  auto_blacklist_enabled = u.auto_blacklist_enabled;
  auto_quarantine_enabled = u.auto_quarantine_enabled;
  auto_incident_binding_enabled = u.auto_incident_binding_enabled;
  containment_min_severity = u.containment_min_severity;
  blacklist_ttl_seconds = u.blacklist_ttl_seconds;
  policy_version = p.policy_version + 1;
  updated_by = some user;
}

-- Whether the policy was updated; otherwise the call ends in a 409, before any commit, so that the
-- session of the request gives up a synthesized row too.
unfoldable pub update_policy : ℕ → PolicyUpdate → ℕ → Tables → Tables × Bool
unfolding get_or_create_policy
update_policy tenant u user t =
    let t1 = (get_or_create_policy tenant t).0 in
    if any (is_current tenant u) t1.policies
    then (
      record t1 {
        policies = update (is_current tenant u) (rewritten user u) t1.policies;
        audits =
            t1.audits
            ++ record { action = policy_updated; actor_user_id = some user; resource_id = tenant }
              ∷ [];
      },
      true,
    )
    else (t, false)
