-- ===== src/Notifications/Settings.antt =====
-- update_preferences, and when a webhook may be enabled.
use ai_cyber_security_suite.Prelude.{
  ℕ, ◌≡◌, ◌≢◌, ◌⊎◌, refl, inl, inr, Bool, true, false, ◌&&◌, Option, none, some, [], ◌∷◌, ◌++◌,
  if◌then◌else◌, ◌==◌, is_none, get_or, or_else, update, if-cases,
}
use ai_cyber_security_suite.Broadcaster.Envelope.{Severity}
use ai_cyber_security_suite.Notifications.{Preferences, Mailroom, get_or_create_preferences}

-- The text of the payload's url, stripped.
pub data UrlText : Type 0 where
  blank : UrlText
  url_text : ℕ → UrlText

-- NotificationPreferenceUpdate. A secret comes as it is encrypted, and so does the one that a rotation
-- generates; a field that is none is not to be changed.
pub record PreferenceUpdate : Type 0 where
  pub in_app_enabled : Option Bool
  pub email_enabled : Option Bool
  pub min_severity : Option Severity
  pub clear_webhook_secret : Bool
  pub rotate_secret : Bool
  pub generated_secret : ℕ
  pub webhook_secret : Option ℕ
  pub webhook_url : Option UrlText
  pub webhook_enabled : Option Bool

abbrev pub plain_fields : PreferenceUpdate → Preferences → Preferences
plain_fields u p = record p {
  in_app_enabled = get_or u.in_app_enabled p.in_app_enabled;
  email_enabled = get_or u.email_enabled p.email_enabled;
  min_severity = get_or u.min_severity p.min_severity;
}

abbrev pub secret_fields : PreferenceUpdate → Preferences → Preferences
secret_fields u p =
    if u.clear_webhook_secret
    then record p { webhook_secret = none; webhook_enabled = false }
    else if u.rotate_secret
    then record p { webhook_secret = some u.generated_secret }
    else record p { webhook_secret = or_else u.webhook_secret p.webhook_secret }

-- none is the ValueError of a url that fails the checks.
abbrev pub url_fields : (ℕ → Bool) → Option UrlText → Preferences → Option Preferences
url_fields safe none p = some p
url_fields safe (some blank) p = some (record p { webhook_url = none; webhook_enabled = false })
url_fields safe (some (url_text n)) p =
    if safe n then some (record p { webhook_url = some n }) else none

abbrev pub reenabled : Preferences → Preferences
reenabled p = record p {
  webhook_enabled = true;
  circuit_broken = false;
  consecutive_failures = 0;
  circuit_broken_at = none;
}

abbrev pub enable_fields : Option Bool → Preferences → Option Preferences
enable_fields none p = some p
enable_fields (some true) p = if is_none p.webhook_url then none else some (reenabled p)
enable_fields (some false) p = some (record p { webhook_enabled = false })

abbrev pub and_then {ℓ} : {A B : Type ℓ} → Option A → (A → Option B) → Option B
and_then none f = none
and_then (some a) f = f a

unfoldable pub edit_preferences : (ℕ → Bool) → PreferenceUpdate → Preferences → Option Preferences
edit_preferences safe u p =
    and_then (url_fields safe u.webhook_url (secret_fields u (plain_fields u p)))
      (enable_fields u.webhook_enabled)

abbrev pub saved : ℕ → Mailroom → Option Preferences → Option Mailroom
saved user m none = none
saved user m (some p) = some (record m {
  preferences = update (λ x. x.user_id == user) (λ _. p) m.preferences;
  audits = m.audits ++ user ∷ [];
})

-- none is an error; the default row that is made for a user without one is committed all the same.
unfoldable pub update_preferences :
    (ℕ → Bool) → ℕ → PreferenceUpdate → Mailroom → Mailroom × Option Mailroom
unfolding edit_preferences get_or_create_preferences
update_preferences safe user u m =
    let (m1, p) = get_or_create_preferences user m in
    (m1, saved user m1 (edit_preferences safe u p))

-- An enabled webhook has a url.
abbrev pub IsReachable : Preferences → Type 0
IsReachable p = p.webhook_enabled && is_none p.webhook_url ≡ false

-- What an edit gives: a reachable row, closed and without failures where the webhook is enabled by it.
abbrev pub Edited : PreferenceUpdate → Option Preferences → Type 0
Edited u none = Unit
Edited u (some p) =
    IsReachable p
    × ((u.webhook_enabled ≢ some true)
        ⊎ ((p.webhook_enabled ≡ true) × (p.circuit_broken ≡ false) × (p.consecutive_failures ≡ 0)))

secret-IsReachable :
    (u : PreferenceUpdate) (p : Preferences) → IsReachable p → IsReachable (secret_fields u p)
secret-IsReachable u p h =
    if-cases IsReachable u.clear_webhook_secret _ _ (λ e. refl)
      (λ e. if-cases IsReachable u.rotate_secret _ _ (λ f. h) (λ f. h))

abbrev Reaches : Option Preferences → Type 0
Reaches none = Unit
Reaches (some p) = IsReachable p

url-Reaches :
    (safe : ℕ → Bool) (t : Option UrlText) (p : Preferences)
    → IsReachable p
    → Reaches (url_fields safe t p)
url-Reaches safe none p h = h
url-Reaches safe (some blank) p h = refl
url-Reaches safe (some (url_text n)) p h =
    if-cases Reaches (safe n) _ _ (λ e. and_false p.webhook_enabled) (λ e. tt)
  where
    and_false : (b : Bool) → b && false ≡ false
    and_false true = refl
    and_false false = refl

enabled-Edited :
    (u : PreferenceUpdate) (b : Option Bool) (q : Option Preferences)
    → u.webhook_enabled ≡ b
    → Reaches q
    → Edited u (and_then q (enable_fields b))
enabled-Edited u b none e h = tt
enabled-Edited u none (some p) e h = (h, inl (λ k. cc))
enabled-Edited u (some false) (some p) e h = (refl, inl (λ k. cc))
enabled-Edited u (some true) (some p) e h =
    if-cases (Edited u) (is_none p.webhook_url) _ _ (λ k. tt) (λ k. (k, inr (refl, refl, refl)))

-- An update of reachable preferences that succeeds gives reachable ones: no webhook is enabled without a
-- url, whichever fields are set, cleared or rotated; and an update that enables the webhook closes the
-- circuit breaker and forgets its failures.
pub edit_preferences-Edited :
    (safe : ℕ → Bool) (u : PreferenceUpdate) (p : Preferences)
    → IsReachable p
    → Edited u (edit_preferences safe u p)
unfolding edit_preferences
edit_preferences-Edited safe u p h =
    enabled-Edited u u.webhook_enabled _ refl
      (url-Reaches safe u.webhook_url _ (secret-IsReachable u (plain_fields u p) h))
