-- ===== src/Containment/Allowlist.antt =====
-- Rule 0: ThreatIntelAdapter.is_whitelisted, with _is_legitimate_domain and TRUSTED_DOMAINS of
-- backend/services/threat_intel.py. A host name is the list of its code points.
pub mod Domains
use ai_cyber_security_suite.Prelude.{
  ℕ, Bool, true, false, ◌||◌, ◌&&◌, Option, none, some, List, [], ◌∷◌, any, ◌==◌,
}
use Prim.Native.Char.{code}
use Prim.Native.String.{String}

abbrev pub codes : String → List ℕ
codes String.[] = []
codes (String.◌∷◌ c s) = code c ∷ codes s

-- `urlparse(indicator)` is third-party code: its host name, or the indicator itself where it has none,
-- in lower case and stripped; none where it raises.
pub record Urls : Type 0 where
  pub is_empty : ℕ → Bool
  pub hostname : ℕ → Option (List ℕ)

abbrev pub text_eq : List ℕ → List ℕ → Bool
text_eq [] [] = true
text_eq (x ∷ xs) (y ∷ ys) = x == y && text_eq xs ys
text_eq _ _ = false

-- `str.endswith`
abbrev pub ends_with : List ℕ → List ℕ → Bool
ends_with suffix [] = text_eq [] suffix
ends_with suffix (x ∷ xs) = text_eq (x ∷ xs) suffix || ends_with suffix xs

unfoldable pub is_legitimate_domain : List ℕ → List ℕ → Bool
is_legitimate_domain hostname legit_domain =
    text_eq hostname legit_domain || ends_with (b'.' ∷ legit_domain) hostname

abbrev pub trusted_domains : List (List ℕ)
trusted_domains =
    codes "google.com"
    ∷ codes "youtube.com"
    ∷ codes "github.com"
    ∷ codes "microsoft.com"
    ∷ codes "apple.com"
    ∷ codes "amazon.com"
    ∷ codes "linkedin.com"
    ∷ codes "wikipedia.org"
    ∷ codes "stackoverflow.com"
    ∷ codes "chat.openai.com"
    ∷ codes "githubusercontent.com"
    ∷ codes "googleusercontent.com"
    ∷ codes "reddit.com"
    ∷ codes "netflix.com"
    ∷ codes "paypal.com"
    ∷ codes "twitter.com"
    ∷ codes "facebook.com"
    ∷ codes "instagram.com"
    ∷ []

abbrev pub is_trusted : Option (List ℕ) → Bool
is_trusted none = true
is_trusted (some host) = any (is_legitimate_domain host) trusted_domains

unfoldable pub is_whitelisted : Urls → ℕ → Bool
is_whitelisted u indicator = u.is_empty indicator || is_trusted (u.hostname indicator)
