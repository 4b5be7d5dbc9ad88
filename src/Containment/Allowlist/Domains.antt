-- ===== src/Containment/Allowlist/Domains.antt =====
-- Which host names belong to a trusted domain.
use ai_cyber_security_suite.Prelude.{
  ℕ, ◌≡◌, ◌↔◌, ◌⊎◌, refl, ap, inl, inr, Bool, true, false, ◌||◌, List, [], ◌∷◌, ◌++◌, ◌==◌, ==_iff,
  Bool-cases, arith,
}
use ai_cyber_security_suite.Containment.Allowlist.{text_eq, ends_with, is_legitimate_domain}

text_eq_self : (x : List ℕ) → text_eq x x ≡ true
text_eq_self [] = refl
text_eq_self (c ∷ x) = rw ((==_iff c c).1 refl) (text_eq_self x)

text_eq_sound : (x y : List ℕ) → text_eq x y ≡ true → x ≡ y
text_eq_sound [] [] h = refl
text_eq_sound [] (d ∷ y) h = cc
text_eq_sound (c ∷ x) [] h = cc
text_eq_sound (c ∷ x) (d ∷ y) h =
    let (e, k) : ((c == d) ≡ true) × (text_eq x y ≡ true) = ground arith in
    rw ((==_iff c d).0 e, text_eq_sound x y k) refl

or_right : (a b : Bool) → b ≡ true → a || b ≡ true
or_right true b h = refl
or_right false b h = h

ends_with_sound : (suffix x : List ℕ) → ends_with suffix x ≡ true → (p : List ℕ) × (x ≡ p ++ suffix)
ends_with_sound suffix [] h = ([], text_eq_sound [] suffix h)
ends_with_sound suffix (c ∷ x) h = elim (Bool-cases (text_eq (c ∷ x) suffix)) [
  | inl e ↦ ([], text_eq_sound (c ∷ x) suffix e)
  | inr e ↦
      let (p, q) = ends_with_sound suffix x (rw e at h) in (c ∷ p, ap (λ (r : List ℕ). c ∷ r) q)
]

ends_with_complete : (suffix p : List ℕ) → ends_with suffix (p ++ suffix) ≡ true
ends_with_complete [] [] = refl
ends_with_complete (c ∷ s) [] = rw (text_eq_self (c ∷ s)) refl
ends_with_complete suffix (c ∷ p) = or_right _ _ (ends_with_complete suffix p)

-- A host name counts as the trusted domain's exactly if it is the domain itself or ends in a full stop
-- and the domain, so that a name that only ends in the domain's letters does not.
pub is_legitimate_domain_iff :
    (hostname legit_domain : List ℕ)
    → (is_legitimate_domain hostname legit_domain ≡ true)
      ↔ ((hostname ≡ legit_domain) ⊎ ((p : List ℕ) × (hostname ≡ p ++ b'.' ∷ legit_domain)))
unfolding is_legitimate_domain
is_legitimate_domain_iff h d = (
  λ e. elim (Bool-cases (text_eq h d)) [
    | inl y ↦ inl (text_eq_sound h d y)
    | inr n ↦ inr (ends_with_sound (b'.' ∷ d) h (rw n at e))
  ],
  λ k. elim k [
    | inl y ↦ rw (y, text_eq_self d) refl
    | inr q ↦ rw q.1 (or_right _ _ (ends_with_complete (b'.' ∷ d) q.0))
  ],
)
