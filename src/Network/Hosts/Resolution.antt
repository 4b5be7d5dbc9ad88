-- ===== src/Network/Hosts/Resolution.antt =====
-- Which addresses resolve_and_validate_host returns, and which hosts it refuses.
use ai_cyber_security_suite.Prelude.{
  ℕ, ◌≤◌, ◌≡◌, ◌∙◌, refl, ap, inl, inr, true, false, Option, none, some, List, [], ◌∷◌, ◌++◌, any,
  length, All, All-append, any-append-left, any-snoc, clash, arith, Bool-cases,
}
use ai_cyber_security_suite.Containment.Allowlist.{text_eq}
use ai_cyber_security_suite.Network.{
  Address, Library, is_blocked_ip, is_blocked_text, Checked, ok, refused, ◌>>=◌, is_empty_text,
  ok_inj, ok-ne-refused, blocked_record,
}
use ai_cyber_security_suite.Network.Hosts.{
  Answer, timed_out, failed, records, integer_address, admit, validate_records, some_address,
  validate_answer, literal_or, resolve_and_validate_host,
}

abbrev pub IsPublic : Library → List ℕ → Type 0
IsPublic l ip = is_blocked_text l ip ≡ false

-- No text occurs twice.
abbrev pub IsUnique : List (List ℕ) → Type 0
IsUnique [] = Unit
IsUnique (x ∷ xs) = (any (text_eq x) xs ≡ false) × IsUnique xs

abbrev pub IsSafe : Library → List (List ℕ) → Type 0
IsSafe l ips = All (IsPublic l) ips × IsUnique ips

pub text_eq_comm : (s t : List ℕ) → text_eq s t ≡ text_eq t s
text_eq_comm [] [] = refl
text_eq_comm [] (d ∷ t) = refl
text_eq_comm (c ∷ s) [] = refl
text_eq_comm (c ∷ s) (d ∷ t) = ground (arith, text_eq_comm s t)

pub text_eq_refl : (s : List ℕ) → text_eq s s ≡ true
text_eq_refl [] = refl
text_eq_refl (c ∷ s) = ground (arith, text_eq_refl s)

any-snoc_false :
    (x y : List ℕ) (xs : List (List ℕ))
    → any (text_eq x) xs ≡ false
    → text_eq x y ≡ false
    → any (text_eq x) (xs ++ y ∷ []) ≡ false
any-snoc_false x y [] h k = rw k
any-snoc_false x y (z ∷ zs) h k = ground (arith, any-snoc_false x y zs)

snoc-IsUnique :
    (y : List ℕ) (xs : List (List ℕ))
    → any (text_eq y) xs ≡ false
    → IsUnique xs
    → IsUnique (xs ++ y ∷ [])
snoc-IsUnique y [] h u = (refl, tt)
snoc-IsUnique y (x ∷ xs) h u = elim (Bool-cases (text_eq y x)) [
  | inl e ↦ cc
  | inr e ↦ (any-snoc_false x y xs u.0 (text_eq_comm x y ∙ e), snoc-IsUnique y xs (rw e at h) u.1)
]

-- A record that has passed joins the validated addresses, unless it is one.
admit-IsSafe :
    (l : Library) (seen : List (List ℕ)) (ip : List ℕ)
    → IsSafe l seen
    → IsPublic l ip
    → IsSafe l (admit seen ip)
admit-IsSafe l seen ip safe passed = elim (Bool-cases (any (text_eq ip) seen)) [
  | inl e ↦ rw e safe
  | inr e ↦
      rw e
        (All-append (IsPublic l) seen (ip ∷ []) safe.0 (passed, tt), snoc-IsUnique ip seen e safe.1)
]

validate_records-IsSafe :
    (l : Library) (seen rs ips : List (List ℕ))
    → IsSafe l seen
    → validate_records l seen rs ≡ ok ips
    → IsSafe l ips
validate_records-IsSafe l seen [] ips safe h = rw (← (ok_inj h)) safe
validate_records-IsSafe l seen (r ∷ rs) ips safe h = elim (Bool-cases (is_blocked_text l r)) [
  | inl e ↦ cc
  | inr e ↦
      validate_records-IsSafe l (admit seen r) rs ips (admit-IsSafe l seen r safe e) (rw e at h)
]

some_address-inv :
    (found ips : List (List ℕ)) → some_address found ≡ ok ips → (found ≡ ips) × (1 ≤ length ips)
some_address-inv [] ips h = ok-ne-refused h
some_address-inv (x ∷ xs) ips h = (ok_inj h, rw (← (ok_inj h)) (omega arith))

bind-inv :
    (l : Library) (r : Checked (List (List ℕ))) (ips : List (List ℕ))
    → (r >>= some_address) ≡ ok ips
    → (r ≡ ok ips) × (1 ≤ length ips)
bind-inv l (ok found) ips h = let (same, many) = some_address-inv found ips h in (ap ok same, many)
bind-inv l (refused e) ips h = ok-ne-refused h

abbrev Result : Library → List (List ℕ) → Type 0
Result l ips = IsSafe l ips × (1 ≤ length ips)

answer-IsSafe :
    (l : Library) (a : Answer) (ips : List (List ℕ)) → validate_answer l a ≡ ok ips → Result l ips
answer-IsSafe l timed_out ips h = ok-ne-refused h
answer-IsSafe l failed ips h = ok-ne-refused h
answer-IsSafe l (records []) ips h = ok-ne-refused h
answer-IsSafe l (records (r ∷ rs)) ips h =
    let (found, many) = bind-inv l (validate_records l [] (r ∷ rs)) ips h in
    (validate_records-IsSafe l [] (r ∷ rs) ips (tt, tt) found, many)

module _ (l : Library) (reads : (a : Address) → l.ip_address (l.strip (l.show a)) ≡ some a) where
  shown-IsPublic : (a : Address) → is_blocked_ip l a ≡ false → IsPublic l (l.show a)
  unfolding is_blocked_text
  shown-IsPublic a h = rw (reads a) h

  literal-IsSafe :
      (o : Option Address) (other : Checked (List (List ℕ))) (ips : List (List ℕ))
      → (other ≡ ok ips → Result l ips)
      → literal_or l o other ≡ ok ips
      → Result l ips
  literal-IsSafe none other ips f h = f h
  literal-IsSafe (some a) other ips f h = elim (Bool-cases (is_blocked_ip l a)) [
    | inl e ↦ ok-ne-refused (rw e at h)
    | inr e ↦ rw (← (ok_inj (rw e at h))) (((shown-IsPublic a e, tt), (refl, tt)), omega arith)
  ]

  -- Whatever the resolver answers, a host that is accepted has at least one address, and each of its
  -- addresses is outside the blocked ranges and listed once; the text of an address must be read back
  -- as the address.
  pub resolve_and_validate_host-IsSafe :
      (dns : List ℕ → Answer) (hostname : List ℕ) {ips : List (List ℕ)}
      → resolve_and_validate_host l dns hostname ≡ ok ips
      → IsSafe l ips × (1 ≤ length ips)
  unfolding resolve_and_validate_host
  resolve_and_validate_host-IsSafe dns hostname {ips} h =
      let host = l.lower (l.strip hostname) in
      elim (Bool-cases (is_empty_text host)) [
        | inl e ↦ ok-ne-refused (rw e at h)
        | inr e ↦
            literal-IsSafe (integer_address l host) _ ips
              (literal-IsSafe (l.ip_address host) _ ips (answer-IsSafe l (dns host) ips))
              (rw e at h)
      ]

admit-keeps :
    (seen : List (List ℕ)) (ip x : List ℕ)
    → any (text_eq x) seen ≡ true
    → any (text_eq x) (admit seen ip) ≡ true
admit-keeps seen ip x m = elim (Bool-cases (any (text_eq ip) seen)) [
  | inl e ↦ rw e m
  | inr e ↦ rw e (any-append-left (text_eq x) seen (ip ∷ []) m)
]

admit-has : (seen : List (List ℕ)) (ip : List ℕ) → any (text_eq ip) (admit seen ip) ≡ true
admit-has seen ip = elim (Bool-cases (any (text_eq ip) seen)) [
  | inl e ↦ rw e e
  | inr e ↦ rw e (any-snoc (text_eq ip) seen ip (text_eq_refl ip))
]

-- What the loop returns, where no record is blocked: all of them.
abbrev Kept : Library → List (List ℕ) → List (List ℕ) → Type 0
Kept l seen rs =
    (ips : List (List ℕ)) × (validate_records l seen rs ≡ ok ips)
    × ((x : List ℕ) → any (text_eq x) seen ≡ true → any (text_eq x) ips ≡ true)
    × All (λ x. any (text_eq x) ips ≡ true) rs

admitted :
    (l : Library) (seen rs : List (List ℕ)) → any (is_blocked_text l) rs ≡ false → Kept l seen rs
admitted l seen [] h = (seen, refl, λ x m. m, tt)
admitted l seen (r ∷ rs) h = elim (Bool-cases (is_blocked_text l r)) [
  | inl e ↦ absurd (clash _ (rw e) h)
  | inr e ↦
      let (ips, found, keeps, all) = admitted l (admit seen r) rs (rw e at h) in
      (ips, rw e found, λ x m. keeps x (admit-keeps seen r x m), (keeps r (admit-has seen r), all))
]

rejected :
    (l : Library) (seen rs : List (List ℕ))
    → any (is_blocked_text l) rs ≡ true
    → validate_records l seen rs ≡ refused blocked_record
rejected l seen [] h = cc
rejected l seen (r ∷ rs) h = elim (Bool-cases (is_blocked_text l r)) [
  | inl e ↦ rw e refl
  | inr e ↦ rw e (rejected l (admit seen r) rs (rw e at h))
]

-- The host that is looked up is a name: neither empty nor an address in any of the forms.
abbrev pub IsName : Library → List ℕ → Type 0
IsName l host =
    (is_empty_text host ≡ false) × (integer_address l host ≡ none) × (l.ip_address host ≡ none)

some_address-found :
    (x : List ℕ) (ips : List (List ℕ)) → any (text_eq x) ips ≡ true → some_address ips ≡ ok ips
some_address-found x [] m = cc
some_address-found x (ip ∷ ips) m = refl

-- A name with resolver records is refused exactly if one of them is blocked or no address; otherwise
-- the answer has every record.
pub resolve_and_validate_host-records :
    (l : Library) (dns : List ℕ → Answer) (hostname r : List ℕ) (rs : List (List ℕ))
    → IsName l (l.lower (l.strip hostname))
    → dns (l.lower (l.strip hostname)) ≡ records (r ∷ rs)
    → (any (is_blocked_text l) (r ∷ rs) ≡ true
        → resolve_and_validate_host l dns hostname ≡ refused blocked_record)
      × (any (is_blocked_text l) (r ∷ rs) ≡ false
          → (ips : List (List ℕ)) × (resolve_and_validate_host l dns hostname ≡ ok ips)
            × All (λ x. any (text_eq x) ips ≡ true) (r ∷ rs))
unfolding resolve_and_validate_host
resolve_and_validate_host-records l dns hostname r rs (full, no_integer, no_literal) answered =
    rw (full, no_integer, no_literal, answered)
      (
        λ blocked. ap (λ x. x >>= some_address) (rejected l [] (r ∷ rs) blocked),
        λ clear.
            let (ips, found, _, all) = admitted l [] (r ∷ rs) clear in
            (ips, ap (λ x. x >>= some_address) found ∙ some_address-found r ips all.0, all),
      )
