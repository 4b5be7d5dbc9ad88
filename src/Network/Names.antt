-- ===== src/Network/Names.antt =====
-- sanitize_domain_for_whois: the domain of a WHOIS query, tested by _DOMAIN_REGEX.
use ai_cyber_security_suite.Prelude.{
  ℕ, ◌≤◌, ◌≡◌, ◌∙◌, ap, refl, sym, inl, inr, Bool, true, false, ◌||◌, ◌&&◌, Option, none, some,
  List, [], ◌∷◌, if◌then◌else◌, ltb, leb, ◌==◌, length, All, arith, Bool-cases, clash, some_inj,
  get_or,
}
use ai_cyber_security_suite.Containment.Allowlist.{codes}
use ai_cyber_security_suite.Network.{
  Address, Library, Parsed, is_empty_text, starts_with, first_part, split,
}

-- `p in text`
abbrev pub has_infix : List ℕ → List ℕ → Bool
has_infix p [] = is_empty_text p
has_infix p (c ∷ s) = starts_with p (c ∷ s) || has_infix p s

-- `text.split(sep)[0]`
abbrev pub before : ℕ → List ℕ → List ℕ
before sep [] = []
before sep (c ∷ s) = if c == sep then [] else c ∷ before sep s

-- `raw[4:] if raw.startswith("www.")`
abbrev pub without_www : List ℕ → List ℕ
without_www (a ∷ b ∷ c ∷ d ∷ s) =
    if starts_with (codes "www.") (a ∷ b ∷ c ∷ d ∷ s) then s else a ∷ b ∷ c ∷ d ∷ s
without_www s = s

abbrev pub every : (ℕ → Bool) → List ℕ → Bool
every test [] = true
every test (c ∷ s) = if test c then every test s else false

abbrev pub is_letter : ℕ → Bool
is_letter c = leb b'a' c && leb c b'z' || leb b'A' c && leb c b'Z'

abbrev pub is_alnum : ℕ → Bool
is_alnum c = is_letter c || leb b'0' c && leb c b'9'

abbrev pub is_label_char : ℕ → Bool
is_label_char c = is_alnum c || c == b'-'

abbrev pub begins_well : List ℕ → Bool
begins_well [] = false
begins_well (c ∷ s) = is_alnum c

abbrev pub ends_well : List ℕ → Bool
ends_well [] = false
ends_well (c ∷ []) = is_alnum c
ends_well (c ∷ d ∷ s) = ends_well (d ∷ s)

-- `[a-zA-Z0-9](?:[a-zA-Z0-9-]{0,61}[a-zA-Z0-9])?`
abbrev pub is_label : List ℕ → Bool
is_label s = begins_well s && (ends_well s && (every is_label_char s && leb (length s) 63))

-- `[a-zA-Z]{2,63}`
abbrev pub is_top : List ℕ → Bool
is_top s = every is_letter s && (leb 2 (length s) && leb (length s) 63)

-- `(?:label\.)+top`
abbrev pub are_labels : List (List ℕ) → Bool
are_labels [] = false
are_labels (t ∷ []) = false
are_labels (x ∷ t ∷ []) = is_label x && is_top t
are_labels (x ∷ y ∷ z ∷ more) = is_label x && are_labels (y ∷ z ∷ more)

-- `$` matches at the end and before a newline there.
abbrev pub without_newline : List ℕ → List ℕ
without_newline [] = []
without_newline (c ∷ []) = if c == 10 then [] else c ∷ []
without_newline (c ∷ d ∷ s) = c ∷ without_newline (d ∷ s)

-- `_DOMAIN_REGEX.match`
abbrev pub is_domain : List ℕ → Bool
is_domain s = are_labels (split b'.' (without_newline s))

abbrev pub unless_address : Library → List ℕ → Option Address → Option (List ℕ)
unless_address l raw none = some raw
unless_address l raw (some a) = none

abbrev pub sanitize_host : Library → List ℕ → Option (List ℕ)
sanitize_host l raw =
    if is_empty_text raw || ltb 253 (length raw)
    then none
    else if is_domain raw
    then unless_address l raw (l.ip_address raw)
    else none

abbrev pub clean_host : Library → List ℕ → List ℕ
clean_host l raw = without_www (l.strip (before b':' (before b'/' raw)))

abbrev pub sanitize_parsed : Library → Option Parsed → Option (List ℕ)
sanitize_parsed l none = none
sanitize_parsed l (some p) = sanitize_host l (clean_host l (get_or p.hostname []))

unfoldable pub sanitize_domain_for_whois : Library → List ℕ → Option (List ℕ)
sanitize_domain_for_whois l s =
    let raw = l.lower (l.strip s) in
    if is_empty_text s
    then none
    else if has_infix (codes "://") raw
    then sanitize_parsed l (l.urlparse raw)
    else sanitize_host l (clean_host l raw)

abbrev pub ends_in_newline : List ℕ → Bool
ends_in_newline [] = false
ends_in_newline (c ∷ []) = c == 10
ends_in_newline (c ∷ d ∷ s) = ends_in_newline (d ∷ s)

-- What str.strip promises of the end of a text.
abbrev pub Strips : Library → Type 0
Strips l = (s : List ℕ) → ends_in_newline (l.strip s) ≡ false

-- A letter, a digit, a hyphen or a dot.
abbrev pub IsHostChar : ℕ → Type 0
IsHostChar c = (is_label_char c || c == b'.') ≡ true

-- What is passed to a WHOIS client.
pub record IsHarmless (l : Library) (d : List ℕ) : Type 0 where
  pub plain : All IsHostChar d
  pub no_option : begins_well d ≡ true
  pub short : length d ≤ 253
  pub no_address : l.ip_address d ≡ none

every-letter : (s : List ℕ) → every is_letter s ≡ true → every is_label_char s ≡ true
every-letter [] h = refl
every-letter (c ∷ s) h = elim (Bool-cases (is_letter c)) [
  | inl e ↦ rw e (every-letter s (rw e at h))
  | inr e ↦ absurd (clash _ h (rw e))
]

and-true : (a b : Bool) → (a && b) ≡ true → (a ≡ true) × (b ≡ true)
and-true true b h = (refl, h)
and-true false b h = cc

-- Every part of the name has only label characters.
parts-plain :
    (ps : List (List ℕ)) → are_labels ps ≡ true → All (λ p. every is_label_char p ≡ true) ps
parts-plain [] h = tt
parts-plain (t ∷ []) h = cc
parts-plain (x ∷ t ∷ []) h =
    let (lx, lt) = and-true (is_label x) (is_top t) h in
    let (_, x1) = and-true (begins_well x) _ lx in
    let (_, x2) = and-true (ends_well x) _ x1 in
    (
      (and-true (every is_label_char x) _ x2).0,
      (every-letter t (and-true (every is_letter t) _ lt).0, tt),
    )
parts-plain (x ∷ y ∷ z ∷ more) h =
    let (lx, rest) = and-true (is_label x) (are_labels (y ∷ z ∷ more)) h in
    let (_, x1) = and-true (begins_well x) _ lx in
    let (_, x2) = and-true (ends_well x) _ x1 in
    ((and-true (every is_label_char x) _ x2).0, parts-plain (y ∷ z ∷ more) rest)

first_part-plain :
    (c : ℕ) (ps : List (List ℕ))
    → All (λ p. every is_label_char p ≡ true) (first_part c ps)
    → (is_label_char c ≡ true) × All (λ p. every is_label_char p ≡ true) ps
first_part-plain c ps h = elim (Bool-cases (is_label_char c)) [
  | inl e ↦ (e, tail_plain ps h e)
  | inr e ↦ absurd (clash _ (head_plain ps h) (rw e))
]
  where
    head_plain :
        (ps : List (List ℕ))
        → All (λ p. every is_label_char p ≡ true) (first_part c ps)
        → (if is_label_char c then true else false) ≡ true
    head_plain [] k = k.0
    head_plain (p ∷ ps) k = ground (arith, k.0)

    tail_plain :
        (ps : List (List ℕ))
        → All (λ p. every is_label_char p ≡ true) (first_part c ps)
        → is_label_char c ≡ true
        → All (λ p. every is_label_char p ≡ true) ps
    tail_plain [] k e = tt
    tail_plain (p ∷ ps) k e = (rw e at k.0, k.1)

split-plain :
    (s : List ℕ) → All (λ p. every is_label_char p ≡ true) (split b'.' s) → All IsHostChar s
split-plain [] h = tt
split-plain (c ∷ s) h = elim (Bool-cases (c == b'.')) [
  | inl e ↦ (rw e (ground arith), split-plain s (rw e at h).1)
  | inr e ↦
      let (here, there) = first_part-plain c (split b'.' s) (rw e at h) in
      (rw here refl, split-plain s there)
]

label-begins : (p : List ℕ) (b : Bool) → (is_label p && b) ≡ true → begins_well p ≡ true
label-begins p b h = (and-true (begins_well p) _ (and-true (is_label p) b h).0).0

parts-begin : (p : List ℕ) (ps : List (List ℕ)) → are_labels (p ∷ ps) ≡ true → begins_well p ≡ true
parts-begin p [] h = cc
parts-begin p (t ∷ []) h = label-begins p _ h
parts-begin p (y ∷ z ∷ more) h = label-begins p _ h

first_part-begins :
    (c : ℕ) (ps : List (List ℕ)) → are_labels (first_part c ps) ≡ true → is_alnum c ≡ true
first_part-begins c [] h = cc
first_part-begins c (p ∷ ps) h = parts-begin (c ∷ p) ps h

domain-begins : (s : List ℕ) → are_labels (split b'.' s) ≡ true → begins_well s ≡ true
domain-begins [] h = cc
domain-begins (c ∷ s) h = elim (Bool-cases (c == b'.')) [
  | inl e ↦ absurd (clash _ (parts-begin [] (split b'.' s) (rw e at h)) refl)
  | inr e ↦ first_part-begins c (split b'.' s) (rw e at h)
]

none-ne-some {ℓ} : {C : Type ℓ} {d : List ℕ} → none ≡ some d → C
none-ne-some h = absurd (cc)

unless-inv :
    (l : Library) (raw : List ℕ) (o : Option Address) {d : List ℕ}
    → unless_address l raw o ≡ some d
    → (raw ≡ d) × (o ≡ none)
unless-inv l raw none h = (some_inj.0 h, refl)
unless-inv l raw (some a) h = cc

same_without_newline : (s : List ℕ) → ends_in_newline s ≡ false → without_newline s ≡ s
same_without_newline [] h = refl
same_without_newline (c ∷ []) h = rw h refl
same_without_newline (c ∷ d ∷ s) h = ap (◌∷◌ c) (same_without_newline (d ∷ s) h)

-- Dropping the front of a text keeps its end.
ends-without_www :
    (s : List ℕ) → ends_in_newline s ≡ false → ends_in_newline (without_www s) ≡ false
ends-without_www [] h = h
ends-without_www (a ∷ []) h = h
ends-without_www (a ∷ b ∷ []) h = h
ends-without_www (a ∷ b ∷ c ∷ []) h = h
ends-without_www (a ∷ b ∷ c ∷ d ∷ s) h =
    elim (Bool-cases (starts_with (codes "www.") (a ∷ b ∷ c ∷ d ∷ s))) [
      | inl e ↦ rw e (after s h)
      | inr e ↦ rw e h
    ]
  where
    after : (t : List ℕ) → ends_in_newline (d ∷ t) ≡ false → ends_in_newline t ≡ false
    after [] k = refl
    after (x ∷ t) k = k

host-IsHarmless :
    (l : Library) (raw : List ℕ) {d : List ℕ}
    → ends_in_newline raw ≡ false
    → sanitize_host l raw ≡ some d
    → IsHarmless l d
host-IsHarmless l raw no_newline h = elim (Bool-cases (is_empty_text raw || ltb 253 (length raw))) [
  | inl e ↦ none-ne-some (rw e at h)
  | inr e ↦ elim (Bool-cases (is_domain raw)) [
    | inl f ↦
        let (same, no_address) = unless-inv l raw (l.ip_address raw) (rw (e, f) at h) in
        let whole : are_labels (split b'.' raw) ≡ true =
          ap (λ t. are_labels (split b'.' t)) (sym (same_without_newline raw no_newline)) ∙ f in
        rw (← same) (record {
          plain = split-plain raw (parts-plain (split b'.' raw) whole);
          no_option = domain-begins raw whole;
          short = ground arith;
          no_address = no_address;
        })
    | inr f ↦ none-ne-some (rw (e, f) at h)
  ]
]

clean-IsHarmless :
    (l : Library) (raw : List ℕ) {d : List ℕ}
    → Strips l
    → sanitize_host l (clean_host l raw) ≡ some d
    → IsHarmless l d
clean-IsHarmless l raw strips h =
    host-IsHarmless l (clean_host l raw)
      (ends-without_www (l.strip (before b':' (before b'/' raw)))
        (strips (before b':' (before b'/' raw))))
      h

parsed-IsHarmless :
    (l : Library) (o : Option Parsed) {d : List ℕ}
    → Strips l
    → sanitize_parsed l o ≡ some d
    → IsHarmless l d
parsed-IsHarmless l none strips h = none-ne-some h
parsed-IsHarmless l (some p) strips h = clean-IsHarmless l (get_or p.hostname []) strips h

-- A sanitized domain has only letters, digits, hyphens and dots, no newline at its end either, begins
-- with a letter or digit, is no longer than 253 characters and is no address, if a stripped text never
-- ends in a newline.
pub sanitize_domain_for_whois-IsHarmless :
    (l : Library) (s : List ℕ) {d : List ℕ}
    → Strips l
    → sanitize_domain_for_whois l s ≡ some d
    → IsHarmless l d
unfolding sanitize_domain_for_whois
sanitize_domain_for_whois-IsHarmless l s strips h =
    let raw = l.lower (l.strip s) in
    elim (Bool-cases (is_empty_text s)) [
      | inl e ↦ none-ne-some (rw e at h)
      | inr e ↦ elim (Bool-cases (has_infix (codes "://") raw)) [
        | inl f ↦ parsed-IsHarmless l (l.urlparse raw) strips (rw (e, f) at h)
        | inr f ↦ clean-IsHarmless l raw strips (rw (e, f) at h)
      ]
    ]
