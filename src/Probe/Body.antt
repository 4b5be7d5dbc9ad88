-- ===== src/Probe/Body.antt =====
-- The streamed body of a response and its limit.
use ai_cyber_security_suite.Prelude.{
  ℕ, zero, suc, ◌+◌, ◌-◌, ◌≤◌, ◌≡◌, refl, ap, inl, inr, List, [], ◌∷◌, ◌++◌, if◌then◌else◌, ltb,
  length, take, length-take-le, arith, Bool-cases, ltb→lt, ltb→le,
}

abbrev pub max_body_bytes : ℕ
max_body_bytes = 51200

-- The chunks joined, up to the one at which the total passes the limit, which is cut.
unfoldable pub read_body : ℕ → List (List ℕ) → List ℕ
read_body total [] = []
read_body total (chunk ∷ chunks) =
    let rest = read_body (total + length chunk) chunks in
    if ltb max_body_bytes (total + length chunk)
    then take (max_body_bytes - total) chunk
    else chunk ++ rest

abbrev pub concat : List (List ℕ) → List ℕ
concat [] = []
concat (xs ∷ xss) = xs ++ concat xss

take-append_short : (n : ℕ) (xs ys : List ℕ) → n ≤ length xs → take n (xs ++ ys) ≡ take n xs
take-append_short zero xs ys h = refl
take-append_short (suc n) [] ys h = absurd (omega arith)
take-append_short (suc n) (x ∷ xs) ys h = ap (◌∷◌ x) (take-append_short n xs ys (omega arith))

take-append_long :
    (n : ℕ) (xs ys : List ℕ) → length xs ≤ n → take n (xs ++ ys) ≡ xs ++ take (n - length xs) ys
take-append_long n [] ys h = let same : n - 0 ≡ n = omega arith in rw same refl
take-append_long zero (x ∷ xs) ys h = absurd (omega arith)
take-append_long (suc n) (x ∷ xs) ys h =
    let same : suc n - suc (length xs) ≡ n - length xs = omega arith in
    rw same (ap (◌∷◌ x) (take-append_long n xs ys (omega arith)))

take_none : (n : ℕ) → take {A = ℕ} n [] ≡ []
take_none zero = refl
take_none (suc n) = refl

read_body-take :
    (total : ℕ) (chunks : List (List ℕ))
    → total ≤ max_body_bytes
    → read_body total chunks ≡ take (max_body_bytes - total) (concat chunks)
unfolding read_body
read_body-take total [] h = rw take_none refl
read_body-take total (c ∷ cs) h = elim (Bool-cases (ltb max_body_bytes (total + length c))) [
  | inl over ↦ rw over (
      rw (take-append_short (max_body_bytes - total) c (concat cs) (omega (arith, ltb→lt _ _ over)))
        refl)
  | inr fits ↦
      let room = ltb→le _ _ fits in
      let left : max_body_bytes - total - length c ≡ max_body_bytes - (total + length c) =
        omega arith in
      rw fits (
        rw (take-append_long (max_body_bytes - total) c (concat cs) (omega arith), left)
          (ap (λ x. c ++ x) (read_body-take (total + length c) cs room)))
]

-- What is read of a body is its first 51200 bytes, however it comes in chunks.
pub read_body_prefix :
    (chunks : List (List ℕ))
    → (read_body 0 chunks ≡ take max_body_bytes (concat chunks))
      × (length (read_body 0 chunks) ≤ max_body_bytes)
read_body_prefix chunks =
    let same : read_body 0 chunks ≡ take max_body_bytes (concat chunks) =
      read_body-take 0 chunks (omega arith) in
    (same, rw same (length-take-le max_body_bytes (concat chunks)))
