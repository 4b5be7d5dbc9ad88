-- ===== src/Prelude/Keys.antt =====
-- Tables with a primary key: what a row found by its key is, before and after an UPDATE.
use Prim.Native.Nat.{ℕ, ◌+◌, ◌≤◌}
use mathlib.Core.Path.{◌≡◌, ◌∙◌, refl}
use mathlib.Core.Logic.{◌≢◌, inl, inr}
use mathlib.Core.Bool.{Bool}
use mathlib.Core.Option.{Option, some}
use mathlib.Core.List.{List, [], ◌∷◌}
use native.Mathlib.Omega.{arith}
use ai_cyber_security_suite.Prelude.Tests.{if◌then◌else◌, ◌==◌, ==_iff, Bool-cases}
use ai_cyber_security_suite.Prelude.Lists.{length, keep, find, mem, All}
use ai_cyber_security_suite.Prelude.Rows.{update}

-- The first row of a key.
abbrev pub row_of {ℓ} : {A : Type ℓ} → (A → ℕ) → ℕ → List A → Option A
row_of key k xs = find (λ x. key x == k) xs

-- No two rows share a key.
abbrev pub Distinct {ℓ} : {A : Type ℓ} → (A → ℕ) → List A → Type 0
Distinct key [] = Unit
Distinct key (x ∷ xs) = All (λ y. key x ≢ key y) xs × Distinct key xs

module _ {ℓ} {A : Type ℓ} (key : A → ℕ) where
  row_of-skip : (x : A) (k : ℕ) (xs : List A) → key x ≢ k → row_of key k (x ∷ xs) ≡ row_of key k xs
  row_of-skip x k xs ne = ground arith

  row_of-head : (x : A) (xs : List A) → row_of key (key x) (x ∷ xs) ≡ some x
  row_of-head x xs = ground arith

  rows-skip :
      (x : A) (zs xs : List A)
      → All (λ y. key x ≢ key y) xs
      → All (λ z. row_of key (key z) zs ≡ some z) xs
      → All (λ z. row_of key (key z) (x ∷ zs) ≡ some z) xs
  rows-skip x zs [] ne h = tt
  rows-skip x zs (y ∷ ys) ne h = (row_of-skip x (key y) zs ne.0 ∙ h.0, rows-skip x zs ys ne.1 h.1)

  -- In a table with distinct keys every row is the row of its key.
  pub row_of_self : (xs : List A) → Distinct key xs → All (λ x. row_of key (key x) xs ≡ some x) xs
  row_of_self [] d = tt
  row_of_self (x ∷ xs) d = (row_of-head x xs, rows-skip x xs xs d.0 (row_of_self xs d.1))

  -- An UPDATE that keeps the keys, at the row of a key.
  pub row_of-update :
      (test : A → Bool) (f : A → A)
      → ((x : A) → key (f x) ≡ key x)
      → (k : ℕ) (xs : List A) (x : A) → row_of key k xs ≡ some x
      → row_of key k (update test f xs) ≡ some (if test x then f x else x)
  row_of-update test f same k [] x h = cc
  row_of-update test f same k (y ∷ ys) x h =
      ground (arith, same y, row_of-update test f same k ys x)

  pub row_of-key : (k : ℕ) (xs : List A) (x : A) → row_of key k xs ≡ some x → key x ≡ k
  row_of-key k [] x h = cc
  row_of-key k (y ∷ ys) x h = ground (arith, row_of-key k ys x)

module _ {ℓ} {A : Type ℓ} (key : A → ℕ) where
  others-update :
      (test : A → Bool) (f : A → A)
      → ((x : A) → key (f x) ≡ key x)
      → (k : ℕ) (xs : List A) → All (λ y. k ≢ key y) xs
      → All (λ y. k ≢ key y) (update test f xs)
  others-update test f same k [] h = tt
  others-update test f same k (y ∷ ys) h =
      (λ e. h.0 (ground (arith, same y)), others-update test f same k ys h.1)

  -- An UPDATE that keeps the keys keeps them distinct.
  pub Distinct-update :
      (test : A → Bool) (f : A → A)
      → ((x : A) → key (f x) ≡ key x)
      → (xs : List A) → Distinct key xs
      → Distinct key (update test f xs)
  Distinct-update test f same [] d = tt
  Distinct-update test f same (x ∷ xs) d = elim (Bool-cases (test x)) [
    | inl e ↦
        rw (e, same x)
          (others-update test f same (key x) xs d.0, Distinct-update test f same xs d.1)
    | inr e ↦ rw e (others-update test f same (key x) xs d.0, Distinct-update test f same xs d.1)
  ]

  keep_key : ℕ → List A → List A
  keep_key k xs = keep (λ x. key x == k) xs

  keep_key-absent : (k : ℕ) (xs : List A) → All (λ y. k ≢ key y) xs → keep_key k xs ≡ []
  unfolding keep_key
  keep_key-absent k [] h = refl
  keep_key-absent k (x ∷ xs) h = ground (arith, keep_key-absent k xs, h.0)

  keep_key-le : (k : ℕ) (xs : List A) → Distinct key xs → length (keep_key k xs) ≤ 1
  unfolding keep_key
  keep_key-le k [] d = omega arith
  keep_key-le k (x ∷ xs) d = elim (Bool-cases (key x == k)) [
    | inl e ↦ rw e (rw (keep_key-absent k xs (rw ((==_iff (key x) k).0 e) at d.0)) (omega arith))
    | inr e ↦ rw e (keep_key-le k xs d.1)
  ]

  keep-mem-split :
      (k : ℕ) (ks : List ℕ) (xs : List A)
      → length (keep (λ x. mem (key x) (k ∷ ks)) xs)
        ≤ length (keep_key k xs) + length (keep (λ x. mem (key x) ks) xs)
  unfolding keep_key
  keep-mem-split k ks [] = omega arith
  keep-mem-split k ks (x ∷ xs) = ground (arith, keep-mem-split k ks xs)

  -- Rows with distinct keys, picked by a list of keys, are no more than the list is long.
  pub length-keep-mem-le :
      (ks : List ℕ) (xs : List A)
      → Distinct key xs
      → length (keep (λ x. mem (key x) ks) xs) ≤ length ks
  length-keep-mem-le [] [] d = omega arith
  length-keep-mem-le [] (x ∷ xs) d = length-keep-mem-le [] xs d.1
  length-keep-mem-le (k ∷ ks) xs d =
      omega (arith, keep-mem-split k ks xs, keep_key-le k xs d, length-keep-mem-le ks xs d)
