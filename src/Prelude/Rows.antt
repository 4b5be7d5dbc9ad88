-- ===== src/Prelude/Rows.antt =====
-- Tables as lists of rows: `SELECT ... WHERE ... ORDER BY key ASC LIMIT n` and `UPDATE ... WHERE`.
use Prim.Native.Nat.{ℕ, ◌≤◌}
use mathlib.Core.Path.{◌≡◌, subst}
use mathlib.Core.Option.{none, some, some_inj, some-ne-none}
use native.Mathlib.Omega.{arith}
use mathlib.Core.Bool.{Bool, true, false}
use mathlib.Core.Logic.{inl, inr}
use mathlib.Core.List.{List, [], ◌∷◌}
use ai_cyber_security_suite.Prelude.Tests.{if◌then◌else◌, leb, Bool-cases, clash}
use ai_cyber_security_suite.Prelude.Lists.{
  length, take, keep, find, All, All-take, All-keep, All-keep_of, length-take-le,
}

module _ {ℓ} {A : Type ℓ} where
  -- Insertion into an ascending list, before the first larger key's row.
  abbrev pub insert_by : (A → ℕ) → A → List A → List A
  insert_by key x [] = x ∷ []
  insert_by key x (y ∷ ys) = if leb (key x) (key y) then x ∷ y ∷ ys else y ∷ insert_by key x ys

  -- `ORDER BY key ASC`; rows of one key stay in the table's order.
  abbrev pub order_by : (A → ℕ) → List A → List A
  order_by key [] = []
  order_by key (x ∷ xs) = insert_by key x (order_by key xs)

  abbrev pub select : (A → Bool) → (A → ℕ) → ℕ → List A → List A
  select test key n xs = take n (order_by key (keep test xs))

  -- `UPDATE ... SET ... WHERE test`
  abbrev pub update : (A → Bool) → (A → A) → List A → List A
  update test f [] = []
  update test f (x ∷ xs) = (if test x then f x else x) ∷ update test f xs

module _ {ℓ} {A : Type ℓ} where
  -- The rows ascend by their key.
  abbrev pub Ascends : (A → ℕ) → List A → Type 0
  Ascends key [] = Unit
  Ascends key (x ∷ xs) = All (λ y. key x ≤ key y) xs × Ascends key xs

  pub All-insert_by {κ} :
      (P : A → Type κ) (key : A → ℕ) (x : A) (xs : List A)
      → P x
      → All P xs
      → All P (insert_by key x xs)
  All-insert_by P key x [] p h = (p, tt)
  All-insert_by P key x (y ∷ ys) p h = elim (Bool-cases (leb (key x) (key y))) [
    | inl e ↦ rw e (p, h)
    | inr e ↦ rw e (h.0, All-insert_by P key x ys p h.1)
  ]

  pub All-order_by {κ} :
      (P : A → Type κ) (key : A → ℕ) (xs : List A) → All P xs → All P (order_by key xs)
  All-order_by P key [] h = tt
  All-order_by P key (x ∷ xs) h =
      All-insert_by P key x (order_by key xs) h.0 (All-order_by P key xs h.1)

  -- Every selected row passes the test.
  pub All-select :
      (test : A → Bool) (key : A → ℕ) (n : ℕ) (xs : List A)
      → All (λ x. test x ≡ true) (select test key n xs)
  All-select test key n xs = All-take _ n _ (All-order_by _ key (keep test xs) (All-keep test xs))

  pub length-select-le :
      (test : A → Bool) (key : A → ℕ) (n : ℕ) (xs : List A) → length (select test key n xs) ≤ n
  length-select-le test key n xs = length-take-le n _

  -- What holds of every row holds of the selected ones.
  pub All-select_of {κ} :
      (P : A → Type κ) (test : A → Bool) (key : A → ℕ) (n : ℕ) (xs : List A)
      → All P xs
      → All P (select test key n xs)
  All-select_of P test key n xs h =
      All-take P n _ (All-order_by P key (keep test xs) (All-keep_of P test xs h))

module _ {ℓ} {A : Type ℓ} where
  -- What holds of every row holds of a found one, and so does the test.
  pub All-find {κ} :
      (P : A → Type κ) (test : A → Bool) (xs : List A) (a : A)
      → All P xs
      → find test xs ≡ some a
      → P a
  All-find P test [] a h e = cc
  All-find P test (x ∷ xs) a h e = elim (Bool-cases (test x)) [
    | inl y ↦ subst P (some_inj.0 (rw y at e)) h.0
    | inr n ↦ All-find P test xs a h.1 (rw n at e)
  ]

  pub find_passes : (test : A → Bool) (xs : List A) (a : A) → find test xs ≡ some a → test a ≡ true
  find_passes test [] a e = cc
  find_passes test (x ∷ xs) a e = elim (Bool-cases (test x)) [
    | inl y ↦ subst (λ z. test z ≡ true) (some_inj.0 (rw y at e)) y
    | inr n ↦ find_passes test xs a (rw n at e)
  ]

  pub All-update {κ} :
      (P : A → Type κ) (test : A → Bool) (f : A → A) (xs : List A)
      → All (λ x. P (if test x then f x else x)) xs
      → All P (update test f xs)
  All-update P test f [] h = tt
  All-update P test f (x ∷ xs) h = (h.0, All-update P test f xs h.1)

  -- A query that an UPDATE does not affect finds the same row, as it is then.
  pub find-update :
      (query test : A → Bool) (f : A → A)
      → ((x : A) → query (f x) ≡ query x)
      → (xs : List A) (a : A) → find query xs ≡ some a
      → find query (update test f xs) ≡ some (if test a then f a else a)
  find-update query test f same [] a h = cc
  find-update query test f same (x ∷ xs) a h =
      ground (arith, same x, find-update query test f same xs a)

module _ {ℓ} {A : Type ℓ} where
  -- What holds of the rows that a filter keeps.
  pub All-keep_back {κ} :
      (P : A → Type κ) (test : A → Bool) (xs : List A)
      → All P (keep test xs)
      → All (λ x. test x ≡ true → P x) xs
  All-keep_back P test [] h = tt
  All-keep_back P test (x ∷ xs) h = elim (Bool-cases (test x)) [
    | inl e ↦ let (p, ps) = rw e at h in (λ t. p, All-keep_back P test xs ps)
    | inr e ↦ (λ t. absurd (clash (test x) t e), All-keep_back P test xs (rw e at h))
  ]

  -- A query that finds nothing lets no row through.
  pub find-none :
      (test : A → Bool) (xs : List A) → find test xs ≡ none → All (λ x. test x ≡ false) xs
  find-none test [] h = tt
  find-none test (x ∷ xs) h = elim (Bool-cases (test x)) [
    | inl e ↦ absurd (some-ne-none x (rw e at h))
    | inr e ↦ (e, find-none test xs (rw e at h))
  ]

  All-unorder_by {κ} :
      (P : A → Type κ) (key : A → ℕ) (x : A) (xs : List A)
      → All P (insert_by key x xs)
      → P x × All P xs
  All-unorder_by P key x [] h = (h.0, tt)
  All-unorder_by P key x (y ∷ ys) h = elim (Bool-cases (leb (key x) (key y))) [
    | inl e ↦ rw e at h
    | inr e ↦ let (p, ps) = rw e at h in let (q, qs) = All-unorder_by P key x ys ps in (q, (p, qs))
  ]

  -- A property of the ordered rows is one of the table's.
  pub All-order_by_back {κ} :
      (P : A → Type κ) (key : A → ℕ) (xs : List A) → All P (order_by key xs) → All P xs
  All-order_by_back P key [] h = tt
  All-order_by_back P key (x ∷ xs) h =
      let (p, ps) = All-unorder_by P key x (order_by key xs) h in (p, All-order_by_back P key xs ps)
