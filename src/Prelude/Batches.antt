-- ===== src/Prelude/Batches.antt =====
-- Batches of a table: the keys that a SELECT ... LIMIT picks, and the rows that a DELETE by those keys
-- leaves.
use Prim.Native.Nat.{ℕ, zero, suc, ◌+◌, ◌≤◌, ◌<◌}
use mathlib.Core.Path.{◌≡◌, ◌∙◌, refl, sym, ap, subst}
use mathlib.Core.Logic.{◌≢◌, inl, inr}
use mathlib.Core.Bool.{Bool, true, false, not}
use mathlib.Core.Option.{some, some_inj}
use mathlib.Core.List.{List, [], ◌∷◌, map}
use native.Mathlib.Omega.{arith}
use ai_cyber_security_suite.Prelude.Tests.{leb, ◌==◌, ==_iff, Bool-cases}
use ai_cyber_security_suite.Prelude.Lists.{
  length, take, keep, mem, All, All-and, All-mono, All-map, All-mem, All-take, All-keep_of,
  length-map,
}
use ai_cyber_security_suite.Prelude.Rows.{
  insert_by, order_by, select, All-insert_by, All-order_by, All-select, All-select_of,
}
use ai_cyber_security_suite.Prelude.Keys.{row_of, Distinct, row_of_self, length-keep-mem-le}

module _ {ℓ} {A : Type ℓ} (key : A → ℕ) where
  -- `DELETE ... WHERE key IN ks`
  abbrev pub delete : List ℕ → List A → List A
  delete ks xs = keep (λ x. not (mem (key x) ks)) xs

  pub Distinct-keep :
      (test : A → Bool) (xs : List A) → Distinct key xs → Distinct key (keep test xs)
  Distinct-keep test [] d = tt
  Distinct-keep test (x ∷ xs) d = elim (Bool-cases (test x)) [
    | inl e ↦ rw e (All-keep_of _ test xs d.0, Distinct-keep test xs d.1)
    | inr e ↦ rw e (Distinct-keep test xs d.1)
  ]

  Distinct-insert_by :
      (x : A) (xs : List A)
      → All (λ y. key x ≢ key y) xs
      → Distinct key xs
      → Distinct key (insert_by key x xs)
  Distinct-insert_by x [] ne d = (tt, tt)
  Distinct-insert_by x (y ∷ ys) ne d = elim (Bool-cases (leb (key x) (key y))) [
    | inl e ↦ rw e (ne, d)
    | inr e ↦
        rw e (All-insert_by _ key x ys (λ h. ne.0 (sym h)) d.0, Distinct-insert_by x ys ne.1 d.1)
  ]

  Distinct-order_by : (xs : List A) → Distinct key xs → Distinct key (order_by key xs)
  Distinct-order_by [] d = tt
  Distinct-order_by (x ∷ xs) d =
      Distinct-insert_by x (order_by key xs) (All-order_by _ key xs d.0) (Distinct-order_by xs d.1)

  Distinct-take : (n : ℕ) (xs : List A) → Distinct key xs → Distinct key (take n xs)
  Distinct-take zero xs d = tt
  Distinct-take (suc n) [] d = tt
  Distinct-take (suc n) (x ∷ xs) d = (All-take _ n xs d.0, Distinct-take n xs d.1)

  mem-insert_by :
      (k : ℕ) (x : A) (xs : List A)
      → mem k (map key (insert_by key x xs)) ≡ mem k (map key (x ∷ xs))
  mem-insert_by k x [] = refl
  mem-insert_by k x (y ∷ ys) = ground (arith, mem-insert_by k x ys)

  mem-order_by : (k : ℕ) (xs : List A) → mem k (map key (order_by key xs)) ≡ mem k (map key xs)
  mem-order_by k [] = refl
  mem-order_by k (x ∷ xs) = mem-insert_by k x (order_by key xs) ∙ rw (mem-order_by k xs) refl

  -- A batch that is not full is the whole list.
  take_all : (n : ℕ) (xs : List A) → length (take n xs) < n → take n xs ≡ xs
  take_all zero xs h = absurd (omega arith)
  take_all (suc n) [] h = refl
  take_all (suc n) (x ∷ xs) h = ap (λ ys. x ∷ ys) (take_all n xs (omega arith))

  keeps_later :
      (test : A → Bool) (x : A) (xs : List A) (k : ℕ)
      → mem k (map key (keep test xs)) ≡ true
      → mem k (map key (keep test (x ∷ xs))) ≡ true
  keeps_later test x xs k h = elim (Bool-cases (test x)) [
    | inr e ↦ rw e h
    | inl e ↦ rw e (elim (Bool-cases (key x == k)) [ inl s ↦ rw s refl | inr s ↦ rw s h ])
  ]

  keeps_first :
      (test : A → Bool) (x : A) (xs : List A)
      → test x ≡ true
      → mem (key x) (map key (keep test (x ∷ xs))) ≡ true
  keeps_first test x xs h = rw h (rw ((==_iff (key x) (key x)).1 refl) refl)

  keeps_keys :
      (test : A → Bool) (xs : List A)
      → All (λ x. test x ≡ true → mem (key x) (map key (keep test xs)) ≡ true) xs
  keeps_keys test [] = tt
  keeps_keys test (x ∷ xs) = (
    keeps_first test x xs,
    All-mono _ _ (λ y h t. keeps_later test x xs (key y) (h t)) xs (keeps_keys test xs),
  )

  -- The keys of a batch belong to rows that the test lets through.
  pub batch_passes :
      (test : A → Bool) (n : ℕ) (xs : List A)
      → Distinct key xs
      → All (λ x. mem (key x) (map key (select test key n xs)) ≡ true → test x ≡ true) xs
  batch_passes test n xs d =
      All-mono _ _
        (λ x self m.
          All-mem (λ k. (y : A) → row_of key k xs ≡ some y → test y ≡ true) (key x) _
            (All-map _ key (select test key n xs) (
              All-mono _ _
                (λ z both y e. subst (λ v. test v ≡ true) (some_inj.0 (sym both.1 ∙ e)) both.0) _
                (All-and _ _ _ (All-select test key n xs)
                  (All-select_of _ test key n xs (row_of_self key xs d)))))
            m x self)
        xs (row_of_self key xs d)

  -- A batch that is not full has the keys of all rows that the test lets through.
  pub last_batch :
      (test : A → Bool) (n : ℕ) (xs : List A)
      → length (select test key n xs) < n
      → All (λ x. test x ≡ true → mem (key x) (map key (select test key n xs)) ≡ true) xs
  last_batch test n xs short =
      All-mono _ _
        (λ x h t.
          rw (take_all n (order_by key (keep test xs)) short)
            (mem-order_by (key x) (keep test xs) ∙ h t))
        xs (keeps_keys test xs)

  -- Deleting rows that the test lets through leaves the others.
  pub keep-delete :
      (test : A → Bool) (ks : List ℕ) (xs : List A)
      → All (λ x. mem (key x) ks ≡ true → test x ≡ true) xs
      → keep (λ x. not (test x)) (delete ks xs) ≡ keep (λ x. not (test x)) xs
  keep-delete test ks [] h = refl
  keep-delete test ks (x ∷ xs) h = ground (arith, keep-delete test ks xs h.1, h.0)

  pub delete_exact :
      (test : A → Bool) (ks : List ℕ) (xs : List A)
      → All (λ x. mem (key x) ks ≡ true → test x ≡ true) xs
      → All (λ x. test x ≡ true → mem (key x) ks ≡ true) xs
      → delete ks xs ≡ keep (λ x. not (test x)) xs
  delete_exact test ks [] h g = refl
  delete_exact test ks (x ∷ xs) h g = ground (arith, delete_exact test ks xs h.1 g.1, h.0, g.0)

  absent_key :
      (x : A) (bs : List A) → All (λ y. key x ≢ key y) bs → mem (key x) (map key bs) ≡ false
  absent_key x [] h = refl
  absent_key x (y ∷ ys) h = elim (Bool-cases (key y == key x)) [
    | inl e ↦ absurd (h.0 (sym ((==_iff (key y) (key x)).0 e)))
    | inr e ↦ rw e (absent_key x ys h.1)
  ]

  length-keep-grows :
      (k : ℕ) (ks : List ℕ) (xs : List A)
      → length (keep (λ x. mem (key x) ks) xs) ≤ length (keep (λ x. mem (key x) (k ∷ ks)) xs)
  length-keep-grows k ks [] = omega arith
  length-keep-grows k ks (x ∷ xs) = ground (arith, length-keep-grows k ks xs)

  length-keep-more :
      (k : ℕ) (ks : List ℕ) (xs : List A) (b : A)
      → mem k ks ≡ false
      → row_of key k xs ≡ some b
      → length (keep (λ x. mem (key x) ks) xs) < length (keep (λ x. mem (key x) (k ∷ ks)) xs)
  length-keep-more k ks [] b h e = cc
  length-keep-more k ks (x ∷ xs) b h e = elim (Bool-cases (key x == k)) [
    | inl y ↦
        let at_x : key x ≡ k = (==_iff (key x) k).0 y in
        rw (at_x, h, (==_iff k k).1 refl) (omega (arith, length-keep-grows k ks xs))
    | inr n ↦
        let ih = length-keep-more k ks xs b h (rw n at e) in
        let other : (k == key x) ≡ false = ground arith in
        elim (Bool-cases (mem (key x) ks)) [
          | inl m ↦ rw (other, m) (omega (arith, ih))
          | inr m ↦ rw (other, m) ih
        ]
  ]

  batch_rows :
      (bs xs : List A)
      → Distinct key bs
      → All (λ b. row_of key (key b) xs ≡ some b) bs
      → length bs ≤ length (keep (λ x. mem (key x) (map key bs)) xs)
  batch_rows [] xs d h = omega arith
  batch_rows (b ∷ bs) xs d h = omega (
    arith,
    batch_rows bs xs d.1 h.1,
    length-keep-more (key b) (map key bs) xs b (absent_key b bs d.0) h.0,
  )

  pub length-split :
      (test : A → Bool) (xs : List A)
      → length (keep test xs) + length (keep (λ x. not (test x)) xs) ≡ length xs
  length-split test [] = omega arith
  length-split test (x ∷ xs) = ground (arith, length-split test xs)

  -- Deleting a batch deletes as many rows as it has.
  pub length-delete :
      (test : A → Bool) (n : ℕ) (xs : List A)
      → Distinct key xs
      → length (delete (map key (select test key n xs)) xs) + length (select test key n xs)
        ≡ length xs
  length-delete test n xs d =
      let bs = select test key n xs in
      omega (
        arith,
        length-split (λ x. mem (key x) (map key bs)) xs,
        batch_rows bs xs (Distinct-take n _ (Distinct-order_by _ (Distinct-keep test xs d)))
            (All-select_of _ test key n xs (row_of_self key xs d)),
        length-keep-mem-le key (map key bs) xs d,
        length-map key bs,
      )
