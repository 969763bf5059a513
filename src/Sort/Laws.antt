-- ===== src/Sort/Laws.antt =====
-- A sorted list holds what was sorted, in order.
use binance_feed_handler.Base.{
  ◌+◌, Ordering, lt, eq, gt, ◌≡◌, ◌≢◌, inl, inr, refl, ◌∙◌, Bool, false, List, [], ◌∷◌, arith, keep,
  length, All, All-imp, Bool-cases,
}
use binance_feed_handler.Decimal.{IsTotal}
use binance_feed_handler.Sort.{insert_by, sort_by, dedup}

module _ {ℓ} {A : Type ℓ} where
  -- Each entry is not after those that follow it; or strictly before them.
  abbrev pub Ordered : (A → A → Ordering) → List A → Type ℓ
  Ordered cmp [] = Unit
  Ordered cmp (x ∷ xs) = All (λ y. cmp x y ≢ gt) xs × Ordered cmp xs

  abbrev pub Strict : (A → A → Ordering) → List A → Type ℓ
  Strict cmp [] = Unit
  Strict cmp (x ∷ xs) = All (λ y. cmp x y ≡ lt) xs × Strict cmp xs

  -- No two entries compare equal.
  abbrev pub Apart : (A → A → Ordering) → List A → Type ℓ
  Apart cmp [] = Unit
  Apart cmp (x ∷ xs) = All (λ y. cmp x y ≢ eq) xs × Apart cmp xs

  pub keep-insert_by :
      (cmp : A → A → Ordering) (f : A → Bool) (x : A) (xs : List A)
      → length (keep f (insert_by cmp x xs)) ≡ length (keep f (x ∷ xs))
  unfolding insert_by
  keep-insert_by cmp f x [] = refl
  keep-insert_by cmp f x (y ∷ ys) = ground (arith, keep-insert_by cmp f x ys)

  pub keep-sort_by :
      (cmp : A → A → Ordering) (f : A → Bool) (xs : List A)
      → length (keep f (sort_by cmp xs)) ≡ length (keep f xs)
  unfolding sort_by
  keep-sort_by cmp f [] = refl
  keep-sort_by cmp f (x ∷ xs) =
      keep-insert_by cmp f x (sort_by cmp xs) ∙ ground (arith, keep-sort_by cmp f xs)

  length-insert_by :
      (cmp : A → A → Ordering) (x : A) (xs : List A) → length (insert_by cmp x xs) ≡ length xs + 1
  unfolding insert_by
  length-insert_by cmp x [] = omega arith
  length-insert_by cmp x (y ∷ ys) = ground (arith, length-insert_by cmp x ys)

  pub length-sort_by : (cmp : A → A → Ordering) (xs : List A) → length (sort_by cmp xs) ≡ length xs
  unfolding sort_by
  length-sort_by cmp [] = refl
  length-sort_by cmp (x ∷ xs) =
      omega (arith, length-insert_by cmp x (sort_by cmp xs), length-sort_by cmp xs)

  pub All-insert_by {κ} :
      (P : A → Type κ) (cmp : A → A → Ordering) (x : A) (xs : List A)
      → P x
      → All P xs
      → All P (insert_by cmp x xs)
  unfolding insert_by
  All-insert_by P cmp x [] p a = (p, tt)
  All-insert_by P cmp x (y ∷ ys) p a = ground (arith, All-insert_by P cmp x ys p a.1)

  pub All-sort_by {κ} :
      (P : A → Type κ) (cmp : A → A → Ordering) (xs : List A) → All P xs → All P (sort_by cmp xs)
  unfolding sort_by
  All-sort_by P cmp [] a = tt
  All-sort_by P cmp (x ∷ xs) a =
      All-insert_by P cmp x (sort_by cmp xs) a.0 (All-sort_by P cmp xs a.1)

module _ {ℓ} {A : Type ℓ} (cmp : A → A → Ordering) (t : IsTotal cmp) where
  eq_right_by : (x y z : A) → cmp y z ≡ eq → cmp x y ≡ cmp x z
  eq_right_by x y z h = ground (arith, t.cmp_swap y x, t.cmp_swap z x, t.eq_left y z x)

  pub le_trans_by : (x y z : A) → cmp x y ≢ gt → cmp y z ≢ gt → cmp x z ≢ gt
  le_trans_by x y z h k = ground (arith, t.lt_trans x y z, t.eq_left x y z, eq_right_by x y z)

  after : (x y : A) → cmp x y ≡ gt → cmp y x ≡ lt
  after x y h = ground (arith, t.cmp_swap x y)

  insert_by-Ordered : (x : A) (xs : List A) → Ordered cmp xs → Ordered cmp (insert_by cmp x xs)
  unfolding insert_by
  insert_by-Ordered x [] o = (tt, tt)
  insert_by-Ordered x (y ∷ ys) o = ground (
    arith,
    insert_by-Ordered x ys o.1,
    All-insert_by (λ z. cmp y z ≢ gt) cmp x ys,
    after x y,
    λ (h : cmp x y ≢ gt). All-imp {Q = λ z. cmp x z ≢ gt} (λ z k. le_trans_by x y z h k) ys o.0,
  )

  pub sort_by-Ordered : (xs : List A) → Ordered cmp (sort_by cmp xs)
  unfolding sort_by
  sort_by-Ordered [] = tt
  sort_by-Ordered (x ∷ xs) = insert_by-Ordered x (sort_by cmp xs) (sort_by-Ordered xs)

  insert_by-Strict :
      (x : A) (xs : List A)
      → All (λ y. cmp x y ≢ eq) xs
      → Strict cmp xs
      → Strict cmp (insert_by cmp x xs)
  unfolding insert_by
  insert_by-Strict x [] a o = (tt, tt)
  insert_by-Strict x (y ∷ ys) a o = ground (
    arith,
    insert_by-Strict x ys a.1 o.1,
    All-insert_by (λ z. cmp y z ≡ lt) cmp x ys,
    after x y,
    λ (h : cmp x y ≡ lt). All-imp {Q = λ z. cmp x z ≡ lt} (λ z k. t.lt_trans x y z h k) ys o.0,
  )

  pub sort_by-Strict : (xs : List A) → Apart cmp xs → Strict cmp (sort_by cmp xs)
  unfolding sort_by
  sort_by-Strict [] a = tt
  sort_by-Strict (x ∷ xs) a =
      insert_by-Strict x (sort_by cmp xs) (All-sort_by (λ y. cmp x y ≢ eq) cmp xs a.0)
        (sort_by-Strict xs a.1)

module _ {ℓ} {A : Type ℓ} where
  pub All-dedup {κ} :
      (P : A → Type κ) (same : A → A → Bool) (xs : List A) → All P xs → All P (dedup same xs)
  unfolding dedup
  All-dedup P same [] a = tt
  All-dedup P same (x ∷ []) a = a
  All-dedup P same (x ∷ y ∷ ys) a = elim (Bool-cases (same x y)) [
    | inl e ↦ rw (e, dedup) (All-dedup P same (x ∷ ys) (a.0, a.1.1))
    | inr e ↦ rw (e, dedup) (a.0, All-dedup P same (y ∷ ys) a.1)
  ]

module _ {ℓ} {A : Type ℓ} (cmp : A → A → Ordering) (t : IsTotal cmp) (same : A → A → Bool)
    (sound : (x y : A) → same x y ≡ false → cmp x y ≢ eq) where
  lt_of : (x y : A) → cmp x y ≢ gt → cmp x y ≢ eq → cmp x y ≡ lt
  lt_of x y h k = ground arith

  lt_le_trans : (x y z : A) → cmp x y ≡ lt → cmp y z ≢ gt → cmp x z ≡ lt
  lt_le_trans x y z h k = ground (arith, t.lt_trans x y z, eq_right_by cmp t x y z)

  -- Of a list in order, what `dedup` leaves is strictly in order.
  pub dedup-Strict : (xs : List A) → Ordered cmp xs → Strict cmp (dedup same xs)
  unfolding dedup
  dedup-Strict [] o = tt
  dedup-Strict (x ∷ []) o = (tt, tt)
  dedup-Strict (x ∷ y ∷ ys) o = elim (Bool-cases (same x y)) [
    | inl e ↦ rw (e, dedup) (dedup-Strict (x ∷ ys) (o.0.1, o.1.1))
    | inr e ↦
        let below = lt_of x y o.0.0 (sound x y e) in
        rw (e, dedup)
          (
            All-dedup (λ z. cmp x z ≡ lt) same (y ∷ ys)
                (below, All-imp (λ z k. lt_le_trans x y z below k) ys o.1.0),
            dedup-Strict (y ∷ ys) o.1,
          )
  ]

module _ {ℓ} {A : Type ℓ} where
  pub Strict-Ordered : (cmp : A → A → Ordering) (xs : List A) → Strict cmp xs → Ordered cmp xs
  Strict-Ordered cmp [] o = tt
  Strict-Ordered cmp (x ∷ xs) o =
      (All-imp {Q = λ y. cmp x y ≢ gt} (λ y h k. cc) xs o.0, Strict-Ordered cmp xs o.1)
