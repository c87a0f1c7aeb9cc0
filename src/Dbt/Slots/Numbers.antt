-- ===== src/Dbt/Slots/Numbers.antt =====
-- What `row_number` gives: in each part the numbers from 1 to the number of its rows, each once, in
-- the order of the rows.
use gridpulse.Prelude.{
  ℕ, suc, ◌+◌, ◌<◌, ◌≤◌, ◌≡◌, refl, ap, sym, ◌∙◌, ◌⊎◌, inl, inr, Bool, true, false, List, [], ◌∷◌,
  Bool-cases, arith, All, All-In, All-implies, All-of_In, In, if◌then◌else◌,
}
use mathlib.Core.Path.{subst}
use gridpulse.Dbt.Slots.{place, sorted, count, number, row_number}

module _ {A : Type 0} (before : A → A → Bool) where
  -- Each row may stand before all later ones.
  abbrev IsSorted : List A → Type 0
  IsSorted [] = Unit
  IsSorted (x ∷ xs) = All (λ y. before x y ≡ true) xs × IsSorted xs

  All-place : (P : A → Type 0) (a : A) (xs : List A) → P a → All P xs → All P (place before a xs)
  unfolding place
  All-place P a [] h k = (h, tt)
  All-place P a (x ∷ xs) h k = elim (Bool-cases (before a x)) [
    | inl e ↦ rw e (h, k)
    | inr e ↦ rw e (k.0, All-place P a xs h k.1)
  ]

  count-place :
      (part : A → ℕ) (i : ℕ) (a : A) (xs : List A)
      → count part i (place before a xs) ≡ count part i (a ∷ xs)
  unfolding place
  count-place part i a [] = refl
  count-place part i a (x ∷ xs) = ground (arith, count-place part i a xs)

  count-sorted :
      (part : A → ℕ) (i : ℕ) (xs : List A) → count part i (sorted before xs) ≡ count part i xs
  unfolding sorted
  count-sorted part i [] = refl
  count-sorted part i (x ∷ xs) =
      count-place part i x (sorted before xs) ∙ ground (arith, count-sorted part i xs)

  All-sorted : (P : A → Type 0) (xs : List A) → All P xs → All P (sorted before xs)
  unfolding sorted
  All-sorted P [] h = tt
  All-sorted P (x ∷ xs) h = All-place P x (sorted before xs) h.0 (All-sorted P xs h.1)

  In-place_self : (a : A) (xs : List A) → In a (place before a xs)
  unfolding place
  In-place_self a [] = inl refl
  In-place_self a (x ∷ xs) = elim (Bool-cases (before a x)) [
    | inl e ↦ rw e (inl refl)
    | inr e ↦ rw e (inr (In-place_self a xs))
  ]

  In-place_of : (b a : A) (xs : List A) → In b xs → In b (place before a xs)
  unfolding place
  In-place_of b a [] m = absurd m
  In-place_of b a (x ∷ xs) m = go (before a x) (In-place_of b a xs) m
    where
      go :
          (t : Bool)
          → (In b xs → In b (place before a xs))
          → In b (x ∷ xs)
          → In b (if t then a ∷ x ∷ xs else x ∷ place before a xs)
      go true ih m = inr m
      go false ih (inl e) = inl e
      go false ih (inr n) = inr (ih n)

  In-sorted_of : (b : A) (xs : List A) → In b xs → In b (sorted before xs)
  unfolding sorted
  In-sorted_of b [] m = m
  In-sorted_of b (x ∷ xs) (inl e) =
      subst (λ y. In y (place before x (sorted before xs))) e (In-place_self x (sorted before xs))
  In-sorted_of b (x ∷ xs) (inr m) = In-place_of b x (sorted before xs) (In-sorted_of b xs m)

  -- What is asked of an order that may have equals.
  pub record IsPreorder : Type 0 where
    pub total : (a b : A) → before a b ≡ false → before b a ≡ true
    pub transitive : (a b c : A) → before a b ≡ true → before b c ≡ true → before a c ≡ true

  module _ (o : IsPreorder) where
    All-transitive :
        (a x : A) (xs : List A)
        → before a x ≡ true
        → All (λ y. before x y ≡ true) xs
        → All (λ y. before a y ≡ true) xs
    All-transitive a x [] e h = tt
    All-transitive a x (y ∷ xs) e h = (o.transitive a x y e h.0, All-transitive a x xs e h.1)

    place-IsSorted : (a : A) (xs : List A) → IsSorted xs → IsSorted (place before a xs)
    unfolding place
    place-IsSorted a [] h = (tt, tt)
    place-IsSorted a (x ∷ xs) h = elim (Bool-cases (before a x)) [
      | inl e ↦ rw e ((e, All-transitive a x xs e h.0), h)
      | inr e ↦
          rw e
            (All-place (λ y. before x y ≡ true) a xs (o.total a x e) h.0, place-IsSorted a xs h.1)
    ]

    sorted-IsSorted : (xs : List A) → IsSorted (sorted before xs)
    unfolding sorted
    sorted-IsSorted [] = tt
    sorted-IsSorted (x ∷ xs) = place-IsSorted x (sorted before xs) (sorted-IsSorted xs)

module _ {A : Type 0} (part : A → ℕ) where
  All-number :
      (P : A → Type 0) (seen xs : List A) → All P xs → All (λ y. P y.0) (number part seen xs)
  unfolding number
  All-number P seen [] h = tt
  All-number P seen (x ∷ xs) h = (h.0, All-number P (x ∷ seen) xs h.1)

  In-number_of : (a : A) (seen xs : List A) → In a xs → (n : ℕ) × In (a, n) (number part seen xs)
  unfolding number
  In-number_of a seen [] m = absurd m
  In-number_of a seen (x ∷ xs) (inl e) =
      (suc (count part (part x) seen), inl (ap (λ y. (y, suc (count part (part x) seen))) e))
  In-number_of a seen (x ∷ xs) (inr m) = let (n, k) = In-number_of a (x ∷ seen) xs m in (n, inr k)

  -- The parts keep their sizes.
  count-number :
      (i : ℕ) (seen xs : List A) → count (λ y. part y.0) i (number part seen xs) ≡ count part i xs
  unfolding number
  count-number i seen [] = refl
  count-number i seen (x ∷ xs) = ground (arith, count-number i (x ∷ seen) xs)

  abbrev InBounds : ℕ → ℕ → ℕ → A × ℕ → Type 0
  InBounds i low high y = part y.0 ≡ i → (low < y.1) × (y.1 ≤ high)

  InBounds-seen :
      (i : ℕ) (x : A) (seen xs : List A) (y : A × ℕ)
      → InBounds i (count part i (x ∷ seen)) (count part i (x ∷ seen) + count part i xs) y
      → InBounds i (count part i seen) (count part i seen + count part i (x ∷ xs)) y
  InBounds-seen i x seen xs y h e = let b = h e in ground arith

  -- A number is more than the rows of the part that were seen, and at most all of its rows.
  number_bounds :
      (i : ℕ) (seen xs : List A)
      → All
          (InBounds i (count part i seen) (count part i seen + count part i xs))
          (number part seen xs)
  unfolding number
  number_bounds i seen [] = tt
  number_bounds i seen (x ∷ xs) = (
    λ e. ground arith,
    All-implies _ _ _ (InBounds-seen i x seen xs) (number_bounds i (x ∷ seen) xs),
  )

  -- A later row of the same part has a greater number, and does not stand before.
  module _ (before : A → A → Bool) where
    abbrev Precedes : A × ℕ → A × ℕ → Type 0
    Precedes x y = part y.0 ≡ part x.0 → (x.1 < y.1) × (before x.0 y.0 ≡ true)

    abbrev IsNumbered : List (A × ℕ) → Type 0
    IsNumbered [] = Unit
    IsNumbered (x ∷ xs) = All (Precedes x) xs × IsNumbered xs

    All-both :
        (P Q S : A × ℕ → Type 0) (ys : List (A × ℕ))
        → ((y : A × ℕ) → P y → Q y → S y)
        → All P ys
        → All Q ys
        → All S ys
    All-both P Q S [] f h k = tt
    All-both P Q S (y ∷ ys) f h k = (f y h.0 k.0, All-both P Q S ys f h.1 k.1)

    number-IsNumbered : (seen xs : List A) → IsSorted before xs → IsNumbered (number part seen xs)
    unfolding number
    number-IsNumbered seen [] h = tt
    number-IsNumbered seen (x ∷ xs) h = (
      All-both _ _ _ _ (λ y bounds late e. (ground (arith, bounds e), late))
          (number_bounds (part x) (x ∷ seen) xs)
          (All-number (λ y. before x y ≡ true) (x ∷ seen) xs h.0),
      number-IsNumbered (x ∷ seen) xs h.1,
    )

    -- Two rows of a part are the same with the same number, or their numbers are in their order.
    abbrev pub AreOrdered : A × ℕ → A × ℕ → Type 0
    AreOrdered x y =
        (x ≡ y) ⊎ ((x.1 < y.1) × (before x.0 y.0 ≡ true)) ⊎ ((y.1 < x.1) × (before y.0 x.0 ≡ true))

    IsNumbered-AreOrdered :
        (xs : List (A × ℕ)) (x y : A × ℕ)
        → IsNumbered xs
        → In x xs
        → In y xs
        → part x.0 ≡ part y.0
        → AreOrdered x y
    IsNumbered-AreOrdered [] x y h m n e = absurd m
    IsNumbered-AreOrdered (z ∷ xs) x y h (inl p) (inl q) e = inl (sym p ∙ q)
    IsNumbered-AreOrdered (z ∷ xs) x y h (inl p) (inr n) e =
        inr (inl (subst (λ w. Precedes w y) p (All-In (Precedes z) y xs h.0 n) (sym e)))
    IsNumbered-AreOrdered (z ∷ xs) x y h (inr m) (inl q) e =
        inr (inr (subst (λ w. Precedes w x) q (All-In (Precedes z) x xs h.0 m) e))
    IsNumbered-AreOrdered (z ∷ xs) x y h (inr m) (inr n) e = IsNumbered-AreOrdered xs x y h.1 m n e

module _ {A : Type 0} (before : A → A → Bool) (part : A → ℕ) where
  -- What `row_number` makes of rows: every row is there with a number, and no other; the number of a
  -- row is between 1 and the number of the rows of its part; and two rows of a part are the same
  -- with the same number, or their numbers are in their order.
  pub record AreNumbered (rows : List A) (numbered : List (A × ℕ)) : Type 0 where
    pub kept : (a : A) → In a rows → (n : ℕ) × In (a, n) numbered
    pub came : (x : A × ℕ) → In x numbered → In x.0 rows
    pub bounds : (x : A × ℕ) → In x numbered → (1 ≤ x.1) × (x.1 ≤ count part (part x.0) rows)
    pub counted : (i : ℕ) → count (λ y. part y.0) i numbered ≡ count part i rows
    pub ordered :
        (x y : A × ℕ)
        → In x numbered
        → In y numbered
        → part x.0 ≡ part y.0
        → AreOrdered part before x y

  pub row_number_lem :
      (rows : List A) → IsPreorder before → AreNumbered rows (row_number before part rows)
  unfolding row_number
  row_number_lem rows o = record {
    kept = λ a m. In-number_of part a [] (sorted before rows) (In-sorted_of before a rows m);
    came = λ x m.
        All-In (λ y. In y.0 rows) x _
          (All-number part (λ a. In a rows) [] (sorted before rows)
            (All-sorted before (λ a. In a rows) rows (All-of_In (λ a. In a rows) rows (λ a k. k))))
          m;
    bounds = λ x m.
        let b = All-In _ x _ (number_bounds part (part x.0) [] (sorted before rows)) m refl in
        (b.0, omega (arith, b.1, count-sorted before part (part x.0) rows));
    counted = λ i. count-number part i [] (sorted before rows) ∙ count-sorted before part i rows;
    ordered = λ x y m n e.
        IsNumbered-AreOrdered part before _ x y
          (number-IsNumbered part before [] (sorted before rows) (sorted-IsSorted before o rows)) m
          n e;
  }
