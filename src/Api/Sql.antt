-- ===== src/Api/Sql.antt =====
-- ORDER BY on a column of numbers, with equal rows in the order of the table.
use gridpulse.Prelude.{
  ℕ, ◌≤◌, ◌≡◌, ◌⊎◌, inl, inr, Bool, true, false, List, [], ◌∷◌, All, In, leb, leb→le, if◌then◌else◌,
  Bool-cases, arith,
}

module _ {A : Type 0} (column : A → ℕ) where
  unfoldable pub put : A → List A → List A
  put a [] = a ∷ []
  put a (x ∷ xs) = if leb (column a) (column x) then a ∷ x ∷ xs else x ∷ put a xs

  unfoldable pub order_by : List A → List A
  unfolding put
  order_by [] = []
  order_by (a ∷ xs) = put a (order_by xs)

  -- Ascending.
  abbrev pub IsOrdered : List A → Type 0
  IsOrdered [] = Unit
  IsOrdered (x ∷ xs) = All (λ y. column x ≤ column y) xs × IsOrdered xs

  All-put : (P : A → Type 0) (a : A) (xs : List A) → P a → All P xs → All P (put a xs)
  unfolding put
  All-put P a [] h k = (h, tt)
  All-put P a (x ∷ xs) h k = elim (Bool-cases (leb (column a) (column x))) [
    | inl e ↦ rw e (h, k)
    | inr e ↦ rw e (k.0, All-put P a xs h k.1)
  ]

  All-le_trans :
      (n m : ℕ) (xs : List A) → n ≤ m → All (λ y. m ≤ column y) xs → All (λ y. n ≤ column y) xs
  All-le_trans n m [] h k = tt
  All-le_trans n m (x ∷ xs) h k = (omega (arith, k.0), All-le_trans n m xs h k.1)

  put-IsOrdered : (a : A) (xs : List A) → IsOrdered xs → IsOrdered (put a xs)
  unfolding put
  put-IsOrdered a [] h = (tt, tt)
  put-IsOrdered a (x ∷ xs) h = elim (Bool-cases (leb (column a) (column x))) [
    | inl e ↦
        let le = leb→le (column a) (column x) e in
        rw e ((le, All-le_trans (column a) (column x) xs le h.0), h)
    | inr e ↦
        rw e (All-put (λ y. column x ≤ column y) a xs (ground arith) h.0, put-IsOrdered a xs h.1)
  ]

  pub order_by-IsOrdered : (xs : List A) → IsOrdered (order_by xs)
  unfolding order_by
  order_by-IsOrdered [] = tt
  order_by-IsOrdered (x ∷ xs) = put-IsOrdered x (order_by xs) (order_by-IsOrdered xs)

  In-put : (b a : A) (xs : List A) → In b (put a xs) → (a ≡ b) ⊎ In b xs
  unfolding put
  In-put b a [] (inl e) = inl e
  In-put b a [] (inr n) = elim n [ ]
  In-put b a (x ∷ xs) m = go (leb (column a) (column x)) (In-put b a xs) m
    where
      go :
          (t : Bool)
          → (In b (put a xs) → (a ≡ b) ⊎ In b xs)
          → In b (if t then a ∷ x ∷ xs else x ∷ put a xs)
          → (a ≡ b) ⊎ In b (x ∷ xs)
      go true ih m = m
      go false ih (inl e) = inr (inl e)
      go false ih (inr k) = elim (ih k) [ inl e ↦ inl e | inr n ↦ inr (inr n) ]

  In-put_of : (b a : A) (xs : List A) → (a ≡ b) ⊎ In b xs → In b (put a xs)
  unfolding put
  In-put_of b a [] (inl e) = inl e
  In-put_of b a [] (inr n) = elim n [ ]
  In-put_of b a (x ∷ xs) m = go (leb (column a) (column x)) (In-put_of b a xs) m
    where
      go :
          (t : Bool)
          → ((a ≡ b) ⊎ In b xs → In b (put a xs))
          → (a ≡ b) ⊎ In b (x ∷ xs)
          → In b (if t then a ∷ x ∷ xs else x ∷ put a xs)
      go true ih m = m
      go false ih (inl e) = inr (ih (inl e))
      go false ih (inr (inl e)) = inl e
      go false ih (inr (inr n)) = inr (ih (inr n))

  -- Ordering loses no row and adds none.
  pub In-order_by : (b : A) (xs : List A) → In b (order_by xs) → In b xs
  unfolding order_by
  In-order_by b [] m = m
  In-order_by b (x ∷ xs) m = elim (In-put b x (order_by xs) m) [
    | inl e ↦ inl e
    | inr k ↦ inr (In-order_by b xs k)
  ]

  pub In-order_by_of : (b : A) (xs : List A) → In b xs → In b (order_by xs)
  unfolding order_by
  In-order_by_of b [] m = m
  In-order_by_of b (x ∷ xs) (inl e) = In-put_of b x (order_by xs) (inl e)
  In-order_by_of b (x ∷ xs) (inr m) = In-put_of b x (order_by xs) (inr (In-order_by_of b xs m))
