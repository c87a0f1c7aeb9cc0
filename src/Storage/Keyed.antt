-- ===== src/Storage/Keyed.antt =====
-- A table with a primary key, as the list of its rows, and `INSERT … ON CONFLICT (key) DO UPDATE`
-- on it.
pub mod Batch
pub mod Latest
pub mod Lookup
use mathlib.Core.Path.{subst, subst₂}
use gridpulse.Prelude.{
  ◌≡◌, refl, ◌⊎◌, inl, inr, Option, none, some, List, [], ◌∷◌, map, arith, Eq, if◌then◌else◌,
  Bool-cases, In, All, sym,
}

-- What becomes of the row, new or in conflict.
abbrev pub merged : {R : Type 0} → R → (R → R) → Option R → R
merged fresh update none = fresh
merged fresh update (some r) = update r

module _ {K R : Type 0} ⦃e : Eq K⦄ where
  -- the row with the key
  unfoldable pub find : K → List (K × R) → Option R
  find k [] = none
  find k ((j, r) ∷ t) = if e.beq j k then some r else find k t

  -- `fresh` where the key is new, `update` on the row that it conflicts with
  unfoldable pub upsert : K → R → (R → R) → List (K × R) → List (K × R)
  upsert k fresh update [] = (k, fresh) ∷ []
  upsert k fresh update ((j, r) ∷ t) =
      if e.beq j k then (j, update r) ∷ t else (j, r) ∷ upsert k fresh update t

  pub find-upsert :
      (k j : K) (fresh : R) (update : R → R) (t : List (K × R))
      → find j (upsert k fresh update t)
        ≡ (if e.beq k j then some (merged fresh update (find k t)) else find j t)
  unfolding find upsert
  find-upsert k j fresh update [] = refl
  find-upsert k j fresh update ((i, r) ∷ t) =
      ground (arith, e.beq_iff i k, e.beq_iff i j, e.beq_iff k j, find-upsert k j fresh update t)

  -- No key stands twice.
  abbrev pub HasKey : K → List (K × R) → Type 0
  HasKey k t = In k (map (λ x. x.0) t)

  abbrev pub IsKeyed : List (K × R) → Type 0
  IsKeyed [] = Unit
  IsKeyed ((k, r) ∷ t) = (¬ HasKey k t) × IsKeyed t

  HasKey-upsert :
      (k j : K) (fresh : R) (update : R → R) (t : List (K × R))
      → HasKey j (upsert k fresh update t)
      → (k ≡ j) ⊎ HasKey j t
  unfolding upsert
  HasKey-upsert k j fresh update [] = λ m. m
  HasKey-upsert k j fresh update ((i, r) ∷ t) = elim (Bool-cases (e.beq i k)) [
    | inl h ↦ rw h λ m. inr m
    | inr h ↦ rw h λ m. elim m [
      | inl p ↦ inr (inl p)
      | inr n ↦ elim (HasKey-upsert k j fresh update t n) [ inl p ↦ inl p | inr q ↦ inr (inr q) ]
    ]
  ]

  -- The primary key survives an upsert.
  pub upsert-IsKeyed :
      (k : K) (fresh : R) (update : R → R) (t : List (K × R))
      → IsKeyed t
      → IsKeyed (upsert k fresh update t)
  unfolding upsert
  upsert-IsKeyed k fresh update [] h = (λ m. m, tt)
  upsert-IsKeyed k fresh update ((i, r) ∷ t) h = elim (Bool-cases (e.beq i k)) [
    | inl p ↦ rw p h
    | inr p ↦ rw p (
      λ m. elim (HasKey-upsert k i fresh update t m) [
        | inl q ↦ absurd (ground (arith, e.beq_iff i k))
        | inr n ↦ h.0 n
      ],
      upsert-IsKeyed k fresh update t h.1,
    )
  ]

  -- What holds of every row holds of the row that is found.
  pub All-find :
      (Holds : K → R → Type 0) (k : K) (r : R) (t : List (K × R))
      → All (λ x. Holds x.0 x.1) t
      → find k t ≡ some r
      → Holds k r
  unfolding find
  All-find Holds k r [] h p = absurd (ground arith)
  All-find Holds k r ((j, q) ∷ t) h p = elim (Bool-cases (e.beq j k)) [
    | inl m ↦ let same : q ≡ r = ground arith in subst₂ Holds ((e.beq_iff j k).0 m) same h.0
    | inr m ↦ All-find Holds k r t h.1 (ground arith)
  ]

  -- An upsert keeps what holds of every row, if the new row and the updated one satisfy it.
  pub All-upsert :
      (Holds : K → R → Type 0) (k : K) (fresh : R) (update : R → R) (t : List (K × R))
      → Holds k fresh
      → ((r : R) → Holds k r → Holds k (update r))
      → All (λ x. Holds x.0 x.1) t
      → All (λ x. Holds x.0 x.1) (upsert k fresh update t)
  unfolding upsert
  All-upsert Holds k fresh update [] new old h = (new, tt)
  All-upsert Holds k fresh update ((j, q) ∷ t) new old h = elim (Bool-cases (e.beq j k)) [
    | inl m ↦
        let same = (e.beq_iff j k).0 m in
        rw m (
          subst (λ x. Holds x (update q)) (sym same) (old q (subst (λ x. Holds x q) same h.0)),
          h.1,
        )
    | inr m ↦ rw m (h.0, All-upsert Holds k fresh update t new old h.1)
  ]
