-- ===== src/Storage/Keyed/Lookup.antt =====
-- What the lookup by a key finds is a row of the table, and the only one with its key.
use gridpulse.Prelude.{
  ◌≡◌, ap, ap₂, sym, inl, inr, some, List, [], ◌∷◌, Eq, Bool-cases, In, In-map_of,
}
use mathlib.Core.Path.{subst}
use gridpulse.Storage.Keyed.{find, IsKeyed, HasKey}

pub some-injective : {A : Type 0} {a b : A} → some a ≡ some b → a ≡ b
some-injective h = cc

module _ {K R : Type 0} ⦃e : Eq K⦄ where
  pub find-In : (k : K) (r : R) (t : List (K × R)) → find k t ≡ some r → In (k, r) t
  unfolding find
  find-In k r [] = λ h. cc
  find-In k r ((j, q) ∷ t) = elim (Bool-cases (e.beq j k)) [
    | inl m ↦ rw m λ h. inl (ap₂ (λ a b. (a, b)) ((e.beq_iff j k).0 m) (some-injective h))
    | inr m ↦ rw m λ h. inr (find-In k r t h)
  ]

  pub In-find : (k : K) (r : R) (t : List (K × R)) → IsKeyed t → In (k, r) t → find k t ≡ some r
  unfolding find
  In-find k r [] h m = absurd m
  In-find k r ((j, q) ∷ t) h (inl p) =
      rw ((e.beq_iff j k).1 (ap (λ x. x.0) p)) (ap (λ x. some x.1) p)
  In-find k r ((j, q) ∷ t) h (inr m) = elim (Bool-cases (e.beq j k)) [
    | inl p ↦ absurd (
        h.0 (subst (λ i. HasKey i t) (sym ((e.beq_iff j k).0 p)) (In-map_of (λ x. x.0) (k, r) t m)))
    | inr p ↦ rw p (In-find k r t h.1 m)
  ]
