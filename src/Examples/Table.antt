-- ===== src/Examples/Table.antt =====
-- An Iceberg table in memory: its rows.
use gridpulse.Prelude.{
  ◌≡◌, ◌⊎◌, ◌↔◌, inl, inr, refl, Bool, true, false, not, List, ◌++◌, filter, ok, ok-injective, In,
  In-append, In-append_left, In-append_right, In-filter, In-filter_of,
}
use mathlib.Core.Path.{subst}
use gridpulse.Lake.Iceberg.{Iceberg}

not-true : (b : Bool) → (not b ≡ true) ↔ (b ≡ false)
not-true true = (λ h. cc, λ h. cc)
not-true false = (λ h. refl, λ h. refl)

module _ {Row : Type 0} where
  abbrev pub others : (Row → Bool) → List Row → List Row
  others p = filter (λ x. not (p x))

  In-others :
      (p : Row → Bool) (x : Row) (t : List Row) → In x (others p t) ↔ (In x t × (p x ≡ false))
  In-others p x t = (
    λ m. let (k, e) = In-filter (λ y. not (p y)) x t m in (k, (not-true (p x)).0 e),
    λ h. In-filter_of (λ y. not (p y)) x t h.0 ((not-true (p x)).1 h.1),
  )

  pub append_scan :
      (rows t u : List Row) → ok (t ++ rows) ≡ ok u → (x : Row) → In x u ↔ (In x rows ⊎ In x t)
  append_scan rows t u h x =
      subst (λ v. In x v ↔ (In x rows ⊎ In x t)) (ok-injective h)
        (
          λ m. elim (In-append x t rows m) [ inl k ↦ inr k | inr k ↦ inl k ],
          λ m. elim m [ inl k ↦ In-append_right x t rows k | inr k ↦ In-append_left x t rows k ],
        )

  pub overwrite_scan :
      (p : Row → Bool) (rows t u : List Row)
      → ok (others p t ++ rows) ≡ ok u
      → (x : Row) → In x u ↔ (In x rows ⊎ (In x t × (p x ≡ false)))
  overwrite_scan p rows t u h x =
      let (a, b) = append_scan rows (others p t) u h x in
      let (c, d) = In-others p x t in
      (
        λ m. elim (a m) [ inl k ↦ inl k | inr k ↦ inr (c k) ],
        λ m. elim m [ inl k ↦ b (inl k) | inr k ↦ b (inr (d k)) ],
      )

  pub delete_scan :
      (p : Row → Bool) (t u : List Row)
      → ok (others p t) ≡ ok u
      → (x : Row) → In x u ↔ (In x t × (p x ≡ false))
  delete_scan p t u h x =
      subst (λ v. In x v ↔ (In x t × (p x ≡ false))) (ok-injective h) (In-others p x t)

  abbrev pub in_memory : Iceberg Row
  in_memory = record {
    Table = List Row;
    scan = λ t. t;
    append = λ rows t. ok (t ++ rows);
    overwrite = λ p rows t. ok (others p t ++ rows);
    delete = λ p t. ok (others p t);
    append_scan = append_scan;
    overwrite_scan = overwrite_scan;
    delete_scan = delete_scan;
  }
