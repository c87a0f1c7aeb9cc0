-- ===== src/Lake/Catalog/Created.antt =====
-- What the loop of `init` in scripts/init_iceberg_tables.py leaves.
use gridpulse.Prelude.{
  ℕ, ◌+◌, String, ◌≡◌, refl, ap, sym, ◌∙◌, ◌⊎◌, inl, inr, Bool, true, false, not, List, [], ◌∷◌,
  filter, length, Result, ok, raise, Exc, ok-injective, All, All-implies, arith, str_eq, eq_iff,
  ◌||◌, Bool-cases, if◌then◌else◌, value_error, type_error, runtime_error, key_error,
  overflow_error, validation_error, transient_http_error, transport_error, http_status_error,
  integrity_error, data_error, undefined_table, namespace_exists, table_exists, os_error,
  http_exception, other, base_exception,
}
use mathlib.Core.Path.{subst}
use gridpulse.Ingestion.Fetch.Rows.{continue-ok}
use gridpulse.Lake.Schemas.{Schema, PartitionSpec}
use gridpulse.Lake.Catalog.{
  Catalogs, identifier, is_namespace_exists, is_table_exists, namespace_tried, counted, create_each,
}

is_table_exists-eq : (e : Exc) → is_table_exists e ≡ true → e ≡ table_exists
is_table_exists-eq table_exists h = refl
is_table_exists-eq value_error h = cc
is_table_exists-eq type_error h = cc
is_table_exists-eq runtime_error h = cc
is_table_exists-eq key_error h = cc
is_table_exists-eq overflow_error h = cc
is_table_exists-eq validation_error h = cc
is_table_exists-eq transient_http_error h = cc
is_table_exists-eq transport_error h = cc
is_table_exists-eq http_status_error h = cc
is_table_exists-eq integrity_error h = cc
is_table_exists-eq data_error h = cc
is_table_exists-eq undefined_table h = cc
is_table_exists-eq namespace_exists h = cc
is_table_exists-eq os_error h = cc
is_table_exists-eq (http_exception n) h = cc
is_table_exists-eq (other n) h = cc
is_table_exists-eq (base_exception n) h = cc

is_namespace_exists-eq : (e : Exc) → is_namespace_exists e ≡ true → e ≡ namespace_exists
is_namespace_exists-eq namespace_exists h = refl
is_namespace_exists-eq value_error h = cc
is_namespace_exists-eq type_error h = cc
is_namespace_exists-eq runtime_error h = cc
is_namespace_exists-eq key_error h = cc
is_namespace_exists-eq overflow_error h = cc
is_namespace_exists-eq validation_error h = cc
is_namespace_exists-eq transient_http_error h = cc
is_namespace_exists-eq transport_error h = cc
is_namespace_exists-eq http_status_error h = cc
is_namespace_exists-eq integrity_error h = cc
is_namespace_exists-eq data_error h = cc
is_namespace_exists-eq undefined_table h = cc
is_namespace_exists-eq table_exists h = cc
is_namespace_exists-eq os_error h = cc
is_namespace_exists-eq (http_exception n) h = cc
is_namespace_exists-eq (other n) h = cc
is_namespace_exists-eq (base_exception n) h = cc

-- A creation that counts made its table, or found it.
counted-ok :
    {W : Type 0} (r : Result (Unit {0}) × W) (n : ℕ) (w : W)
    → counted r ≡ (ok n, w)
    → ((r ≡ (ok tt, w)) × (n ≡ 1)) ⊎ ((r ≡ (raise table_exists, w)) × (n ≡ 0))
counted-ok (ok u, w') n w =
    λ h. inl (ap (λ x. (ok tt, x.1)) h, sym (ok-injective (ap (λ x. x.0) h)))
counted-ok (raise e, w') n w = elim (Bool-cases (is_table_exists e)) [
  | inl t ↦ rw t λ h. inr (
    rw (is_table_exists-eq e t) (ap (λ x. (raise table_exists, x.1)) h),
    sym (ok-injective (ap (λ x. x.0) h)),
  )
  | inr f ↦ rw f λ h. cc (ap (λ x. x.0) h)
]

pub namespace_tried-ok :
    {W : Type 0} (r : Result (Unit {0}) × W) (u : Unit {0}) (w : W)
    → namespace_tried r ≡ (ok u, w)
    → (r ≡ (ok tt, w)) ⊎ (r ≡ (raise namespace_exists, w))
namespace_tried-ok (ok v, w') u w = λ h. inl (ap (λ x. (ok tt, x.1)) h)
namespace_tried-ok (raise e, w') u w = elim (Bool-cases (is_namespace_exists e)) [
  | inl t ↦
      rw t λ h. inr (rw (is_namespace_exists-eq e t) (ap (λ x. (raise namespace_exists, x.1)) h))
  | inr f ↦ rw f λ h. cc (ap (λ x. x.0) h)
]

abbrev pub Entry : Type 0
Entry = String × Schema × PartitionSpec

-- No two tables share their identifier.
abbrev pub HasDistinct : List Entry → Type 0
HasDistinct [] = Unit
HasDistinct (t ∷ ts) =
    All (λ u. str_eq (identifier t.0) (identifier u.0) ≡ false) ts × HasDistinct ts

abbrev pub is_one_of : String → List Entry → Bool
is_one_of name [] = false
is_one_of name (t ∷ ts) = str_eq (identifier t.0) name || is_one_of name ts

filter-agree :
    {A : Type 0} (p q : A → Bool) (xs : List A)
    → All (λ x. p x ≡ q x) xs
    → filter p xs ≡ filter q xs
filter-agree p q [] h = refl
filter-agree p q (x ∷ xs) h = rw (h.0, filter-agree p q xs h.1) refl

All-of : {A : Type 0} (P : A → Type 0) (xs : List A) → ((x : A) → P x) → All P xs
All-of P [] f = tt
All-of P (x ∷ xs) f = (f x, All-of P xs f)

module _ {H W : Type 0} (lib : Catalogs H W) (h : H) where
  open lib use {has_table, has_namespace}

  -- The tables that the store lacks.
  abbrev pub missing : W → List Entry → List Entry
  missing w ts = filter (λ t. not (has_table h w (identifier t.0))) ts

  -- The tables of the second store are those of the first and the ones in the list.
  abbrev pub Adds : List Entry → W → W → Type 0
  Adds ts w w' = (name : String) → has_table h w' name ≡ (is_one_of name ts || has_table h w name)

  abbrev SameNamespaces : W → W → Type 0
  SameNamespaces w w' = (name : String) → has_namespace h w' name ≡ has_namespace h w name

  one_table :
      (t : Entry) (n : ℕ) (w w' : W)
      → counted (lib.create_table h (identifier t.0) t.1 t.2 w) ≡ (ok n, w')
      → (n ≡ (if has_table h w (identifier t.0) then 0 else 1))
        × ((name : String)
            → has_table h w' name ≡ (str_eq (identifier t.0) name || has_table h w name))
        × SameNamespaces w w'
  one_table t n w w' e = elim (counted-ok _ n w' e) [
    | inl (made, one) ↦
        let (adds, same) = lib.adds_table h (identifier t.0) t.1 t.2 w w' made in
        elim (Bool-cases (has_table h w (identifier t.0))) [
          | inl there ↦
              cc (ap (λ x. x.0) (sym made ∙ lib.refuses_table h (identifier t.0) t.1 t.2 w there))
          | inr new ↦ (rw new one, adds, same)
        ]
    | inr (found, none_) ↦
        let there = lib.refused_table h (identifier t.0) t.1 t.2 w w' found in
        let still : w' ≡ w =
          ap (λ x. x.1) (sym found ∙ lib.refuses_table h (identifier t.0) t.1 t.2 w there) in
        (
          rw there none_,
          λ name. ap (λ x. has_table h x name) still ∙ found_already name there,
          λ name. ap (λ x. has_namespace h x name) still,
        )
  ]
    where
      found_already :
          (name : String)
          → has_table h w (identifier t.0) ≡ true
          → has_table h w name ≡ (str_eq (identifier t.0) name || has_table h w name)
      found_already name there = elim (Bool-cases (str_eq (identifier t.0) name)) [
        | inl q ↦
            rw q (subst (λ x. has_table h w x ≡ true) ((eq_iff (identifier t.0) name).0 q) there)
        | inr q ↦ rw q refl
      ]

  missing-after :
      (t : Entry) (ts : List Entry) (w w' : W)
      → ((name : String)
          → has_table h w' name ≡ (str_eq (identifier t.0) name || has_table h w name))
      → All (λ u. str_eq (identifier t.0) (identifier u.0) ≡ false) ts
      → missing w' ts ≡ missing w ts
  missing-after t ts w w' adds far = filter-agree _ _ ts (
      All-implies _ _ ts
        (λ u q. ap not (adds (identifier u.0) ∙ ap (λ b. b || has_table h w (identifier u.0)) q))
        far)

  pub missing-same :
      (ts : List Entry) (w w' : W)
      → ((name : String) → has_table h w' name ≡ has_table h w name)
      → missing w' ts ≡ missing w ts
  missing-same ts w w' same =
      filter-agree _ _ ts (All-of _ ts (λ u. ap not (same (identifier u.0))))

  count_on :
      (b : Bool) (c one : ℕ) (t : Entry) (ts : List Entry)
      → one ≡ (if b then 0 else 1)
      → c + one + length ts ≡ c + length (if not b then t ∷ ts else ts)
  count_on true c one t ts e = omega (arith, e)
  count_on false c one t ts e = omega (arith, e)

  or_assoc : (a b c : Bool) → (a || (b || c)) ≡ ((b || a) || c)
  or_assoc a b c = ground arith

  pub create_each-Adds :
      (ts : List Entry) (c n : ℕ) (w w' : W)
      → HasDistinct ts
      → create_each lib h ts c w ≡ (ok n, w')
      → (n ≡ c + length (missing w ts)) × Adds ts w w' × SameNamespaces w w'
  unfolding create_each
  create_each-Adds [] c n w w' d e =
      let same : w ≡ w' = ap (λ x. x.1) e in
      (
        omega (arith, ok-injective (ap (λ x. x.0) e)),
        λ name. ap (λ x. has_table h x name) (sym same),
        λ name. ap (λ x. has_namespace h x name) (sym same),
      )
  create_each-Adds ((name, schema, spec) ∷ ts) c n w w' (far, d) e =
      let t : Entry = (name, schema, spec) in
      let (one, w₁, first, rest) = continue-ok (counted _) _ e in
      let (counts, adds, same) = one_table t one w w₁ first in
      let (n_eq, adds', same') = create_each-Adds ts (c + one) n w₁ w' d rest in
      (
        n_eq
            ∙ ap (λ (l : List Entry). c + one + length l) (missing-after t ts w w₁ adds far)
            ∙ count_on (has_table h w (identifier name)) c one t (missing w ts) counts,
        λ x.
            adds' x
            ∙ ap (λ b. is_one_of x ts || b) (adds x)
            ∙ or_assoc (is_one_of x ts) (str_eq (identifier name) x) (has_table h w x),
        λ x. same' x ∙ same x,
      )

  pub create_each-none :
      (ts : List Entry) (c : ℕ) (w : W)
      → All (λ t. has_table h w (identifier t.0) ≡ true) ts
      → create_each lib h ts c w ≡ (ok c, w)
  unfolding create_each
  create_each-none [] c w a = refl
  create_each-none ((name, schema, spec) ∷ ts) c w a =
      rw (lib.refuses_table h (identifier name) schema spec w a.0)
        (ap (λ m. create_each lib h ts m w) (omega arith) ∙ create_each-none ts c w a.1)
