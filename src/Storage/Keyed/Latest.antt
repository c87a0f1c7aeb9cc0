-- ===== src/Storage/Keyed/Latest.antt =====
-- Upserts whose update replaces every column but the key: the last tuple of a batch for a key wins.
use gridpulse.Prelude.{
  ◌≡◌, refl, sym, ap, ◌∙◌, Bool, true, false, Option, none, some, List, [], ◌∷◌, Result, ok, Eq,
  All, if◌then◌else◌,
}
use mathlib.Core.Path.{subst}
use gridpulse.Storage.Keyed.{find, upsert, merged, All-find}
use gridpulse.Storage.Keyed.Batch.{run, row_after, find-upserts, table-run}

abbrev later : {V : Type 0} → Option V → Option V → Option V
later (some w) o = some w
later none o = o

module _ {V K : Type 0} ⦃e : Eq K⦄ (key : V → K) where
  -- The last tuple of a batch for a key.
  unfoldable pub last_for : K → List V → Option V
  last_for k [] = none
  last_for k (v ∷ vs) = later (last_for k vs) (if e.beq (key v) k then some v else none)

-- The row of a key after a batch: of the last tuple for it, or else the one that was there.
abbrev pub replaced : {V R : Type 0} → (V → R) → Option V → Option R → Option R
replaced fresh none old = old
replaced fresh (some v) old = some (fresh v)

module _ {V K R : Type 0} ⦃e : Eq K⦄ (key : V → K) (fresh : V → R) (update : V → R → R)
    -- what the columns of the key of a row say
    (Agrees : K → R → Type 0) (fresh_agrees : (v : V) → Agrees (key v) (fresh v))
    (replaces : (v : V) (r : R) → Agrees (key v) r → update v r ≡ fresh v) where
  abbrev AgreesAt : K → Option R → Type 0
  AgreesAt k none = Unit {0}
  AgreesAt k (some r) = Agrees k r

  merged-fresh :
      (v : V) (old : Option R) → AgreesAt (key v) old → merged (fresh v) (update v) old ≡ fresh v
  merged-fresh v none h = refl
  merged-fresh v (some r) h = replaces v r h

  replaced-later :
      (v : V) (last : Option V) (old : Option R)
      → replaced fresh last (some (fresh v)) ≡ replaced fresh (later last (some v)) old
  replaced-later v none old = refl
  replaced-later v (some w) old = refl

  later-none : (o : Option V) → later o none ≡ o
  later-none none = refl
  later-none (some w) = refl

  row_after-replaced :
      (k : K) (vs : List V) (old : Option R)
      → AgreesAt k old
      → row_after key fresh update k vs old ≡ replaced fresh (last_for key k vs) old
  unfolding row_after last_for
  row_after-replaced k [] old h = refl
  row_after-replaced k (v ∷ vs) old h = go (e.beq (key v) k) refl (row_after-replaced k vs)
    where
      go :
          (b : Bool)
          → e.beq (key v) k ≡ b
          → ((o : Option R)
              → AgreesAt k o
              → row_after key fresh update k vs o ≡ replaced fresh (last_for key k vs) o)
          → row_after key fresh update k vs
              (if b then some (merged (fresh v) (update v) old) else old)
            ≡ replaced fresh (later (last_for key k vs) (if b then some v else none)) old
      go true q ih =
          let same = (e.beq_iff (key v) k).0 q in
          let m = merged-fresh v old (subst (λ j. AgreesAt j old) (sym same) h) in
          ap (λ r. row_after key fresh update k vs (some r)) m
          ∙ ih (some (fresh v)) (subst (λ j. Agrees j (fresh v)) same (fresh_agrees v))
          ∙ replaced-later v (last_for key k vs) old
      go false q ih =
          ih old h ∙ ap (λ o. replaced fresh o old) (sym (later-none (last_for key k vs)))

  -- What a batch makes of a table whose rows agree with their keys.
  pub find-run :
      {D : Type 0} (table : D → List (K × R)) (statement : V → D → Result D)
      → ((v : V) (d d' : D)
          → statement v d ≡ ok d'
          → table d' ≡ upsert (key v) (fresh v) (update v) (table d))
      → (vs : List V) (d d' : D) → All (λ x. Agrees x.0 x.1) (table d)
      → run statement vs d ≡ ok d'
      → (k : K) → find k (table d') ≡ replaced fresh (last_for key k vs) (find k (table d))
  find-run table statement step vs d d' h ran k =
      ap (find k) (table-run key fresh update table statement step vs d d' ran)
      ∙ find-upserts key fresh update k vs (table d)
      ∙ row_after-replaced k vs (find k (table d)) (go (find k (table d)) refl)
    where
      go : (o : Option R) → find k (table d) ≡ o → AgreesAt k o
      go none q = tt
      go (some r) q = All-find Agrees k r (table d) h q
