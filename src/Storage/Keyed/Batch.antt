-- ===== src/Storage/Keyed/Batch.antt =====
-- A statement run with each tuple of a list in turn, until one raises, and what a list of upserts
-- does to a table.
use gridpulse.Prelude.{
  ◌≡◌, refl, ap, sym, ◌∙◌, true, Option, some, List, [], ◌∷◌, Result, ok, >>=-eq-ok, ok-injective,
  ◌>>=◌, arith, Eq, if◌then◌else◌, ◌↔◌,
}
use mathlib.Core.Path.{subst}
use gridpulse.Storage.Keyed.{find, upsert, merged, find-upsert, IsKeyed, upsert-IsKeyed}

module _ {V D : Type 0} where
  unfoldable pub run : (V → D → Result D) → List V → D → Result D
  run f [] d = ok d
  run f (v ∷ vs) d = f v d >>= run f vs

  -- What each statement keeps, the batch keeps.
  pub run-keeps :
      (Keeps : D → D → Type 0) (f : V → D → Result D)
      → ((d : D) → Keeps d d)
      → ((a b c : D) → Keeps a b → Keeps b c → Keeps a c)
      → ((v : V) (d d' : D) → f v d ≡ ok d' → Keeps d d')
      → (vs : List V) (d d' : D) → run f vs d ≡ ok d'
      → Keeps d d'
  unfolding run
  run-keeps Keeps f same chain step [] d d' h = subst (Keeps d) (ok-injective h) (same d)
  run-keeps Keeps f same chain step (v ∷ vs) d d' h =
      let (m, e, k) = >>=-eq-ok (f v d) (run f vs) h in
      chain d m d' (step v d m e) (run-keeps Keeps f same chain step vs m d' k)

-- Upserts: the tuple gives the key, the new row, and the update of a row in conflict.
module _ {V K R : Type 0} ⦃e : Eq K⦄ (key : V → K) (fresh : V → R) (update : V → R → R) where
  pub upserts : List V → List (K × R) → List (K × R)
  upserts [] t = t
  upserts (v ∷ vs) t = upserts vs (upsert (key v) (fresh v) (update v) t)

  -- What becomes of the row at one key.
  unfoldable pub row_after : K → List V → Option R → Option R
  row_after k [] old = old
  row_after k (v ∷ vs) old =
      row_after k vs (if e.beq (key v) k then some (merged (fresh v) (update v) old) else old)

  pub find-upserts :
      (k : K) (vs : List V) (t : List (K × R)) → find k (upserts vs t) ≡ row_after k vs (find k t)
  unfolding upserts row_after
  find-upserts k [] t = refl
  find-upserts k (v ∷ vs) t =
      find-upserts k vs (upsert (key v) (fresh v) (update v) t)
      ∙ ap (row_after k vs)
          (find-upsert (key v) k (fresh v) (update v) t ∙ same_key (e.beq_iff (key v) k))
    where
      same_key :
          (e.beq (key v) k ≡ true) ↔ (key v ≡ k)
          → (if e.beq (key v) k
              then some (merged (fresh v) (update v) (find (key v) t))
              else find k t)
            ≡ (if e.beq (key v) k then some (merged (fresh v) (update v) (find k t)) else find k t)
      same_key i = ground (arith, i)

  pub upserts-IsKeyed : (vs : List V) (t : List (K × R)) → IsKeyed t → IsKeyed (upserts vs t)
  unfolding upserts
  upserts-IsKeyed [] t h = h
  upserts-IsKeyed (v ∷ vs) t h =
      upserts-IsKeyed vs _ (upsert-IsKeyed (key v) (fresh v) (update v) t h)

  -- A batch of statements that each upsert into the table `table d` upserts all of them.
  pub table-run :
      {D : Type 0} (table : D → List (K × R)) (f : V → D → Result D)
      → ((v : V) (d d' : D)
          → f v d ≡ ok d'
          → table d' ≡ upsert (key v) (fresh v) (update v) (table d))
      → (vs : List V) (d d' : D) → run f vs d ≡ ok d'
      → table d' ≡ upserts vs (table d)
  unfolding upserts run
  table-run table f step [] d d' h = ap table (sym (ok-injective h))
  table-run table f step (v ∷ vs) d d' h =
      let (m, e1, k) = >>=-eq-ok (f v d) (run f vs) h in
      table-run table f step vs m d' k ∙ ap (upserts vs) (step v d m e1)
