-- ===== src/Dagster/Backup/Dump.antt =====
-- What a dump that returned has written.
use gridpulse.Prelude.{
  ℕ, ◌+◌, String, ℤ, pos, negsuc, ◌≡◌, ap, sym, ◌∙◌, true, List, [], ◌∷◌, length, Result, ok, raise,
  runtime_error, Bool-cases, inl, inr, ok-injective, ==_iff, arith, if◌then◌else◌,
}
use gridpulse.Ingestion.Fetch.Rows.{continue-ok}
use gridpulse.Dagster.Backup.{Machine, is_zero, pump, piped, left, dump_command, dump_to_gzip}

abbrev pub total : List (List ℕ) → ℕ
total [] = 0
total (chunk ∷ rest) = length chunk + total rest

is_zero-eq : (a : ℤ) → is_zero a ≡ true → a ≡ pos 0
is_zero-eq (pos n) h = ap pos ((==_iff n 0).0 h)
is_zero-eq (negsuc n) h = cc

module _ {W P C : Type 0} (machine : Machine W P C) where
  -- A dump of `raw` bytes of the database at `url`: pg_dump ran, all that it wrote is counted, and it exited with 0.
  pub record IsDump (url : String) (raw : ℕ) : Type 0 where
    pub proc : P
    pub before : W
    pub begun : W
    pub ran : machine.popen (dump_command machine url) before ≡ (ok proc, begun)
    pub all_counted : raw ≡ total (machine.chunks proc)
    pub waited : W
    pub ended : W
    pub exited_zero : machine.wait proc waited ≡ (ok (pos 0), ended)

  pump-total :
      (path : String) (chunks : List (List ℕ)) (written n : ℕ) (w w' : W)
      → pump machine path chunks written w ≡ (ok n, w')
      → n ≡ written + total chunks
  unfolding pump
  pump-total path [] written n w w' h = omega (arith, ok-injective (ap (λ x. x.0) h))
  pump-total path (chunk ∷ rest) written n w w' h =
      let (u, w₁, _, more) = continue-ok (machine.gz_write path chunk w) _ h in
      omega (arith, pump-total path rest (written + length chunk) n w₁ w' more)

  zero_exit :
      (code : ℤ) (written raw : ℕ)
      → (if is_zero code then ok written else raise runtime_error) ≡ ok raw
      → (code ≡ pos 0) × (written ≡ raw)
  zero_exit code written raw = elim (Bool-cases (is_zero code)) [
    | inl z ↦ rw z λ h. (is_zero-eq code z, ok-injective h)
    | inr z ↦ rw z λ h. cc
  ]

  left-ok :
      (path : String) (r : Result ℕ × W) (n : ℕ) (w : W)
      → left machine path r ≡ (ok n, w)
      → r.0 ≡ ok n
  left-ok path (r, w') n w h =
      let (u, w₁, _, e) = continue-ok (machine.exits path w') _ h in ap (λ x. x.0) e

  piped-IsDump :
      (path url : String) (proc : P) (raw : ℕ) (before w : W)
      → machine.popen (dump_command machine url) before ≡ (ok proc, w)
      → (piped machine path proc w).0 ≡ ok raw
      → IsDump url raw
  piped-IsDump path url proc raw before w started h =
      let (written, w₁, pumped, e) =
        continue-ok (pump machine path (machine.chunks proc) 0 w) _
          (ap (λ r. (r, (piped machine path proc w).1)) h) in
      let (code, w₂, waited, e') = continue-ok (machine.wait proc w₁) _ e in
      let (z, same) = zero_exit code written raw (ap (λ x. x.0) e') in
      record {
        proc = proc;
        before = before;
        begun = w;
        ran = started;
        all_counted =
            sym same ∙ omega (arith, pump-total path (machine.chunks proc) 0 written w w₁ pumped);
        waited = w₁;
        ended = w₂;
        exited_zero = waited ∙ ap (λ c. (ok c, w₂)) z;
      }

  pub dump_to_gzip-IsDump :
      (url path : String) (raw : ℕ) (w w' : W)
      → dump_to_gzip machine url path w ≡ (ok raw, w')
      → IsDump url raw
  unfolding dump_to_gzip
  dump_to_gzip-IsDump url path raw w w' h =
      let (u, w₁, _, e) = continue-ok (machine.gzip_open path w) _ h in
      let (proc, w₂, started, e') = continue-ok (machine.popen (dump_command machine url) w₁) _ e in
      piped-IsDump path url proc raw w₁ w₂ started
        (left-ok path (piped machine path proc w₂) raw w' e')
