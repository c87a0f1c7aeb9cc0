-- ===== src/Dagster/Backup/Uploads.antt =====
-- What is uploaded, and when.
use gridpulse.Prelude.{
  required, ℕ, ◌≤◌, String, ◌≡◌, refl, sym, true, Option, List, [], ◌∷◌, ◌++◌, Result, ok, raise,
  Exc, runtime_error, Exec, continue, ltb, ltb-false, Bool-cases, inl, inr, is_exception,
}
use mathlib.Core.Path.{subst}
use gridpulse.Heartbeat.{Observed}
use gridpulse.Heartbeat.Transparent.{with_heartbeat_transparent}
use gridpulse.Dagster.Metadata.{Metadata}
use gridpulse.Dagster.Backup.{
  Date, Machine, Bucket, backup_key, local_path_of, on_world, suppressed, dump_to_gzip, r2_client,
  sent_to, checked, with_settings, backup, backup_postgres, backup_metadata,
}
use gridpulse.Dagster.Backup.Dump.{IsDump, dump_to_gzip-IsDump}

abbrev pub Upload : Type 0
Upload = String × String × String

module _ {W P C : Type 0} (machine : Machine W P C) where
  module _ {F : Type 0} (today : Date) (environ : String → Option String) where
    -- How a run ends from the uploads `past`: it raised and uploaded nothing; or it had a dump, with
    -- a file of at least a million bytes, and tried one upload, of that file under the key of the
    -- day.
    pub data Ends (past : List Upload) : Result (Metadata F) → List Upload → Type 0 where
      nothing_sent : (e : Exc) → Ends past (raise e) past
      sent_once :
          (r : Result (Metadata F)) (url bucket : String) (raw size : ℕ) (w w' : W)
          → required (environ "DATABASE_URL") ≡ ok url
          → required (environ "R2_BUCKET") ≡ ok bucket
          → IsDump machine url raw
          → machine.getsize (local_path_of today) w ≡ (ok size, w')
          → 1_000_000 ≤ size
          → Ends past r (past ++ (local_path_of today, bucket, backup_key today) ∷ [])

    abbrev EndsIn : List Upload → Result (Metadata F) × Bucket W → Type 0
    EndsIn past (r, s) = Ends past r s.uploads

    abbrev uploads_of : Result (Metadata F) × Bucket W → List Upload
    uploads_of (r, s) = s.uploads

    module _ (ratio : ℕ → ℕ → F) (zero_ : F) (url bucket : String)
        (database : required (environ "DATABASE_URL") ≡ ok url)
        (named : required (environ "R2_BUCKET") ≡ ok bucket) (raw : ℕ)
        (dump : IsDump machine url raw) where
      abbrev rest : ℕ → C → Exec (Bucket W) (Metadata F)
      rest size r2 = sent_to machine environ ratio zero_ today bucket raw size r2

      sent_to-uploads :
          (size : ℕ) (r2 : C) (s : Bucket W)
          → (rest size r2 s).1.uploads
            ≡ s.uploads ++ (local_path_of today, bucket, backup_key today) ∷ []
      sent_to-uploads size r2 s =
          go (machine.upload r2 (local_path_of today) bucket (backup_key today) s.world)
        where
          past : List Upload
          past = s.uploads ++ (local_path_of today, bucket, backup_key today) ∷ []

          cleaned :
              (x : Result (Unit {0}) × W)
              → uploads_of (
                  continue
                    (x.0, record { world = x.1; uploads = past })
                    λ _ s''. (ok (backup_metadata machine environ ratio zero_ today raw size), s''))
                ≡ past
          cleaned (ok u, w) = refl
          cleaned (raise e, w) = refl

          go :
              (x : Result (Unit {0}) × W)
              → uploads_of (
                  continue
                    (x.0, record { world = x.1; uploads = past })
                    λ _ s'.
                      continue
                        (on_world (λ w. suppressed (machine.unlink (local_path_of today) w)) s')
                        λ _ s''.
                          (ok (backup_metadata machine environ ratio zero_ today raw size), s''))
                ≡ past
          go (ok u, w) = cleaned (suppressed (machine.unlink (local_path_of today) w))
          go (raise e, w) = refl

      module _ (size : ℕ) (w w' : W)
          (sized : machine.getsize (local_path_of today) w ≡ (ok size, w')) where
        connected :
            (x : Result C × W) (past : List Upload)
            → 1_000_000 ≤ size
            → EndsIn past (continue (x.0, record { world = x.1; uploads = past }) (rest size))
        connected (raise e, v) past large = nothing_sent e
        connected (ok r2, v) past large =
            subst (Ends past (rest size r2 (record { world = v; uploads = past })).0)
              (sym (sent_to-uploads size r2 (record { world = v; uploads = past })))
              (sent_once _ url bucket raw size w w' database named dump sized large)

        checked-Ends :
            (s : Bucket W)
            → EndsIn s.uploads (checked machine environ ratio zero_ today bucket raw size s)
        checked-Ends s = elim (Bool-cases (ltb size 1_000_000)) [
          | inl small ↦ rw small (nothing_sent runtime_error)
          | inr large ↦
              rw large
                (connected (r2_client machine environ s.world) s.uploads (ltb-false _ _ large))
        ]

      measured :
          (w : W) (x : Result ℕ × W) (past : List Upload)
          → machine.getsize (local_path_of today) w ≡ x
          → EndsIn past (
              continue
                (x.0, record { world = x.1; uploads = past })
                (checked machine environ ratio zero_ today bucket raw))
      measured w (raise e, v) past h = nothing_sent e
      measured w (ok size, v) past h = checked-Ends size w v h _

    module _ (ratio : ℕ → ℕ → F) (zero_ : F) where
      after_dump :
          (url bucket : String) (w : W) (x : Result ℕ × W) (past : List Upload)
          → required (environ "DATABASE_URL") ≡ ok url
          → required (environ "R2_BUCKET") ≡ ok bucket
          → dump_to_gzip machine url (local_path_of today) w ≡ x
          → EndsIn past (
              continue
                (x.0, record { world = x.1; uploads = past })
                λ raw_bytes s'.
                  continue
                    (on_world (machine.getsize (local_path_of today)) s')
                    (checked machine environ ratio zero_ today bucket raw_bytes))
      after_dump url bucket w (raise e, v) past database named h = nothing_sent e
      after_dump url bucket w (ok raw, v) past database named h =
          measured ratio zero_ url bucket database named raw
            (dump_to_gzip-IsDump machine url (local_path_of today) raw w v h) v
            (machine.getsize (local_path_of today) v) past refl

      with_settings-Ends :
          (url bucket : Result String) (s : Bucket W)
          → required (environ "DATABASE_URL") ≡ url
          → required (environ "R2_BUCKET") ≡ bucket
          → EndsIn s.uploads (with_settings machine environ ratio zero_ today url bucket s)
      with_settings-Ends (ok url) (ok bucket) s database named =
          after_dump url bucket s.world (dump_to_gzip machine url (local_path_of today) s.world)
            s.uploads database named refl
      with_settings-Ends (raise e) bucket s database named = nothing_sent e
      with_settings-Ends (ok url) (raise e) s database named = nothing_sent e

      -- Where a ping fails only with a subclass of `Exception`, a run of the backup that returns has
      -- tried one upload; and a run tries none, or one, and that only when pg_dump, on the database
      -- that the environment names, had exited with 0, all its output was counted, and the file was
      -- of at least a million bytes: of that file, to the bucket that the environment names, under
      -- the key of the day.
      pub backup_postgres_uploads :
          (strip : String → String) (get : String → List String → Result (Unit {0}))
          (s : Observed (Bucket W))
          → ((url : String) (past : List String) (e : Exc)
              → get url past ≡ raise e
              → is_exception e ≡ true)
          → let (r, s') = backup_postgres machine environ ratio zero_ today strip get s in
            Ends s.world.uploads r s'.world.uploads
      unfolding backup_postgres backup
      backup_postgres_uploads strip get s only_exceptions =
          rw
            (with_heartbeat_transparent environ strip get only_exceptions "backup_postgres"
              (backup machine environ ratio zero_ today) s)
            (with_settings-Ends _ _ s.world refl refl)
