-- ===== src/Platform/Migrate/Rerun.antt =====
-- A second start applies nothing.
use kde_auth.Prelude.{
  ◌≡◌, refl, sym, ap, ◌∙◌, subst, String, Bool, true, false, Option, some, none, List, [], ◌∷◌,
  ◌++◌, not, ◌||◌, ◌==◌, exists, All, arith, Bool-cases, inl, inr, str_eq_refl, if◌then◌else◌,
}
use kde_auth.Platform.Migrate.{
  Database, Surroundings, version_of, is_applied, with_version, applied_script, apply_file,
  apply_files, migrate, script_files, continue, of_entries, Entry,
}

exists-append {ℓ} :
    {A : Type ℓ} (p : A → Bool) (xs ys : List A)
    → exists p (xs ++ ys) ≡ (exists p xs || exists p ys)
exists-append p [] ys = refl
exists-append p (x ∷ xs) ys = ground (arith, exists-append p xs ys)

module _ (env : Surroundings) where
  -- Versions are only added.
  abbrev Extends : Database → Database → Type 0
  Extends db later = (v : String) → is_applied env v db ≡ true → is_applied env v later ≡ true

  -- A file that was gone through without an error is recorded, and looking it up does not fail.
  abbrev pub IsDone : Database → String → Type 0
  IsDone db name =
      (env.looked_up (version_of name) ≡ true) × (is_applied env (version_of name) db ≡ true)

  with_version-Extends :
      (version script : String) (db : Database) → Extends db (with_version env version script db)
  unfolding is_applied
  with_version-Extends version script db v h =
      exists-append (λ x. x == v) db.versions (version ∷ []) ∙ rw h refl

  with_version-is_applied :
      (version script : String) (db : Database)
      → is_applied env version (with_version env version script db) ≡ true
  unfolding is_applied
  with_version-is_applied version script db =
      exists-append (λ x. x == version) db.versions (version ∷ [])
      ∙ ground (arith, str_eq_refl version)

  applied_script_ok :
      (version : String) (script : Option String) (db later : Database)
      → applied_script env version script db ≡ (true, later)
      → (is_applied env version later ≡ true) × Extends db later
  applied_script_ok version none db later h = absurd (ground arith)
  applied_script_ok version (some script) db later h = elim (Bool-cases (env.runs script)) [
    | inr failed ↦ absurd (ground arith)
    | inl ran ↦ elim (Bool-cases (env.recorded version)) [
      | inr failed ↦ absurd (ground arith)
      | inl written ↦
          let same : with_version env version script db ≡ later = ground arith in
          (
            subst (λ (d : Database). is_applied env version d ≡ true) same
                (with_version-is_applied version script db),
            subst (λ (d : Database). Extends db d) same (with_version-Extends version script db),
          )
    ]
  ]

  apply_file_ok :
      (name : String) (db later : Database)
      → apply_file env name db ≡ (true, later)
      → IsDone later name × Extends db later
  unfolding apply_file
  apply_file_ok name db later h = elim (Bool-cases (env.looked_up (version_of name))) [
    | inr failed ↦ absurd (ground arith)
    | inl found ↦ elim (Bool-cases (is_applied env (version_of name) db)) [
      | inl there ↦
          let same : db ≡ later = ground arith in
          (
            (found, subst (λ (d : Database). is_applied env (version_of name) d ≡ true) same there),
            subst (λ (d : Database). Extends db d) same (λ v a. a),
          )
      | inr fresh ↦
          let run : applied_script env (version_of name) (env.read_file name) db ≡ (true, later) =
            (λ i.
              if not (sym found i)
              then (false, db)
              else if sym fresh i
              then (true, db)
              else applied_script env (version_of name) (env.read_file name) db)
            ∙ h in
          let (done, kept) =
            applied_script_ok (version_of name) (env.read_file name) db later run in
          ((found, done), kept)
    ]
  ]

  apply_files_ok :
      (names : List String) (db later : Database)
      → apply_files env names db ≡ (true, later)
      → All (IsDone later) names × Extends db later
  unfolding apply_files
  apply_files_ok [] db later h =
      (tt, subst (λ (d : Database). Extends db d) (ap (λ (p : Bool × Database). p.1) h) (λ v a. a))
  apply_files_ok (name ∷ names) db later h =
      let (b, mid) = apply_file env name db in
      elim (Bool-cases b) [
        | inr failed ↦
            let no : false ≡ true =
              (λ i. (continue env (sym failed i, mid) (apply_files env names mid)).0)
              ∙ ap (λ (p : Bool × Database). p.0) h in
            absurd (ground (arith, no))
        | inl went ↦
            let first : apply_file env name db ≡ (true, mid) = λ i. (went i, mid) in
            let (done, kept) = apply_file_ok name db mid first in
            let (rest, kept') =
              apply_files_ok names mid later
                ((λ i. continue env (sym went i, mid) (apply_files env names mid)) ∙ h) in
            (((done.0, kept' (version_of name) done.1), rest), (λ v a. kept' v (kept v a)))
      ]

  apply_files_done :
      (names : List String) (db : Database)
      → All (IsDone db) names
      → apply_files env names db ≡ (true, db)
  unfolding apply_files apply_file
  apply_files_done [] db a = refl
  apply_files_done (name ∷ names) db a = rw (a.0.0, a.0.1) (apply_files_done names db a.1)

  -- After a start whose migrations went through, a second start in the same surroundings goes
  -- through, too, and runs no script and records no version.
  pub migrate-rerun :
      (db later : Database) → migrate env db ≡ (true, later) → migrate env later ≡ (true, later)
  unfolding migrate
  migrate-rerun db later h = elim (Bool-cases env.table_ready) [
    | inr failed ↦ absurd (ground arith)
    | inl ready ↦
        let run =
          (λ i. if not (sym ready i) then (false, db) else of_entries env env.entries db) ∙ h in
        (λ i. if not (ready i) then (false, later) else of_entries env env.entries later)
        ∙ again env.entries run
  ]
    where
      again :
          (entries : Option (List Entry))
          → of_entries env entries db ≡ (true, later)
          → of_entries env entries later ≡ (true, later)
      again none g = absurd (ground arith)
      again (some entries) g =
          let names = script_files env entries in
          apply_files_done names later (apply_files_ok names db later g).0
