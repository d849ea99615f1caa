-- ===== src/Migrations/Manager/Run.antt =====
-- What `Run` of provider/pgsql/migrations.go does to the database, whatever the listing, the
-- registered names and the failures.
use mathlib.Core.Path.{subst}
use mathlib.Core.List.{append-nil, append_assoc}
use blueprint.Prelude.{
  not, All, ◌⊎◌, ◌≡◌, refl, sym, ap, ◌∙◌, inl, inr, none, some, List, [], ◌∷◌, ◌++◌, map, Bytes,
  contains, keep, Bool-cases,
}
use blueprint.Errors.{Error, Err, ok, err, Result-cases}
use blueprint.Migrations.Record.{
  MigrationRecord, Source, ProgressFn, msg_error, msg_run_migration, msg_finished_migration,
  msg_skip_migration,
}
use blueprint.Migrations.Manager.{
  Database, run_migration, run_file, run_files, run_body, list, report_end, ◌>>◌,
}
use blueprint.Migrations.Manager.View.{View, IsTransactional, IsQuiet, names}
use blueprint.Migrations.Manager.Apply.{Grows, Attempt, run_migration_lem}

-- The names that are not registered yet, in the order of the listing.
unfoldable pub pending : List Bytes → List Bytes → List Bytes
unfolding keep
pending prev files = keep (λ f. not (contains prev f)) files

abbrev scripts : List MigrationRecord → List Bytes
scripts = map (λ (m : MigrationRecord). m.contents)

module _ {ℓ} {S : Type ℓ} (src : Source S) where
  -- `Read` gave the record for this name.
  abbrev pub IsGiven : Bytes → MigrationRecord → Type ℓ
  IsGiven f m = (s : S) × ((src.read f s).0 ≡ ok m)

  -- Nothing, or the record of this name.
  abbrev pub AtMost : Bytes → List MigrationRecord → Type ℓ
  AtMost f extra = (extra ≡ []) ⊎ ((m : MigrationRecord) × (extra ≡ m ∷ []) × IsGiven f m)

  -- A loop that returns nil has left nothing to do. One that returns an error stopped at the first
  -- name that is left, whose script may have been applied.
  abbrev pub Finished : Err → List Bytes → List MigrationRecord → Type ℓ
  Finished none rest extra = (rest ≡ []) × (extra ≡ []) × Unit {ℓ}
  Finished (some e) rest extra = (f : Bytes) × (fs : List Bytes) × (rest ≡ f ∷ fs) × AtMost f extra

  -- The records that a loop over `todo` has added, in order, are of the first names of `todo`, as
  -- `Read` gave them; their scripts were applied, and those of `extra`.
  pub record Ran (todo : List Bytes) (e : Err) (v w : View) : Type ℓ where
    pub records : List MigrationRecord
    pub extra : List MigrationRecord
    pub rest : List Bytes
    pub applied_eq : w.applied ≡ v.applied ++ (scripts records ++ scripts extra)
    pub registered_eq : w.registered ≡ v.registered ++ records
    pub order : todo ≡ names records ++ rest
    pub given : All (λ m. IsGiven m.name m) records
    pub outcome : Finished e rest extra

  abbrev RanFile : Bytes → Err → View → View → Type ℓ
  RanFile f none v w =
      (m : MigrationRecord) × (m.name ≡ f) × IsGiven f m × Grows v w (m.contents ∷ []) (m ∷ [])
  RanFile f (some e) v w =
      (extra : List MigrationRecord) × AtMost f extra × Grows v w (scripts extra) []

  Attempt-RanFile :
      (f : Bytes) (m : MigrationRecord) (e : Err) (v w : View)
      → m.name ≡ f
      → IsGiven f m
      → Attempt m e v w
      → RanFile f e v w
  Attempt-RanFile f m none v w n r g = (m, n, r, g)
  Attempt-RanFile f m (some e) v w n r (inl g) = ([], inl refl, g)
  Attempt-RanFile f m (some e) v w n r (inr g) = (m ∷ [], inr (m, refl, r), g)

  Ran-skip : (todo : List Bytes) (e : Err) (u v w : View) → v ≡ u → Ran todo e v w → Ran todo e u w
  Ran-skip todo e u v w p r = rw p at r

  Ran-next :
      (f : Bytes) (todo : List Bytes) (e : Err) (u v w : View)
      → RanFile f none u v
      → Ran todo e v w
      → Ran (f ∷ todo) e u w
  Ran-next f todo e u v w (m, n, read, g) r = record {
    records = m ∷ r.records;
    extra = r.extra;
    rest = r.rest;
    applied_eq = r.applied_eq ∙ rw (g.applied_eq, append_assoc);
    registered_eq = r.registered_eq ∙ rw (g.registered_eq, append_assoc);
    order = rw (r.order, n);
    given = (subst (λ x. IsGiven x m) (sym n) read, r.given);
    outcome = r.outcome;
  }

  Ran-stop :
      (f : Bytes) (todo : List Bytes) (e : Error) (u v : View)
      → RanFile f (some e) u v
      → Ran (f ∷ todo) (some e) u v
  Ran-stop f todo e u v (extra, at_most, g) = record {
    records = [];
    extra = extra;
    rest = f ∷ todo;
    applied_eq = g.applied_eq;
    registered_eq = g.registered_eq;
    order = refl;
    given = tt;
    outcome = (f, todo, refl, at_most);
  }

  Ran-none : (v : View) → Ran [] none v v
  Ran-none v = record {
    records = [];
    extra = [];
    rest = [];
    applied_eq = sym (append-nil v.applied);
    registered_eq = sym (append-nil v.registered);
    order = refl;
    given = tt;
    outcome = (refl, refl, tt);
  }

Grows-refl : {v w : View} → w ≡ v → Grows v w [] []
Grows-refl {v} p = rw p (record {
  applied_eq = sym (append-nil v.applied);
  registered_eq = sym (append-nil v.registered);
})

module _ {ℓ} {S : Type ℓ} (db : Database S) (src : Source S) (fn : ProgressFn S) (view : S → View)
    (law : IsTransactional db view) (quiet : IsQuiet src fn view) where
  report_end-RanFile :
      (f : Bytes) (r : Err × S) (v : View)
      → RanFile src f r.0 v (view r.1)
      → RanFile src f (report_end db src fn f r).0 v (view (report_end db src fn f r).1)
  report_end-RanFile f (none, s) v h = rw (quiet.report_view msg_finished_migration f none s) h
  report_end-RanFile f (some e, s) v h = rw (quiet.report_view msg_error f (some e) s) h

  run_file_lem :
      (f : Bytes) (s : S)
      → RanFile src f (run_file db src fn f s).0 (view s) (view (run_file db src fn f s).1)
  unfolding run_file
  run_file_lem f s = elim (Result-cases (src.read f s).0) [
    | inl (e, p) ↦
        rw (p, run_file)
          (
            [],
            inl refl,
            Grows-refl (quiet.report_view msg_error f (some e) _ ∙ quiet.read_view f s),
          )
    | inr (m, p) ↦
        let s1 = (src.read f s).1 in
        let s2 = fn msg_run_migration f none s1 in
        rw (p, run_file)
          (report_end-RanFile f (run_migration db m s2) (view s) (
            rw (quiet.report_view msg_run_migration f none s1 ∙ quiet.read_view f s) at (
              Attempt-RanFile src f m (run_migration db m s2).0 (view s2)
                (view (run_migration db m s2).1) (quiet.read_name f s m p) (s, p)
                (run_migration_lem db view law m s2))))
  ]

  Ran-then :
      (f : Bytes) (todo : List Bytes) (u : View) (r : Err × S) (k : S → Err × S)
      → RanFile src f r.0 u (view r.1)
      → ((t : S) → Ran src todo (k t).0 (view t) (view (k t).1))
      → Ran src (f ∷ todo) (r >> k).0 u (view (r >> k).1)
  Ran-then f todo u (none, s) k h rest =
      Ran-next src f todo (k s).0 u (view s) (view (k s).1) h (rest s)
  Ran-then f todo u (some e, s) k h rest = Ran-stop src f todo e u (view s) h

  -- On a server whose transactions work as documented, with a source and reports that leave the
  -- database alone, whatever is registered and whichever statements fail: the loop of `Run` applies
  -- the unregistered migrations of the listing in its order, and stops at the first failure. The
  -- records added are those that `Read` gave for the first of these names; their scripts were
  -- applied once each. If it returns nil, none is left, and nothing else was applied; otherwise at
  -- most one more script was, that of a record that `Read` gave for the first name that is left,
  -- the migration that it stopped at.
  pub run_files-Ran :
      (prev files : List Bytes) (s : S)
      → Ran src
          (pending prev files)
          (run_files db src fn prev files s).0
          (view s)
          (view (run_files db src fn prev files s).1)
  unfolding run_files pending
  run_files-Ran prev [] s = Ran-none src (view s)
  run_files-Ran prev (f ∷ fs) s = elim (Bool-cases (contains prev f)) [
    | inl old ↦
        let s1 = fn msg_skip_migration f none s in
        rw (old, run_files)
          (Ran-skip src (pending prev fs) _ _ _ _ (quiet.report_view msg_skip_migration f none s)
            (run_files-Ran prev fs s1))
    | inr new ↦
        rw (new, run_files)
          (Ran-then f (pending prev fs) (view s) (run_file db src fn f s)
            (run_files db src fn prev fs) (run_file_lem f s) (run_files-Ran prev fs))
  ]

pending-nil : (fs : List Bytes) → pending [] fs ≡ fs
unfolding pending contains
pending-nil [] = refl
pending-nil (f ∷ fs) = ap (λ (xs : List Bytes). f ∷ xs) (pending-nil fs)

module _ {ℓ} {S : Type ℓ} (db : Database S) (src : Source S) (fn : ProgressFn S) where
  -- The error of the manager's own `List` is dropped: where it fails, `Run` goes on as if nothing
  -- were registered, with every migration of the source pending.
  run_body-list_failed :
      (s : S) (files : List Bytes) (e : Error)
      → (src.list s).0 ≡ ok files
      → (list db (src.list s).1).0 ≡ err e
      → (run_body db src fn s ≡ run_files db src fn [] files (list db (src.list s).1).1)
        × (pending [] files ≡ files)
  unfolding run_body
  run_body-list_failed s files e listed failed =
      (rw (listed, run_body) (rw failed refl), pending-nil files)
