-- ===== src/Migrations/Manager/Rerun.antt =====
-- A second `Run` of provider/pgsql/migrations.go over the same listing has nothing to do.
use mathlib.Core.Path.{ap₂}
use mathlib.Core.List.{append-nil, map-append}
use blueprint.Prelude.{
  Bool, true, false, not, ◌&&◌, ◌||◌, bytes_eq_refl, ◌≡◌, refl, sym, ap, ◌∙◌, none, some, List, [],
  ◌∷◌, ◌++◌, Bytes, contains, keep, arith,
}
use blueprint.Errors.{Err}
use blueprint.Migrations.Record.{MigrationRecord, Source, ProgressFn}
use blueprint.Migrations.Source.Listing.{contains-keep}
use blueprint.Migrations.Manager.{Database, run_files}
use blueprint.Migrations.Manager.View.{View, IsTransactional, IsQuiet, names}
use blueprint.Migrations.Manager.Run.{Ran, pending, run_files-Ran}

contains-append :
    (xs ys : List Bytes) (n : Bytes) → contains (xs ++ ys) n ≡ (contains xs n || contains ys n)
unfolding contains
contains-append [] ys n = refl
contains-append (x ∷ xs) ys n = ground (arith, contains-append xs ys n)

keep-eq-nil :
    (p : Bytes → Bool) (xs : List Bytes)
    → ((n : Bytes) → contains xs n ≡ true → p n ≡ false)
    → keep p xs ≡ []
unfolding keep contains
keep-eq-nil p [] h = refl
keep-eq-nil p (x ∷ xs) h =
    rw (h x (rw (bytes_eq_refl x) refl)) (keep-eq-nil p xs (λ n m. h n (ground arith)))

module _ {ℓ} {S : Type ℓ} (src : Source S) where
  Ran-nothing_pending :
      (prev files : List Bytes) (v w : View)
      → ((n : Bytes) → contains prev n ≡ contains (names v.registered) n)
      → Ran src (pending prev files) none v w
      → pending (names w.registered) files ≡ []
  unfolding pending
  Ran-nothing_pending prev files v w known r =
      keep-eq-nil (λ f. not (contains (names w.registered) f)) files
        λ n listed. ground (arith, all_names n, listed)
    where
      added : names r.records ≡ pending prev files
      added = sym (r.order ∙ rw r.outcome.0 (append-nil (names r.records)))

      all_names :
          (n : Bytes)
          → contains (names w.registered) n
            ≡ (contains prev n || (not (contains prev n) && contains files n))
      all_names n =
          rw (r.registered_eq, map-append)
            (contains-append (names v.registered) (names r.records) n
              ∙ ap₂ ◌||◌ (sym (known n)) (
                  ap (λ (xs : List Bytes). contains xs n) added
                  ∙ contains-keep (λ f. not (contains prev f)) files n))

  no_names :
      (ms : List MigrationRecord) (rest : List Bytes)
      → [] ≡ names ms ++ rest
      → (ms ≡ []) × (rest ≡ [])
  no_names [] rest h = (refl, sym h)
  no_names (m ∷ ms) rest h = ground (arith, h)

  Ran-nil :
      (e : Err) (v w : View)
      → Ran src [] e v w
      → (e ≡ none) × (w.applied ≡ v.applied) × (w.registered ≡ v.registered)
  Ran-nil none v w r =
      let (n, x) = no_names r.records r.rest r.order in
      (
        refl,
        r.applied_eq ∙ rw (n, r.outcome.1) (append-nil v.applied),
        r.registered_eq ∙ rw n (append-nil v.registered),
      )
  Ran-nil (some e) v w r =
      let (f, fs, left, _) = r.outcome in
      let (_, none_left) = no_names r.records r.rest r.order in
      absurd (ground (arith, left, none_left))

module _ {ℓ} {S : Type ℓ} (db : Database S) (view : S → View) (law : IsTransactional db view)
    (src : Source S) (fn : ProgressFn S) (quiet : IsQuiet src fn view) where
  -- On a server whose transactions work as documented, with a source and reports that leave the
  -- database alone: when the loop of `Run` returns nil, given the registered names, every migration
  -- of the listing is registered; and the loop over the same listing with the names then registered
  -- returns nil whatever the database answers, applies no script and registers nothing.
  pub run_files_twice :
      (prev files : List Bytes) (s : S)
      → ((n : Bytes) → contains prev n ≡ contains (names (view s).registered) n)
      → (run_files db src fn prev files s).0 ≡ none
      → let t = (run_files db src fn prev files s).1 in
        let again = run_files db src fn (names (view t).registered) files t in
        (pending (names (view t).registered) files ≡ [])
        × (again.0 ≡ none)
        × ((view again.1).applied ≡ (view t).applied)
        × ((view again.1).registered ≡ (view t).registered)
  run_files_twice prev files s known done =
      let (e, a, r) = Ran-nil src _ (view t) _ again in (nothing, e, a, r)
    where
      t : S
      t = (run_files db src fn prev files s).1

      nothing : pending (names (view t).registered) files ≡ []
      nothing =
          Ran-nothing_pending src prev files (view s) (view t) known
            (rw done at (run_files-Ran db src fn view law quiet prev files s))

      again :
          Ran src []
            (run_files db src fn (names (view t).registered) files t).0
            (view t)
            (view (run_files db src fn (names (view t).registered) files t).1)
      again =
          rw nothing at (run_files-Ran db src fn view law quiet (names (view t).registered) files t)
