-- ===== src/Migrations/Progress.antt =====
-- db/migrations/manager.go: what `DefaultProgressFn` prints. `error_text` is the method `Error` of
-- an error, and `println` is fmt's. A message type is one of four, so the default case is left out.
use blueprint.Prelude.{Bytes, codes, ◌++◌, none, some}
use blueprint.Errors.{Error, Err}
use blueprint.Console.{regular, info, error}
use blueprint.Migrations.Record.{
  Msg, ProgressFn, msg_skip_migration, msg_run_migration, msg_finished_migration, msg_error,
}

module _ (error_text : Error → Bytes) where
  abbrev reason : Err → Bytes
  reason none = codes "-"
  reason (some e) = error_text e

  unfoldable pub progress_message : Msg → Bytes → Err → Bytes
  unfolding regular info error
  progress_message msg_run_migration name e =
      regular (codes "Running migration '" ++ (name ++ codes "'..."))
  progress_message msg_finished_migration name e =
      regular (codes "Migration '" ++ (name ++ codes "' finished successfully"))
  progress_message msg_skip_migration name e =
      info (codes "Migration '" ++ (name ++ codes "' already run, skipping"))
  progress_message msg_error name e =
      error (codes "Error executing migration '" ++ (name ++ (codes "': " ++ reason e)))

  unfoldable pub default_progress_fn : {S : Type 0} → (Bytes → S → S) → ProgressFn S
  unfolding progress_message
  default_progress_fn println msg_type name e s = println (progress_message msg_type name e) s
