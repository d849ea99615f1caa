-- ===== src/Migrations/Record.antt =====
-- db/migrations/manager.go and the loader of db/migrations/disk.go. SHA-256 in hexadecimal and the
-- clock are the program's environment: `sha256_hex` is a function, and `now` acts on a state.
use blueprint.Prelude.{ℕ, Bytes, List}
use blueprint.Errors.{Err, Result}

pub record MigrationRecord : Type 0 where
  pub created : ℕ
  pub name : Bytes
  pub sha2 : Bytes
  pub contents : Bytes

-- What is outside of the program for a source: a hash function and a clock.
pub record Environment {ℓ} (S : Type ℓ) : Type ℓ where
  pub sha256_hex : Bytes → Bytes
  pub now : S → ℕ × S

module _ {ℓ} {S : Type ℓ} where
  unfoldable pub load_migration : Environment S → Bytes → Bytes → S → MigrationRecord × S
  load_migration env name content s =
      let (t, s') = env.now s in
      (record { created = t; name = name; sha2 = env.sha256_hex content; contents = content }, s')

-- The interface `Source`.
pub record Source {ℓ} (S : Type ℓ) : Type ℓ where
  pub list : S → Result (List Bytes) × S
  pub read : Bytes → S → Result MigrationRecord × S

-- MsgSkipMigration and the other message types.
pub data Msg : Type 0 where
  msg_skip_migration msg_run_migration msg_finished_migration msg_error : Msg

-- ProgressFn: it reports to the outside world.
abbrev pub ProgressFn {ℓ} : Type ℓ → Type ℓ
ProgressFn S = Msg → Bytes → Err → S → S
