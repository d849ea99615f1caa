-- ===== src/Errors.antt =====
-- utils/error.go: Go's `error` values. A sentinel constant of the repository is a constructor of
-- its own, named after the constant; `foreign` is an error that code outside the repository made.
-- A nil error is `none`.
use blueprint.Prelude.{ℕ, Option, ◌≡◌, refl, ◌⊎◌, inl, inr, arith}

pub data Error : Type 0 where
  err_no_key err_not_implemented err_invalid_type err_json_invalid_source : Error
  err_invalid_parameters : Error
  err_invalid_worker_count err_invalid_queue_size : Error
  err_pool_not_started err_pool_already_started : Error
  err_path_not_found err_invalid_path err_invalid_file err_read_migration : Error
  err_file_not_found err_migration_name_hash_mismatch err_migration_exists : Error
  err_cert_not_found err_invalid_pem err_key_not_found err_key_error : Error
  err_missing_password err_decrypt_error err_invalid_cert : Error
  err_invalid_cipher err_invalid_tls_version err_invalid_peer_cert err_forbidden_dns : Error
  err_invalid_hash err_incompatible_version : Error
  err_nil_config err_nil_client_config err_invalid_auth_type : Error
  err_missing_consumer_broker err_missing_consumer_topic err_missing_consumer_group : Error
  err_consumer_already_connected err_missing_admin_broker : Error
  err_missing_producer_broker err_missing_producer_topic err_producer_closed : Error
  err_missing_broker err_invalid_protocol err_invalid_timeout : Error
  err_invalid_qos_level err_publish_timeout : Error
  err_empty_dsn err_invalid_idle_conns err_invalid_max_conns : Error
  err_invalid_conn_life_time err_invalid_conn_idle_time : Error
  foreign : ℕ → Error

-- A function of the source that returns a value or an error, and never both.
pub data Result {ℓ} (A : Type ℓ) : Type ℓ where
  ok : A → Result A
  err : Error → Result A

-- What a function that returns only an `error` returns.
abbrev pub Err : Type 0
Err = Option Error

pub Result-cases {ℓ} :
    {A : Type ℓ} (r : Result A) → ((e : Error) × (r ≡ err e)) ⊎ ((a : A) × (r ≡ ok a))
Result-cases (err e) = inl (e, refl)
Result-cases (ok a) = inr (a, refl)

-- `if err != nil { return nil, err }` after a call.
abbrev pub and_then {ℓ κ} : {A : Type ℓ} {B : Type κ} → Result A → (A → Result B) → Result B
and_then (err e) f = err e
and_then (ok a) f = f a

pub and_then-ok {ℓ κ} :
    {A : Type ℓ} {B : Type κ} (r : Result A) (f : A → Result B) (b : B)
    → and_then r f ≡ ok b
    → (a : A) × (r ≡ ok a) × (f a ≡ ok b)
and_then-ok (err e) f b h = ground arith
and_then-ok (ok a) f b h = (a, refl, h)
