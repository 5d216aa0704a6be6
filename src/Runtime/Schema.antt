-- ===== src/Runtime/Schema.antt =====
-- crates/agsv-runtime/src/store.rs and types.rs: opening the database, and the texts of its columns.
use text.Mathlib.Text.{◌==◌ as str_eq}
use agent_supervisor.Common.{
  String, ℕ, zero, suc, ◌+◌, ◌-◌, Bool, true, false, not, ◌&&◌, Option, none, some, List, [], ◌∷◌,
  ltb, ◌==◌, if◌then◌else◌,
}
use agent_supervisor.Common.Lists.{any}
use agent_supervisor.Common.Result.{Result, ok, err, fail_if, ◌>>◌}
use agent_supervisor.Runtime.Table.{I64, i64_zero, i64_one}
use agent_supervisor.Runtime.Types.{ActorRole, ActorState, ErrorCode, RuntimeError}

abbrev pub is_sqlite_lock_error : RuntimeError → Bool
is_sqlite_lock_error (RuntimeError.sqlite (some ErrorCode.database_busy)) = true
is_sqlite_lock_error (RuntimeError.sqlite (some ErrorCode.database_locked)) = true
is_sqlite_lock_error _ = false

abbrev pub initialization_retries : ℕ
initialization_retries = 8

-- The operation may change what it captures, `S`. No result is the `unreachable!` at the end.
module _ {S T : Type 0} (operation : S → Result RuntimeError T × S) where
  abbrev pub after_attempt :
      ℕ
      → Result RuntimeError T × S
      → Option (Result RuntimeError T) × S
      → Option (Result RuntimeError T) × S
  after_attempt attempt (ok value, s) again = (some (ok value), s)
  after_attempt attempt (err failure, s) again =
      if ltb (attempt + 1) initialization_retries && is_sqlite_lock_error failure
      then again
      else (some (err failure), s)

  -- The attempts that are left, from the one with the given number.
  unfoldable pub attempts_from : ℕ → ℕ → S → Option (Result RuntimeError T) × S
  attempts_from zero attempt s = (none, s)
  attempts_from (suc left) attempt s =
      let tried = operation s in
      let again = attempts_from left (attempt + 1) tried.1 in after_attempt attempt tried again

  unfoldable pub retry_initialization : S → Option (Result RuntimeError T) × S
  retry_initialization s = attempts_from initialization_retries 0 s

abbrev pub current_schema_version : I64
current_schema_version = 9223372036854775810

abbrev pub last_or : I64 → List I64 → I64
last_or n [] = n
last_or n (v ∷ vs) = last_or v vs

-- `(first..=last).collect()`, by the number of its elements.
unfoldable pub count_up : I64 → ℕ → List I64
count_up first zero = []
count_up first (suc n) = first ∷ count_up (first + 1) n

unfoldable pub same_versions : List I64 → List I64 → Bool
same_versions [] [] = true
same_versions [] (w ∷ ws) = false
same_versions (v ∷ vs) [] = false
same_versions (v ∷ vs) (w ∷ ws) = v == w && same_versions vs ws

unfoldable pub validate_versions : List I64 → Result RuntimeError (Unit {0})
validate_versions versions = do
  fail_if (any (ltb current_schema_version) versions) RuntimeError.schema_version
  fail_if (not (same_versions versions (count_up i64_one (last_or i64_zero versions - i64_zero))))
      RuntimeError.schema_version

abbrev pub role_as_str : ActorRole → String
role_as_str ActorRole.primary = "primary"
role_as_str ActorRole.implementation = "implementation"

unfoldable pub role_from_str : String → Result RuntimeError ActorRole
role_from_str value =
    if str_eq value "primary"
    then ok ActorRole.primary
    else if str_eq value "implementation"
    then ok ActorRole.implementation
    else err RuntimeError.corrupt

unfoldable pub state_from_str : String → Result RuntimeError ActorState
state_from_str value =
    if str_eq value "starting"
    then ok ActorState.starting
    else if str_eq value "online"
    then ok ActorState.online
    else if str_eq value "offline"
    then ok ActorState.offline
    else if str_eq value "stopped"
    then ok ActorState.stopped
    else err RuntimeError.corrupt
