-- ===== src/Runtime/Examples.antt =====
-- crates/agsv-runtime/src/store.rs: runs of the store's operations on a workspace with one actor.
use mathlib.Core.List.{Memᴰ}
use text.Mathlib.TextEquality.{eq_iff}
use agent_supervisor.Common.{
  String, ℕ, ◌+◌, ◌≡◌, ◌≢◌, ◌↔◌, ◌<◌, ◌≤◌, refl, true, false, none, some, [], ◌∷◌, arith, ltb,
  if◌then◌else◌,
}
use agent_supervisor.Common.Result.{Result, ok, err}
use agent_supervisor.Runtime.Table.{I64, count_where, update_where, upsert, least}
use agent_supervisor.Runtime.Types.{
  PathBuf, ActorRole, ActorRecord, DaemonLease, LaunchIntent, LaunchIntentState, MessageRecord,
  ErrorCode, RuntimeError,
}
use agent_supervisor.Runtime.Store.{
  Store, require_positive_ttl, append_audit, actor_from_raw, actor_by_id, active_actor,
  validate_daemon_in_transaction, ensure_epoch_update,
}
use agent_supervisor.Runtime.Leases.{acquire_daemon_lease, validate_daemon_lease}
use agent_supervisor.Runtime.Actors.{register_actor, attach_session}
use agent_supervisor.Runtime.Launch.{
  launch_intent, same_launch_intent, prepare_launch, checkpoint_launch,
}
use agent_supervisor.Runtime.Messages.{
  message_by_id, message_by_idempotency, queued, same_message, authorize_message, send_message,
}
use agent_supervisor.Runtime.Claims.{
  is_claimable, is_stale_actor, is_stale_claim, claim_message, acknowledge_message, retry_message,
  reconcile_expired,
}
use agent_supervisor.Runtime.Steps.{Step, Reach, empty}
use agent_supervisor.Runtime.Queue.{Later}
use agent_supervisor.Runtime.History.{Reach-Later}
use agent_supervisor.Runtime.Schema.{validate_versions, count_up, role_as_str, role_from_str}
use agent_supervisor.Runtime.Grant.{Granted, claim_message-Granted, claim_message-idle}
use agent_supervisor.Runtime.Superseded.{superseded-refused}
use agent_supervisor.Runtime.Resent.{send_message-again}
use agent_supervisor.Runtime.Permitted.{Permitted, authorize_message-Permitted}
use agent_supervisor.Runtime.Swept.{reconcile_expired-once}
use agent_supervisor.Runtime.Exclusive.{acquire_daemon_lease-fences, acquire_daemon_lease-held}
use agent_supervisor.Runtime.Progress.{Onward}
use agent_supervisor.Runtime.Resumed.{Reach-Onward}
use agent_supervisor.Runtime.Retaken.{prepare_launch-again}
use agent_supervisor.Runtime.Opening.{
  Decided, retry_initialization-Decided, validate_versions-accepts, role_from_str-role_as_str,
}
use agent_supervisor.Runtime.Scene.{
  at, after, online, note, sender, posted, first, first_claim, second, second_claim, posted-Reach,
  first_claimed, second_claimed, nothing_left,
}

claim_message-Granted_example : Granted "w" "a" (at 1) (at 2) (at 5) posted first_claim first
claim_message-Granted_example =
    claim_message-Granted "w" "a" (at 1) (at 2) (at 5) posted first_claim first posted-Reach
      first_claimed

claim_message-idle_example :
    (first ≡ first)
    × ((actor : ActorRecord) × (active_actor first "w" "a" (at 1) (at 3) ≡ ok actor)
        × ((x : MessageRecord)
            → Memᴰ x first.messages
            → is_claimable "w" "a" actor.team_id (at 3) x ≡ false))
claim_message-idle_example =
    claim_message-idle "w" "a" (at 1) (at 3) (at 5) first first nothing_left

superseded-refused_example :
    ((now : I64) (v : Unit {0} × Store)
      → acknowledge_message "w" "m" "a" (at 1) (at 1) now second ≢ ok v)
    × ((now delay : I64) (failure : String) (v : Unit {0} × Store)
        → retry_message "w" "m" "a" (at 1) (at 1) now delay failure second ≢ ok v)
superseded-refused_example =
    superseded-refused "w" "a" "a" (at 1) (at 2) (at 5) (at 1) (at 8) (at 5) posted first first
      second second first_claim second_claim posted-Reach first_claimed Reach.here second_claimed
      refl Reach.here

posted_row : message_by_id posted "w" "m" ≡ some (queued note sender)
unfolding register_actor attach_session send_message authorize_message claim_message
    require_positive_ttl append_audit actor_from_raw actor_by_id active_actor ensure_epoch_update
    count_where update_where upsert least message_by_id message_by_idempotency
posted_row = refl

Reach-Later_example :
    (n : MessageRecord) × (message_by_id second "w" "m" ≡ some n) × Later (queued note sender) n
Reach-Later_example =
    Reach-Later posted second "w" "m" (queued note sender)
      (Reach.later
        (Reach.later Reach.here (Step.claimed "w" "a" (at 1) (at 2) (at 5) first_claimed))
        (Step.claimed "w" "a" (at 1) (at 8) (at 5) second_claimed))
      posted_row

sent_note : send_message note sender (at 1) online ≡ ok (queued note sender, posted)
unfolding register_actor attach_session send_message authorize_message claim_message
    require_positive_ttl append_audit actor_from_raw actor_by_id active_actor ensure_epoch_update
    count_where update_where upsert least message_by_id message_by_idempotency
sent_note = refl

allowed_again : authorize_message first note sender (at 3) ≡ ok tt
unfolding register_actor attach_session send_message authorize_message claim_message
    require_positive_ttl append_audit actor_from_raw actor_by_id active_actor ensure_epoch_update
    count_where update_where upsert least message_by_id message_by_idempotency
allowed_again = refl

send_message-again_example :
    (n : MessageRecord) × Later (queued note sender) n
    × (same_message (queued note sender) note sender ≡ true)
    × (send_message note sender (at 3) first ≡ (
        if same_message (queued note sender) note sender
        then ok (n, first)
        else err (RuntimeError.idempotency_conflict "k")))
send_message-again_example =
    send_message-again note note sender sender (at 1) (at 3) online posted first
      (queued note sender) sent_note
      (Reach.later Reach.here (Step.claimed "w" "a" (at 1) (at 2) (at 5) first_claimed)) refl refl
      allowed_again

authorize_message-Permitted_example : Permitted first note sender (at 3)
authorize_message-Permitted_example =
    authorize_message-Permitted first note sender (at 3) allowed_again

swept :
    reconcile_expired "w" (at 200) first ≡ ok ((1, 1), after (reconcile_expired "w" (at 200) first))
unfolding register_actor attach_session send_message authorize_message claim_message
    require_positive_ttl append_audit actor_from_raw actor_by_id active_actor ensure_epoch_update
    count_where update_where upsert least message_by_id message_by_idempotency reconcile_expired
swept = refl

reconcile_expired-once_example :
    (count_where (is_stale_actor "w" (at 200)) (after (reconcile_expired "w" (at 200) first)).actors
      ≡ 0)
    × (count_where
          (is_stale_claim "w" (at 200))
          (after (reconcile_expired "w" (at 200) first)).messages
        ≡ 0)
    × (reconcile_expired "w" (at 200) (after (reconcile_expired "w" (at 200) first))
        ≡ ok ((0, 0), after (reconcile_expired "w" (at 200) first)))
reconcile_expired-once_example =
    reconcile_expired-once "w" (at 200) first (after (reconcile_expired "w" (at 200) first)) (1, 1)
      swept

abbrev lease : DaemonLease
lease = record {
  workspace_id = "w";
  instance_id = "d";
  fencing_epoch = at 1;
  lease_until_ms = at 100;
}

abbrev guarded : Store
guarded = after (acquire_daemon_lease "w" "d" (at 0) (at 100) empty)

guarded_lease : acquire_daemon_lease "w" "d" (at 0) (at 100) empty ≡ ok (lease, guarded)
unfolding acquire_daemon_lease require_positive_ttl append_audit upsert
guarded_lease = refl

acquire_daemon_lease-fences_example :
    ((now : I64) → now < at 100 → validate_daemon_lease guarded lease now ≡ ok tt)
    × ((other : DaemonLease) (now : I64)
        → other.workspace_id ≡ "w"
        → ((other.instance_id ≡ "d") → (other.fencing_epoch ≡ at 1) → ⊥)
        → validate_daemon_lease guarded other now
          ≡ err (RuntimeError.stale_epoch "daemon" other.instance_id))
acquire_daemon_lease-fences_example =
    acquire_daemon_lease-fences "w" "d" (at 0) (at 100) empty lease guarded Reach.here guarded_lease

guarded-Reach : Reach empty guarded
guarded-Reach = Reach.later Reach.here (Step.daemon_acquired "w" "d" (at 0) (at 100) guarded_lease)

abbrev rival : String
rival = "e"

other_name : rival ≢ lease.instance_id
other_name h = ground (arith, (eq_iff rival lease.instance_id).1 h)

acquire_daemon_lease-held_example :
    (until : I64) × (at 3 < until)
    × (acquire_daemon_lease "w" "e" (at 3) (at 5) guarded ≡ err (RuntimeError.lease_held "d" until))
acquire_daemon_lease-held_example =
    acquire_daemon_lease-held lease "e" (at 3) (at 5) guarded guarded-Reach
      (acquire_daemon_lease-fences_example.0 (at 3) (omega arith)) other_name (omega arith)

abbrev proposed : LaunchIntent
proposed = record {
  workspace_id = "w";
  actor_id = "a";
  idempotency_key = "k";
  spec_fingerprint = "f";
  canonical_working_directory = PathBuf.unicode "/w";
  backend = "b";
  session_name = "n";
  state = LaunchIntentState.prepared;
  resume_token = none;
  session_external_id = none;
}

abbrev prepared : Store
prepared = after (prepare_launch lease proposed (at 1) guarded)

abbrev checkpointed : Store
checkpointed = after (checkpoint_launch lease "k" "r" (at 2) prepared)

prepared_launch : prepare_launch lease proposed (at 1) guarded ≡ ok (proposed, prepared)
unfolding acquire_daemon_lease require_positive_ttl append_audit upsert prepare_launch
    checkpoint_launch launch_intent validate_daemon_in_transaction same_launch_intent update_where
prepared_launch = refl

checkpointed_launch : checkpoint_launch lease "k" "r" (at 2) prepared ≡ ok (tt, checkpointed)
unfolding acquire_daemon_lease require_positive_ttl append_audit upsert prepare_launch
    checkpoint_launch launch_intent validate_daemon_in_transaction same_launch_intent update_where
checkpointed_launch = refl

found_launch : launch_intent prepared "w" "k" ≡ some proposed
unfolding acquire_daemon_lease require_positive_ttl append_audit upsert prepare_launch
    checkpoint_launch launch_intent validate_daemon_in_transaction same_launch_intent update_where
found_launch = refl

still_valid : validate_daemon_in_transaction checkpointed lease (at 3) ≡ ok tt
unfolding acquire_daemon_lease require_positive_ttl append_audit upsert prepare_launch
    checkpoint_launch launch_intent validate_daemon_in_transaction same_launch_intent update_where
still_valid = refl

Reach-Onward_example :
    (j : LaunchIntent) × (launch_intent checkpointed "w" "k" ≡ some j) × Onward proposed j
Reach-Onward_example =
    Reach-Onward prepared checkpointed "w" "k" proposed
      (Reach.later Reach.here (Step.checkpointed lease "k" "r" (at 2) checkpointed_launch))
      found_launch

prepare_launch-again_example :
    (k : LaunchIntent) × (prepare_launch lease proposed (at 3) checkpointed ≡ ok (k, checkpointed))
    × Onward proposed k
    × (launch_intent checkpointed "w" "k" ≡ some k)
prepare_launch-again_example =
    prepare_launch-again lease lease proposed proposed (at 1) (at 3) guarded prepared checkpointed
      "/w" refl prepared_launch
      (Reach.later Reach.here (Step.checkpointed lease "k" "r" (at 2) checkpointed_launch)) refl
      still_valid

-- A directory that is not Unicode.
abbrev odd : LaunchIntent
odd = record proposed { canonical_working_directory = PathBuf.bytes (47 ∷ 255 ∷ []) "/�" }

abbrev odd_prepared : Store
odd_prepared = after (prepare_launch lease odd (at 1) guarded)

abbrev odd_row : LaunchIntent
odd_row = record odd { canonical_working_directory = PathBuf.unicode "/�" }

odd_launch : prepare_launch lease odd (at 1) guarded ≡ ok (odd_row, odd_prepared)
unfolding acquire_daemon_lease require_positive_ttl append_audit upsert prepare_launch launch_intent
    validate_daemon_in_transaction same_launch_intent
odd_launch = refl

-- The launch is then a conflict with itself.
odd_conflict :
    prepare_launch lease odd (at 3) odd_prepared ≡ err (RuntimeError.idempotency_conflict "k")
unfolding acquire_daemon_lease require_positive_ttl append_audit upsert prepare_launch launch_intent
    validate_daemon_in_transaction same_launch_intent
odd_conflict = refl

-- A database that is busy for three attempts.
abbrev busy_open : ℕ → Result RuntimeError ℕ × ℕ
busy_open n =
    if ltb n 3 then (err (RuntimeError.sqlite (some ErrorCode.database_busy)), n + 1) else (ok n, n)

retry_initialization-Decided_example : Decided busy_open 0
retry_initialization-Decided_example = retry_initialization-Decided busy_open 0

validate_versions-accepts_example :
    (validate_versions (at 1 ∷ at 2 ∷ []) ≡ ok tt)
    ↔ ((n : ℕ) × (n ≤ 2) × ((at 1 ∷ at 2 ∷ []) ≡ count_up (at 1) n))
validate_versions-accepts_example = validate_versions-accepts (at 1 ∷ at 2 ∷ [])

role_from_str-role_as_str_example :
    (role_from_str "primary" ≡ ok ActorRole.primary)
    × (role_from_str rival ≡ ok ActorRole.primary → rival ≡ role_as_str ActorRole.primary)
role_from_str-role_as_str_example = role_from_str-role_as_str ActorRole.primary rival
