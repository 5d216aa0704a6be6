-- ===== src/Runtime/Queue.antt =====
-- crates/agsv-runtime/src/store.rs: what becomes of a queued message while the store runs.
use agent_supervisor.Common.{
  max, ◌⊎◌, String, ◌≡◌, refl, ap, ◌∙◌, Bool, true, false, Option, none, List, ◌∷◌, ℕ, ◌≤◌, arith,
  Bool-cases, inl, inr,
}
use agent_supervisor.Common.Lists.{find, any}
use agent_supervisor.Common.Result.{ok}
use agent_supervisor.Runtime.Table.{I64, i64_zero, is_null, saturating_add, update_where}
use agent_supervisor.Runtime.Types.{NewMessage, SenderContext, MessageRecord, ClaimedMessage}
use agent_supervisor.Runtime.Store.{Store, append_audit}
use agent_supervisor.Runtime.Messages.{
  is_message, is_retry, message_by_idempotency, queued, send_message,
}
use agent_supervisor.Runtime.Claims.{
  is_unclaimed, is_delivery, is_stale_claim, claim_row, claim_message, acknowledge_row,
  acknowledge_message, retry_row, retry_message, release_row, reconcile_expired,
}
use agent_supervisor.Runtime.Claiming.{claim_message-cases}
use agent_supervisor.Runtime.Rows.{updated}
use agent_supervisor.Runtime.Steps.{Step}
use agent_supervisor.Runtime.Frames.{
  acquire_daemon_lease-keeps, heartbeat_daemon-keeps, acquire_primary_lease-keeps,
  register_actor-keeps, attach_session-keeps, heartbeat_actor-keeps, mark_actor_offline-keeps,
  prepare_launch-keeps, checkpoint_launch-keeps, record_launch_result-keeps,
}

-- A message without what its deliveries change.
abbrev pub content : MessageRecord → MessageRecord
content m = record m {
  available_at_ms = i64_zero;
  claimed_by_actor_id = none;
  claimant_actor_epoch = none;
  delivery_epoch = i64_zero;
  attempts = i64_zero;
  claim_until_ms = none;
  acknowledged_at_ms = none;
  last_error = none;
}

-- What a message may become.
pub record Later (m n : MessageRecord) : Type 0 where
  pub same : content n ≡ content m
  pub delivered : m.delivery_epoch ≤ n.delivery_epoch
  pub attempted : m.attempts ≤ n.attempts
  pub final : is_null m.acknowledged_at_ms ≡ false → n ≡ m

pub Later-refl : (m : MessageRecord) → Later m m
Later-refl m = record {
  same = refl;
  delivered = omega arith;
  attempted = omega arith;
  final = λ h. refl;
}

pub Later-trans : (a b c : MessageRecord) → Later a b → Later b c → Later a c
Later-trans a b c x y = record {
  same = y.same ∙ x.same;
  delivered = omega (arith, x.delivered, y.delivered);
  attempted = omega (arith, x.attempted, y.attempted);
  final = λ h. y.final (rw (x.final h) h) ∙ x.final h;
}

-- A row that is rewritten is not acknowledged, and keeps its content.
pub record Advances (p : MessageRecord → Bool) (f : MessageRecord → MessageRecord) : Type 0 where
  pub unsettled : (m : MessageRecord) → p m ≡ true → is_null m.acknowledged_at_ms ≡ true
  pub same : (m : MessageRecord) → content (f m) ≡ content m
  pub delivered : (m : MessageRecord) → m.delivery_epoch ≤ (f m).delivery_epoch
  pub attempted : (m : MessageRecord) → m.attempts ≤ (f m).attempts

pub Advances-Later :
    (p : MessageRecord → Bool) (f : MessageRecord → MessageRecord)
    → Advances p f
    → (m : MessageRecord) → Later m (updated p f m)
Advances-Later p f a m = elim (Bool-cases (p m)) [
  | inl hit ↦ rw hit (record {
    same = a.same m;
    delivered = a.delivered m;
    attempted = a.attempted m;
    final = λ h. ground (arith, a.unsettled m hit, h);
  })
  | inr miss ↦ rw miss (Later-refl m)
]

-- What a step does to the queue.
pub data Change (ms : List MessageRecord) : List MessageRecord → Type 0 where
  unchanged : {ns : List MessageRecord} → ns ≡ ms → Change ms ns
  rewritten :
      (p : MessageRecord → Bool) (f : MessageRecord → MessageRecord) {ns : List MessageRecord}
      → Advances p f
      → ns ≡ update_where p f ms
      → Change ms ns
  added :
      (m : MessageRecord) {ns : List MessageRecord}
      → any (is_message m.workspace_id m.message_id) ms ≡ false
      → find (is_retry m.workspace_id m.idempotency_key) ms ≡ none
      → ns ≡ m ∷ ms
      → Change ms ns

send_message-writes :
    (m : NewMessage) (c : SenderContext) (now : I64) (s : Store) {r : MessageRecord} {t : Store}
    → send_message m c now s ≡ ok (r, t)
    → (t.messages ≡ s.messages)
      ⊎ ((any (is_message m.workspace_id m.message_id) s.messages ≡ false)
          × (find (is_retry m.workspace_id m.idempotency_key) s.messages ≡ none)
          × (t.messages ≡ queued m c ∷ s.messages))
unfolding send_message message_by_idempotency append_audit
send_message-writes m c now s h = ground arith

claim_message-writes :
    (w a : String) (e now ttl : I64) (s : Store) {r : Option ClaimedMessage} {t : Store}
    → claim_message w a e now ttl s ≡ ok (r, t)
    → (t.messages ≡ s.messages)
      ⊎ ((m : MessageRecord) × (t.messages
            ≡ update_where
                (is_unclaimed w m.message_id now)
                (claim_row a e (saturating_add now ttl))
                s.messages))
claim_message-writes w a e now ttl s {r} {t} h = elim (claim_message-cases w a e now ttl s h) [
  | inl (unset, idle) ↦ inl (ap (λ (u : Store). u.messages) idle.kept)
  | inr (c, set, won) ↦ inr (won.row, won.written)
]

acknowledge_message-writes :
    (w id a : String) (e d now : I64) (s : Store) {r : Unit {0}} {t : Store}
    → acknowledge_message w id a e d now s ≡ ok (r, t)
    → (t.messages ≡ s.messages)
      ⊎ (t.messages ≡ update_where (is_delivery w id a e d now) (acknowledge_row now) s.messages)
unfolding acknowledge_message append_audit
acknowledge_message-writes w id a e d now s h = ground arith

retry_message-writes :
    (w id a : String) (e d now delay : I64) (failure : String) (s : Store) {r : Unit {0}}
    {t : Store}
    → retry_message w id a e d now delay failure s ≡ ok (r, t)
    → t.messages
      ≡ update_where
          (is_delivery w id a e d now)
          (retry_row (saturating_add now (max delay i64_zero)) failure)
          s.messages
unfolding retry_message append_audit
retry_message-writes w id a e d now delay failure s h = ground arith

reconcile_expired-writes :
    (w : String) (now : I64) (s : Store) {n : ℕ × ℕ} {t : Store}
    → reconcile_expired w now s ≡ ok (n, t)
    → t.messages ≡ update_where (is_stale_claim w now) (release_row now) s.messages
unfolding reconcile_expired append_audit
reconcile_expired-writes w now s h = ground arith

Advances-claim :
    (w id a : String) (e now until : I64) → Advances (is_unclaimed w id now) (claim_row a e until)
Advances-claim w id a e now until = record {
  unsettled = λ m h. ground arith;
  same = λ m. refl;
  delivered = λ m. omega arith;
  attempted = λ m. omega arith;
}

Advances-acknowledge :
    (w id a : String) (e d now : I64) → Advances (is_delivery w id a e d now) (acknowledge_row now)
Advances-acknowledge w id a e d now = record {
  unsettled = λ m h. ground arith;
  same = λ m. refl;
  delivered = λ m. omega arith;
  attempted = λ m. omega arith;
}

Advances-retry :
    (w id a : String) (e d now until : I64) (failure : String)
    → Advances (is_delivery w id a e d now) (retry_row until failure)
Advances-retry w id a e d now until failure = record {
  unsettled = λ m h. ground arith;
  same = λ m. refl;
  delivered = λ m. omega arith;
  attempted = λ m. omega arith;
}

Advances-release : (w : String) (now : I64) → Advances (is_stale_claim w now) (release_row now)
Advances-release w now = record {
  unsettled = λ m h. ground arith;
  same = λ m. refl;
  delivered = λ m. omega arith;
  attempted = λ m. omega arith;
}

pub Step-Change : (s t : Store) → Step s t → Change s.messages t.messages
Step-Change s t (Step.daemon_acquired w i now ttl h) =
    Change.unchanged (acquire_daemon_lease-keeps s w i now ttl h).0
Step-Change s t (Step.daemon_beat l now ttl h) =
    Change.unchanged (heartbeat_daemon-keeps s l now ttl h).0
Step-Change s t (Step.primary_acquired w a e now ttl h) =
    Change.unchanged (acquire_primary_lease-keeps s w a e now ttl h).1
Step-Change s t (Step.registered d w a team role b now ttl h) =
    Change.unchanged (register_actor-keeps s d w a team role b now ttl h).1
Step-Change s t (Step.session_attached d w a e key x now ttl h) =
    Change.unchanged (attach_session-keeps s d w a e key x now ttl h).1
Step-Change s t (Step.actor_beat w a e now ttl h) =
    Change.unchanged (heartbeat_actor-keeps s w a e now ttl h).1
Step-Change s t (Step.actor_offline w a e now h) =
    Change.unchanged (mark_actor_offline-keeps s w a e now h).1
Step-Change s t (Step.prepared d i now h) = Change.unchanged (prepare_launch-keeps s d i now h).1
Step-Change s t (Step.checkpointed d key token now h) =
    Change.unchanged (checkpoint_launch-keeps s d key token now h).1
Step-Change s t (Step.launched d key x now h) =
    Change.unchanged (record_launch_result-keeps s d key x now h).1
Step-Change s t (Step.sent m c now h) = elim (send_message-writes m c now s h) [
  | inl e ↦ Change.unchanged e
  | inr (new, fresh, e) ↦ Change.added (queued m c) new fresh e
]
Step-Change s t (Step.claimed w a e now ttl h) = elim (claim_message-writes w a e now ttl s h) [
  | inl k ↦ Change.unchanged k
  | inr (m, k) ↦ Change.rewritten _ _ (Advances-claim w m.message_id a e now _) k
]
Step-Change s t (Step.answered w id a e d now h) =
    elim (acknowledge_message-writes w id a e d now s h) [
      | inl k ↦ Change.unchanged k
      | inr k ↦ Change.rewritten _ _ (Advances-acknowledge w id a e d now) k
    ]
Step-Change s t (Step.retried w id a e d now delay failure h) =
    Change.rewritten _ _ (Advances-retry w id a e d now _ failure)
      (retry_message-writes w id a e d now delay failure s h)
Step-Change s t (Step.reconciled w now h) =
    Change.rewritten _ _ (Advances-release w now) (reconcile_expired-writes w now s h)
