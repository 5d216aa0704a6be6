-- ===== src/Runtime/Resent.antt =====
-- crates/agsv-runtime/src/store.rs: a message that is sent again under its idempotency key.
use text.Mathlib.TextEquality.{eq_iff}
use mathlib.Core.Path.{ap₂}
use agent_supervisor.Common.{
  String, ◌≡◌, refl, ap, sym, ◌∙◌, Bool, true, Option, none, some, List, [], ◌∷◌, arith, Bool-cases,
  inl, inr, ℕ, if◌then◌else◌,
}
use agent_supervisor.Common.Lists.{find}
use agent_supervisor.Common.Result.{ok, err, >>=-eq-ok}
use agent_supervisor.Runtime.Table.{I64}
use agent_supervisor.Runtime.Types.{NewMessage, SenderContext, MessageRecord, RuntimeError}
use agent_supervisor.Runtime.Store.{Store, append_audit}
use agent_supervisor.Runtime.Launch.{same_token, same_bytes}
use agent_supervisor.Runtime.Messages.{
  is_retry, message_by_id, message_by_idempotency, same_fence, same_message, queued, enqueue,
  authorize_message, send_message,
}
use agent_supervisor.Runtime.Rows.{updated, find-update_where}
use agent_supervisor.Runtime.Steps.{Reach}
use agent_supervisor.Runtime.Queue.{
  content, Later, Later-refl, Later-trans, Advances-Later, Change, Step-Change,
}

module _ (ms ns : List MessageRecord) (w key : String) where
  Change-retry :
      (m : MessageRecord)
      → Change ms ns
      → find (is_retry w key) ms ≡ some m
      → (n : MessageRecord) × (find (is_retry w key) ns ≡ some n) × Later m n
  Change-retry m (Change.unchanged e) h = (m, rw e h, Later-refl m)
  Change-retry m (Change.rewritten p f a e) h = (
    updated p f m,
    rw (e, find-update_where (is_retry w key) p f (λ n. ap (is_retry w key) (a.same n)) ms, h) refl,
    Advances-Later p f a m,
  )
  Change-retry m (Change.added x new fresh e) h = elim (Bool-cases (is_retry w key x)) [
    | inl hit ↦
        let own = (eq_iff x.workspace_id w).0 (ground (arith, hit)) in
        let same = (eq_iff x.idempotency_key key).0 (ground (arith, hit)) in
        let gone : find (is_retry w key) ms ≡ none = rw (sym own, sym same) fresh in
        absurd (ground (arith, gone, h))
    | inr miss ↦ (m, rw (e, miss) h, Later-refl m)
  ]

Reach-retry :
    (s t : Store) (w key : String) (m : MessageRecord)
    → Reach s t
    → message_by_idempotency s w key ≡ some m
    → (n : MessageRecord) × (message_by_idempotency t w key ≡ some n) × Later m n
unfolding message_by_idempotency
Reach-retry s t w key m Reach.here h = (m, h, Later-refl m)
Reach-retry s t w key m (Reach.later {t = u} run step) h =
    let (n, found, between) = Reach-retry s u w key m run h in
    let (o, last, after) =
      Change-retry u.messages t.messages w key n (Step-Change u t step) found in
    (o, last, Later-trans m n o between after)

same_bytes_self : (bytes : List ℕ) → same_bytes bytes bytes ≡ true
same_bytes_self [] = refl
same_bytes_self (b ∷ bs) = ground (arith, same_bytes_self bs)

same_token_self : (t : Option String) → same_token t t ≡ true
same_token_self none = refl
same_token_self (some a) = (eq_iff a a).1 refl

same_fence_self : (f : Option I64) → same_fence f f ≡ true
same_fence_self none = refl
same_fence_self (some a) = ground arith

same_message-queued : (m : NewMessage) (c : SenderContext) → same_message (queued m c) m c ≡ true
unfolding same_message
same_message-queued m c = ground (
  arith,
  (eq_iff m.message_id m.message_id).1 refl,
  (eq_iff m.sender_actor_id m.sender_actor_id).1 refl,
  (eq_iff m.kind m.kind).1 refl,
  same_token_self m.recipient_actor_id,
  same_token_self m.recipient_team_id,
  same_fence_self c.primary_fencing_epoch,
  same_bytes_self m.payload,
)

enqueue-result :
    (o : Option MessageRecord) (m : NewMessage) (c : SenderContext) (s : Store) {r : MessageRecord}
    {t : Store}
    → message_by_idempotency s m.workspace_id m.idempotency_key ≡ o
    → enqueue o m c s ≡ ok (r, t)
    → (message_by_idempotency t m.workspace_id m.idempotency_key ≡ some r)
      × (same_message r m c ≡ true)
unfolding append_audit message_by_idempotency message_by_id
enqueue-result none m c s {r} {t} found h =
    let w = (eq_iff m.workspace_id m.workspace_id).1 refl in
    let k = (eq_iff m.idempotency_key m.idempotency_key).1 refl in
    let id = (eq_iff m.message_id m.message_id).1 refl in
    let made : r ≡ queued m c = ground (arith, w, id, h) in
    (
      ground (arith, w, k, id, h),
      ap (λ (x : MessageRecord). same_message x m c) made ∙ same_message-queued m c,
    )
enqueue-result (some k) m c s found h = (ground arith, ground arith)

send_message-result :
    (m : NewMessage) (c : SenderContext) (now : I64) (s : Store) {r : MessageRecord} {t : Store}
    → send_message m c now s ≡ ok (r, t)
    → (message_by_idempotency t m.workspace_id m.idempotency_key ≡ some r)
      × (same_message r m c ≡ true)
unfolding send_message
send_message-result m c now s h =
    enqueue-result _ m c s refl (>>=-eq-ok (authorize_message s m c now) _ h).2

same_message-content :
    (m : NewMessage) (c : SenderContext) (r n : MessageRecord)
    → content n ≡ content r
    → same_message n m c ≡ same_message r m c
unfolding same_message
same_message-content m c r n same = ap (λ (x : MessageRecord). same_message x m c) same

resent :
    (m : NewMessage) (c : SenderContext) (now : I64) (s : Store) {n : MessageRecord}
    → authorize_message s m c now ≡ ok tt
    → message_by_idempotency s m.workspace_id m.idempotency_key ≡ some n
    → send_message m c now s ≡ (
        if same_message n m c
        then ok (n, s)
        else err (RuntimeError.idempotency_conflict m.idempotency_key))
unfolding send_message
resent m c now s allowed found = rw (allowed, found) refl

-- After a message was sent, an authorized message under the same key at any later store writes
-- nothing: it returns the first message, as far as it has come, where the two are the same, and
-- is a conflict otherwise.
pub send_message-again :
    (m m' : NewMessage) (c c' : SenderContext) (now now' : I64) (s t u : Store) (r : MessageRecord)
    → send_message m c now s ≡ ok (r, t)
    → Reach t u
    → m'.workspace_id ≡ m.workspace_id
    → m'.idempotency_key ≡ m.idempotency_key
    → authorize_message u m' c' now' ≡ ok tt
    → (n : MessageRecord) × Later r n
      × (same_message r m c ≡ true)
      × (send_message m' c' now' u ≡ (
          if same_message r m' c'
          then ok (n, u)
          else err (RuntimeError.idempotency_conflict m'.idempotency_key)))
send_message-again m m' c c' now now' s t u r h run here key allowed =
    let (found, alike) = send_message-result m c now s h in
    let (n, last, later) = Reach-retry t u m.workspace_id m.idempotency_key r run found in
    let kept = ap₂ (message_by_idempotency u) here key ∙ last in
    (
      n,
      later,
      alike,
      resent m' c' now' u allowed kept
          ∙ ap
              (λ (b : Bool).
                if b then ok (n, u) else err (RuntimeError.idempotency_conflict m'.idempotency_key))
              (same_message-content m' c' r n later.same),
    )
