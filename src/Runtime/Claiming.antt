-- ===== src/Runtime/Claiming.antt =====
-- crates/agsv-runtime/src/store.rs: `claim_message`, by what a claim that succeeds went through.
use agent_supervisor.Common.{
  String, ◌≡◌, refl, ap, ◌∙◌, Option, none, some, List, arith, ◌⊎◌, inl, inr, not, ◌==◌, ltb, ◌||◌,
}
use agent_supervisor.Common.Lists.{filter}
use agent_supervisor.Common.Result.{ok, >>=-eq-ok, ok_or, fail_if, ok_or-ok}
use agent_supervisor.Runtime.Table.{I64, i64_max, saturating_add, update_where, count_where, least}
use agent_supervisor.Runtime.Types.{ActorRecord, MessageRecord, ClaimedMessage, RuntimeError}
use agent_supervisor.Runtime.Store.{Store, append_audit, require_positive_ttl, active_actor}
use agent_supervisor.Runtime.Messages.{message_by_id}
use agent_supervisor.Runtime.Claims.{
  is_before, is_claimable, is_unclaimed, claim_row, claim_found, claim_message, claimed_store,
}

module _ (w a : String) (e now ttl : I64) (s : Store) where
  abbrev pub candidates : ActorRecord → List MessageRecord
  candidates actor = filter (is_claimable w a actor.team_id now) s.messages

  -- The row that a claim picks, and the one that it leaves.
  pub record Claimed (c : ClaimedMessage) (t : Store) : Type 0 where
    pub row : MessageRecord
    pub actor : ActorRecord
    pub active : active_actor s w a e now ≡ ok actor
    pub oldest : least is_before (candidates actor) ≡ some row
    pub one : count_where (is_unclaimed w row.message_id now) s.messages ≡ 1
    pub written :
        t.messages
        ≡ update_where
            (is_unclaimed w row.message_id now)
            (claim_row a e (saturating_add now ttl))
            s.messages
    pub found : message_by_id t w row.message_id ≡ some c.message
    pub epoch : c.delivery_epoch ≡ c.message.delivery_epoch

  -- Nothing is claimed when there is nothing to claim.
  pub record Idle (t : Store) : Type 0 where
    pub actor : ActorRecord
    pub active : active_actor s w a e now ≡ ok actor
    pub nothing : least is_before (candidates actor) ≡ none
    pub kept : t ≡ s

  claim_found-cases :
      (o : Option MessageRecord) {r : Option ClaimedMessage} {t : Store}
      → claim_found o w a e now ttl s ≡ ok (r, t)
      → ((o ≡ none) × (r ≡ none) × (t ≡ s))
        ⊎ ((m : MessageRecord) × (c : ClaimedMessage) × (o ≡ some m)
            × (r ≡ some c)
            × (count_where (is_unclaimed w m.message_id now) s.messages ≡ 1)
            × (t.messages
                ≡ update_where
                    (is_unclaimed w m.message_id now)
                    (claim_row a e (saturating_add now ttl))
                    s.messages)
            × (message_by_id t w m.message_id ≡ some c.message)
            × (c.delivery_epoch ≡ c.message.delivery_epoch))
  unfolding append_audit
  claim_found-cases none h = inl (refl, ground arith, ground arith)
  claim_found-cases (some m) {r} {t} h =
      let stored = claimed_store m w a e now ttl s in
      let lookup =
        ok_or (message_by_id stored w m.message_id)
          (RuntimeError.not_found "message" m.message_id) in
      let one =
        >>=-eq-ok
          (fail_if (not (count_where (is_unclaimed w m.message_id now) s.messages == 1))
            RuntimeError.invalid_state)
          _ h in
      let (message, found, rest) = >>=-eq-ok lookup _ one.2 in
      let whole =
        >>=-eq-ok
          (fail_if (ltb i64_max message.delivery_epoch || ltb i64_max message.attempts)
            (RuntimeError.sqlite none))
          _ rest in
      let same : t ≡ stored = ground (arith, whole.2) in
      inr (
        m,
        record { message = message; delivery_epoch = message.delivery_epoch },
        refl,
        ground (arith, whole.2),
        ground (arith, one.1),
        ground (arith, whole.2),
        ap (λ (u : Store). message_by_id u w m.message_id) same ∙ ok_or-ok _ _ found,
        refl,
      )

  pub claim_message-cases :
      {r : Option ClaimedMessage} {t : Store}
      → claim_message w a e now ttl s ≡ ok (r, t)
      → ((r ≡ none) × Idle t) ⊎ ((c : ClaimedMessage) × (r ≡ some c) × Claimed c t)
  unfolding claim_message
  claim_message-cases h =
      let passed = >>=-eq-ok (require_positive_ttl ttl) _ h in
      let (actor, active, rest) = >>=-eq-ok (active_actor s w a e now) _ passed.2 in
      elim (claim_found-cases (least is_before (candidates actor)) rest) [
        | inl (nothing, unset, kept) ↦
            inl (unset, record { actor = actor; active = active; nothing = nothing; kept = kept })
        | inr (m, c, oldest, set, one, written, found, epoch) ↦ inr (
          c,
          set,
          record {
            row = m;
            actor = actor;
            active = active;
            oldest = oldest;
            one = one;
            written = written;
            found = found;
            epoch = epoch;
          },
        )
      ]
