-- ===== src/Runtime/Grant.antt =====
-- crates/agsv-runtime/src/store.rs: which message a claim gives, and what its claimant may do.
use mathlib.Core.List.{Memᴰ}
use mathlib.Core.Option.{some_inj}
use agent_supervisor.Common.{
  String, ◌≡◌, refl, ap, sym, ◌∙◌, subst, true, false, Option, none, some, ◌≤◌, arith, Bool-cases,
  Option-cases, inl, inr, ◌+◌,
}
use text.Mathlib.TextEquality.{eq_iff}
use agent_supervisor.Common.Result.{ok}
use agent_supervisor.Runtime.Table.{I64, saturating_add}
use agent_supervisor.Runtime.Types.{ActorRecord, MessageRecord, ClaimedMessage}
use agent_supervisor.Runtime.Store.{Store, active_actor}
use agent_supervisor.Runtime.Messages.{is_message, message_by_id}
use agent_supervisor.Runtime.Claims.{
  is_before, is_claimable, is_unclaimed, claim_row, claim_message,
}
use agent_supervisor.Runtime.Rows.{
  updated, map_row, find-update_where, find-holds, least-only, least-first, least-found, row-filter,
}
use agent_supervisor.Runtime.Steps.{Reach, empty}
use agent_supervisor.Runtime.Claiming.{Claimed, candidates, claim_message-cases}
use agent_supervisor.Runtime.History.{Keyed, Reach-Keyed, is_message-key}

module _ (w a : String) (e now ttl : I64) (s : Store) (c : ClaimedMessage) (t : Store) where
  -- A claim takes a claimable message, the oldest, and changes no other.
  pub record Granted : Type 0 where
    pub row : MessageRecord
    pub actor : ActorRecord
    pub active : active_actor s w a e now ≡ ok actor
    pub before : message_by_id s w row.message_id ≡ some row
    pub claimable : is_claimable w a actor.team_id now row ≡ true
    pub after : message_by_id t w row.message_id ≡ some c.message
    pub claimed : c.message ≡ claim_row a e (saturating_add now ttl) row
    pub epoch : c.delivery_epoch ≡ row.delivery_epoch + 1
    pub oldest :
        (x : MessageRecord)
        → Memᴰ x s.messages
        → is_claimable w a actor.team_id now x ≡ true
        → row.created_at_ms ≤ x.created_at_ms
    pub others :
        (v id : String)
        → ((v ≡ w) → (id ≡ row.message_id) → ⊥)
        → message_by_id t v id ≡ message_by_id s v id

claimable-own :
    (w a : String) (team : Option String) (now : I64) (m : MessageRecord)
    → is_claimable w a team now m ≡ true
    → (is_message w m.message_id m ≡ true) × (is_unclaimed w m.message_id now m ≡ true)
claimable-own w a team now m h = (
  ground (arith, (eq_iff m.message_id m.message_id).1 refl),
  ground (arith, (eq_iff m.message_id m.message_id).1 refl),
)

unclaimed-other :
    (w id v i : String) (now : I64) (m : MessageRecord)
    → ((v ≡ w) → (i ≡ id) → ⊥)
    → is_message v i m ≡ true
    → is_unclaimed w id now m ≡ false
unclaimed-other w id v i now m apart h = elim (Bool-cases (is_unclaimed w id now m)) [
  | inl hit ↦
      let own = is_message-key v i m h in
      let key = is_message-key w id m (ground (arith, hit)) in
      absurd (apart (sym own.0 ∙ key.0) (sym own.1 ∙ key.1))
  | inr miss ↦ miss
]

module _ (w a : String) (e now ttl : I64) (s : Store) {c : ClaimedMessage} {t : Store} where
  Claimed-lookup :
      (won : Claimed w a e now ttl s c t) (v i : String)
      → message_by_id t v i
        ≡ map_row
            (updated
              (is_unclaimed w won.row.message_id now)
              (claim_row a e (saturating_add now ttl)))
            (message_by_id s v i)
  unfolding message_by_id
  Claimed-lookup won v i = rw won.written (
      find-update_where (is_message v i) (is_unclaimed w won.row.message_id now)
        (claim_row a e (saturating_add now ttl)) (λ n. refl) s.messages)

  Claimed-message :
      (won : Claimed w a e now ttl s c t)
      → message_by_id s w won.row.message_id ≡ some won.row
      → is_unclaimed w won.row.message_id now won.row ≡ true
      → c.message ≡ claim_row a e (saturating_add now ttl) won.row
  Claimed-message won before hit =
      some_inj.0 (sym won.found ∙ Claimed-lookup won w won.row.message_id ∙ rw (before, hit) refl)

  pub Claimed-Granted : Keyed s → Claimed w a e now ttl s c t → Granted w a e now ttl s c t
  unfolding message_by_id
  Claimed-Granted k won =
      let m = won.row in
      let p = is_unclaimed w m.message_id now in
      let f = claim_row a e (saturating_add now ttl) in
      let only =
        least-only is_before (is_claimable w a won.actor.team_id now) (is_message w m.message_id)
          s.messages won.oldest (λ h. (claimable-own w a won.actor.team_id now m h).0)
          (k w m.message_id) in
      let made : c.message ≡ f m =
        Claimed-message won only.1 (claimable-own w a won.actor.team_id now m only.0).1 in
      record {
        row = m;
        actor = won.actor;
        active = won.active;
        before = only.1;
        claimable = only.0;
        after = won.found;
        claimed = made;
        epoch = won.epoch ∙ ap (λ (x : MessageRecord). x.delivery_epoch) made;
        oldest = λ x member h.
            least-first is_before (λ (x : MessageRecord). x.created_at_ms)
              (λ x y h. ground (arith, h)) (λ x y h. ground (arith, h))
              (candidates w a e now ttl s won.actor) won.oldest
              (row-filter (is_claimable w a won.actor.team_id now) s.messages member h);
        others = λ v id apart. elim (Option-cases (message_by_id s v id)) [
          | inl gone ↦ rw (Claimed-lookup won v id, gone) refl
          | inr (n, found) ↦
              rw
                (
                  Claimed-lookup won v id,
                  found,
                  unclaimed-other w m.message_id v id now n apart
                      (find-holds (is_message v id) s.messages found),
                )
                refl
        ];
      }

-- In a store reached from the empty one, a claim that gives a message gives one that the current
-- actor may claim: addressed to it, due, unacknowledged and unclaimed or with an expired claim,
-- created no later than any other such message; the row is written with the claimant, the end of
-- the claim and the next delivery epoch, and every other message is found as before.
pub claim_message-Granted :
    (w a : String) (e now ttl : I64) (s : Store) (c : ClaimedMessage) (t : Store)
    → Reach empty s
    → claim_message w a e now ttl s ≡ ok (some c, t)
    → Granted w a e now ttl s c t
claim_message-Granted w a e now ttl s c t run h = elim (claim_message-cases w a e now ttl s h) [
  | inl (unset, idle) ↦ absurd (cc)
  | inr (d, set, won) ↦
      Claimed-Granted w a e now ttl s (Reach-Keyed s run)
        (subst (λ (x : ClaimedMessage). Claimed w a e now ttl s x t) (sym (some_inj.0 set)) won)
]

-- A claim that gives nothing leaves the store as it was, and no message in it may be claimed by
-- that actor.
pub claim_message-idle :
    (w a : String) (e now ttl : I64) (s : Store) (t : Store)
    → claim_message w a e now ttl s ≡ ok (none, t)
    → (t ≡ s)
      × ((actor : ActorRecord) × (active_actor s w a e now ≡ ok actor)
          × ((x : MessageRecord)
              → Memᴰ x s.messages
              → is_claimable w a actor.team_id now x ≡ false))
claim_message-idle w a e now ttl s t h = elim (claim_message-cases w a e now ttl s h) [
  | inl (unset, idle) ↦ (
    idle.kept,
    (
      idle.actor,
      idle.active,
      λ x member. elim (Bool-cases (is_claimable w a idle.actor.team_id now x)) [
        | inl hit ↦ absurd (
            least-found is_before (candidates w a e now ttl s idle.actor) idle.nothing
              (row-filter (is_claimable w a idle.actor.team_id now) s.messages member hit))
        | inr miss ↦ miss
      ],
    ),
  )
  | inr (d, set, won) ↦ absurd (cc)
]
