-- ===== src/Runtime/Superseded.antt =====
-- crates/agsv-runtime/src/store.rs: a claimant whose message was claimed again.
use agent_supervisor.Common.{
  String, ◌≡◌, ◌≢◌, refl, ap, sym, ◌∙◌, some, ◌<◌, arith, ℕ, suc, zero, ◌+◌,
}
use mathlib.Core.Option.{some_inj}
use agent_supervisor.Common.Result.{ok, ok_or, >>=-eq-ok, ok_or-ok}
use agent_supervisor.Runtime.Table.{I64, count_where}
use agent_supervisor.Runtime.Types.{MessageRecord, ClaimedMessage, RuntimeError}
use agent_supervisor.Runtime.Store.{Store, active_actor, ensure_epoch_update}
use agent_supervisor.Runtime.Messages.{is_message, message_by_id}
use agent_supervisor.Runtime.Claims.{
  is_delivery, acknowledged, claim_message, acknowledge_message, retry_message,
}
use agent_supervisor.Runtime.Rows.{count-row, find-only}
use agent_supervisor.Runtime.Steps.{Step, Reach, empty}
use agent_supervisor.Runtime.History.{Keyed, Reach-Keyed, Reach-Later}
use agent_supervisor.Runtime.Grant.{Granted, claim_message-Granted}

-- The delivery that an answer is for is that of the message.
abbrev pub Answers : String → String → I64 → Store → Type 0
Answers w id d s = (m : MessageRecord) × (message_by_id s w id ≡ some m) × (m.delivery_epoch ≡ d)

module _ (w id a : String) (e d now : I64) (s : Store) (k : Keyed s) where
  counted-Answers :
      {n : ℕ} → count_where (is_delivery w id a e d now) s.messages ≡ suc n → Answers w id d s
  unfolding message_by_id
  counted-Answers {n} h =
      let (m, member, hit) = count-row (is_delivery w id a e d now) s.messages h in
      (
        m,
        find-only (is_message w id) m s.messages member (ground (arith, hit)) (k w id),
        ground (arith, hit),
      )

  acknowledged-Answers :
      (n : ℕ) (stored t : Store) {u : Unit {0}}
      → count_where (is_delivery w id a e d now) s.messages ≡ n
      → acknowledged n w id a e d stored s ≡ ok (u, t)
      → Answers w id d s
  acknowledged-Answers zero stored t counted h =
      let (m, found, rest) =
        >>=-eq-ok (ok_or (message_by_id s w id) (RuntimeError.not_found "message" id)) _ h in
      (m, ok_or-ok _ _ found, ground (arith, rest))
  acknowledged-Answers (suc n) stored t counted h = counted-Answers counted

  acknowledge_message-Answers :
      (t : Store) {u : Unit {0}}
      → acknowledge_message w id a e d now s ≡ ok (u, t)
      → Answers w id d s
  unfolding acknowledge_message
  acknowledge_message-Answers t h =
      acknowledged-Answers _ _ t refl (>>=-eq-ok (active_actor s w a e now) _ h).2

  retry_message-Answers :
      (delay : I64) (failure : String) (t : Store) {u : Unit {0}}
      → retry_message w id a e d now delay failure s ≡ ok (u, t)
      → Answers w id d s
  unfolding retry_message ensure_epoch_update
  retry_message-Answers delay failure t h = counted-Answers {n = 0} (ground (arith, h))

module _ {w a : String} {e now ttl : I64} {s t : Store} {c : ClaimedMessage} where
  Granted-key : (g : Granted w a e now ttl s c t) → g.row.message_id ≡ c.message.message_id
  Granted-key g = sym (ap (λ (x : MessageRecord). x.message_id) g.claimed)

  Granted-epoch :
      (g : Granted w a e now ttl s c t)
      → (c.message.delivery_epoch ≡ g.row.delivery_epoch + 1)
        × (c.delivery_epoch ≡ c.message.delivery_epoch)
  Granted-epoch g =
      let made = ap (λ (x : MessageRecord). x.delivery_epoch) g.claimed in
      (made, g.epoch ∙ sym made)

  Granted-before :
      (g : Granted w a e now ttl s c t) → message_by_id s w c.message.message_id ≡ some g.row
  Granted-before g = ap (message_by_id s w) (sym (Granted-key g)) ∙ g.before

  Granted-after :
      (g : Granted w a e now ttl s c t) → message_by_id t w c.message.message_id ≡ some c.message
  Granted-after g = ap (message_by_id t w) (sym (Granted-key g)) ∙ g.after

-- An older delivery is not the one that is answered.
outdated :
    (w id : String) (d : I64) (s : Store) (m : MessageRecord)
    → message_by_id s w id ≡ some m
    → d < m.delivery_epoch
    → Answers w id d s
    → ⊥
outdated w id d s m found older (n, other, is) = omega (
  arith,
  older,
  is,
  ap (λ (x : MessageRecord). x.delivery_epoch) (some_inj.0 (sym found ∙ other)),
)

Reach-join : (s t u : Store) → Reach s t → Reach t u → Reach s u
Reach-join s t u first Reach.here = first
Reach-join s t u first (Reach.later {t = v} rest step) =
    Reach.later (Reach-join s t v first rest) step

-- In any run of the store from an empty one, after a message that a claim gave was claimed
-- again, neither an acknowledgement nor a retry by the first claimant under its delivery epoch
-- ever succeeds.
pub superseded-refused :
    (w a b : String) (e now ttl e' now' ttl' : I64) (s t s' t' u : Store) (c c' : ClaimedMessage)
    → Reach empty s
    → claim_message w a e now ttl s ≡ ok (some c, t)
    → Reach t s'
    → claim_message w b e' now' ttl' s' ≡ ok (some c', t')
    → c'.message.message_id ≡ c.message.message_id
    → Reach t' u
    → ((at : I64) (v : Unit {0} × Store)
        → acknowledge_message w c.message.message_id a e c.delivery_epoch at u ≢ ok v)
      × ((at delay : I64) (failure : String) (v : Unit {0} × Store)
          → retry_message w c.message.message_id a e c.delivery_epoch at delay failure u ≢ ok v)
superseded-refused w a b e now ttl e' now' ttl' s t s' t' u c c' run first between second same
      after =
    let id = c.message.message_id in
    let run' = Reach-join empty t s' (Reach.later run (Step.claimed w a e now ttl first)) between in
    let run'' =
      Reach-join empty t' u (Reach.later run' (Step.claimed w b e' now' ttl' second)) after in
    let g = claim_message-Granted w a e now ttl s c t run first in
    let g' = claim_message-Granted w b e' now' ttl' s' c' t' run' second in
    let (m, met, grown) = Reach-Later t s' w id c.message between (Granted-after g) in
    let (n, last, grown') =
      Reach-Later t' u w id c'.message after
        (ap (message_by_id t' w) (sym same) ∙ Granted-after g') in
    let row = some_inj.0 (sym met ∙ ap (message_by_id s' w) (sym same) ∙ Granted-before g') in
    let older : c.delivery_epoch < n.delivery_epoch = omega (
      arith,
      grown.delivered,
      grown'.delivered,
      (Granted-epoch g).1,
      (Granted-epoch g').0,
      ap (λ (x : MessageRecord). x.delivery_epoch) row,
    ) in
    let stale = outdated w id c.delivery_epoch u n last older in
    (
      λ at v h.
          stale (
            acknowledge_message-Answers w id a e c.delivery_epoch at u (Reach-Keyed u run'') v.1 h),
      λ at delay failure v h. stale (
          retry_message-Answers w id a e c.delivery_epoch at u (Reach-Keyed u run'') delay failure
            v.1 h),
    )
