-- ===== src/Runtime/History.antt =====
-- crates/agsv-runtime/src/store.rs: the messages of a store, over any run of its operations.
use text.Mathlib.TextEquality.{eq_iff}
use agent_supervisor.Common.{
  String, ◌≡◌, refl, ap, sym, true, false, some, List, ◌≤◌, arith, Bool-cases, inl, inr,
}
use agent_supervisor.Common.Lists.{find, any}
use agent_supervisor.Runtime.Table.{count_where}
use agent_supervisor.Runtime.Types.{MessageRecord}
use agent_supervisor.Runtime.Store.{Store}
use agent_supervisor.Runtime.Messages.{is_message, message_by_id}
use agent_supervisor.Runtime.Rows.{
  updated, find-update_where, count-update_where, count-any, find-any,
}
use agent_supervisor.Runtime.Steps.{Step, Reach, empty}
use agent_supervisor.Runtime.Queue.{
  Later, Later-refl, Later-trans, Advances-Later, Change, Step-Change,
}

pub is_message-key :
    (w id : String) (x : MessageRecord)
    → is_message w id x ≡ true
    → (x.workspace_id ≡ w) × (x.message_id ≡ id)
is_message-key w id x h = (
  (eq_iff x.workspace_id w).0 (ground (arith, h)),
  (eq_iff x.message_id id).0 (ground (arith, h)),
)

-- No message has the key of one that is added.
any-added :
    (w id : String) (x : MessageRecord) (ms : List MessageRecord)
    → is_message w id x ≡ true
    → any (is_message x.workspace_id x.message_id) ms ≡ false
    → any (is_message w id) ms ≡ false
any-added w id x ms h new = let key = is_message-key w id x h in rw (sym key.0, sym key.1) new

module _ (ms ns : List MessageRecord) (w id : String) where
  Change-Later :
      (m : MessageRecord)
      → Change ms ns
      → find (is_message w id) ms ≡ some m
      → (n : MessageRecord) × (find (is_message w id) ns ≡ some n) × Later m n
  Change-Later m (Change.unchanged e) h = (m, rw e h, Later-refl m)
  Change-Later m (Change.rewritten p f a e) h = (
    updated p f m,
    rw (e, find-update_where (is_message w id) p f (λ n. ap (is_message w id) (a.same n)) ms, h)
        refl,
    Advances-Later p f a m,
  )
  Change-Later m (Change.added x new fresh e) h = elim (Bool-cases (is_message w id x)) [
    | inl hit ↦
        absurd (ground (arith, any-added w id x ms hit new, find-any (is_message w id) ms h))
    | inr miss ↦ (m, rw (e, miss) h, Later-refl m)
  ]

  Change-count :
      Change ms ns → count_where (is_message w id) ms ≤ 1 → count_where (is_message w id) ns ≤ 1
  unfolding count_where
  Change-count (Change.unchanged e) h = rw e h
  Change-count (Change.rewritten p f a e) h =
      rw (e, count-update_where (is_message w id) p f (λ n. ap (is_message w id) (a.same n)) ms) h
  Change-count (Change.added x new fresh e) h = elim (Bool-cases (is_message w id x)) [
    | inl hit ↦
        rw (e, hit, count-any (is_message w id) ms (any-added w id x ms hit new)) (omega arith)
    | inr miss ↦ rw (e, miss) h
  ]

-- At most one message has a key.
abbrev pub Keyed : Store → Type 0
Keyed s = (w id : String) → count_where (is_message w id) s.messages ≤ 1

pub Step-Keyed : (s t : Store) → Step s t → Keyed s → Keyed t
Step-Keyed s t step k w id = Change-count s.messages t.messages w id (Step-Change s t step) (k w id)

pub Reach-Keyed : (t : Store) → Reach empty t → Keyed t
unfolding count_where
Reach-Keyed t Reach.here = λ w id. omega arith
Reach-Keyed t (Reach.later {t = u} run step) = Step-Keyed u t step (Reach-Keyed u run)

pub Step-Later :
    (s t : Store) (w id : String) (m : MessageRecord)
    → Step s t
    → message_by_id s w id ≡ some m
    → (n : MessageRecord) × (message_by_id t w id ≡ some n) × Later m n
unfolding message_by_id
Step-Later s t w id m step h = Change-Later s.messages t.messages w id m (Step-Change s t step) h

-- Over any run of the store's operations a message stays under its id with the same content, its
-- delivery epoch and attempts never fall, and once it is acknowledged it never changes.
pub Reach-Later :
    (s t : Store) (w id : String) (m : MessageRecord)
    → Reach s t
    → message_by_id s w id ≡ some m
    → (n : MessageRecord) × (message_by_id t w id ≡ some n) × Later m n
Reach-Later s t w id m Reach.here h = (m, h, Later-refl m)
Reach-Later s t w id m (Reach.later {t = u} run step) h =
    let (n, found, between) = Reach-Later s u w id m run h in
    let (o, last, after) = Step-Later u t w id n step found in
    (o, last, Later-trans m n o between after)
