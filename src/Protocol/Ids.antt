-- ===== src/Protocol/Ids.antt =====
-- crates/agsv-protocol/src/ids.rs: identifiers and fences.
--
-- A validated identifier is a text of at most 128 bytes over a fixed alphabet, an object id or a
-- digest one of a fixed length. The program compares such values for equality and iterates over
-- them in their order, and does nothing else with them; there are finitely many, so each stands
-- here as its position in that order. A fence is the `u64` it holds.
use agent_supervisor.Common.{ℕ, ◌+◌, ◌<◌, ◌≡◌, Option, none, some, arith, ltb, if◌then◌else◌}

abbrev pub WorkspaceId : Type 0
WorkspaceId = ℕ

abbrev pub TeamId : Type 0
TeamId = ℕ

abbrev pub ActorId : Type 0
ActorId = ℕ

abbrev pub RunId : Type 0
RunId = ℕ

abbrev pub RequestId : Type 0
RequestId = ℕ

abbrev pub MessageId : Type 0
MessageId = ℕ

abbrev pub DecisionId : Type 0
DecisionId = ℕ

abbrev pub EvidenceId : Type 0
EvidenceId = ℕ

abbrev pub HandoffId : Type 0
HandoffId = ℕ

abbrev pub ActorProfileName : Type 0
ActorProfileName = ℕ

abbrev pub TeamProfileName : Type 0
TeamProfileName = ℕ

abbrev pub AssignmentPolicyId : Type 0
AssignmentPolicyId = ℕ

abbrev pub GitSha : Type 0
GitSha = ℕ

abbrev pub PayloadDigest : Type 0
PayloadDigest = ℕ

-- Milliseconds since the Unix epoch.
abbrev pub TimestampMillis : Type 0
TimestampMillis = ℕ

abbrev pub Epoch : Type 0
Epoch = ℕ

-- `INITIAL` of every fence.
abbrev pub initial : Epoch
initial = 1

abbrev pub u64_modulus : ℕ
u64_modulus = 18446744073709551616

-- `u64::checked_add`
abbrev pub checked_add : ℕ → ℕ → Option ℕ
checked_add a b = if ltb (a + b) u64_modulus then some (a + b) else none

-- The next fence, if a `u64` holds it.
unfoldable pub checked_next : Epoch → Option Epoch
checked_next e = checked_add e 1

pub checked_next-lt : (e : Epoch) {n : Epoch} → checked_next e ≡ some n → e < n
unfolding checked_next
checked_next-lt e h = ground arith

pub checked_next-some : (n m : Epoch) → checked_next n ≡ some m → m ≡ n + 1
unfolding checked_next
checked_next-some n m h = ground arith
