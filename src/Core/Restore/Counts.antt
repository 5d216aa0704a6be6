-- ===== src/Core/Restore/Counts.antt =====
-- crates/agsv-core/src/supervisor.rs: the derived counts of the requests that are not done.
use mathlib.Core.Option
use agent_supervisor.Common.{
  ℕ, suc, ◌+◌, ◌≡◌, refl, ap, sym, ◌∙◌, Bool, true, false, ◌&&◌, some, List, [], ◌∷◌, ◌==◌, arith,
  Bool-cases, inl, inr, if◌then◌else◌,
}
use agent_supervisor.Common.Maps.{Map, nat_key, lookup, update, values, lookup-update}
use agent_supervisor.Common.Result.{ok, ok_or, >>=-eq-ok, ok_or-ok}
use agent_supervisor.Protocol.Ids.{TeamId, RequestId, checked_add}
use agent_supervisor.Protocol.Actor.{Team}
use agent_supervisor.Protocol.Work.{Request}
use agent_supervisor.Core.Error.{CoreError}
use agent_supervisor.Core.Restore.Requests.{
  zero_counts, is_counted, count_request, count_requests, derive_nonterminal_request_counts,
}

-- The requests of a team that are not done.
unfoldable pub tally : Map TeamId Team → TeamId → List Request → ℕ
tally teams team [] = 0
tally teams team (q ∷ qs) =
    let rest = tally teams team qs in
    if is_counted teams q && q.team_id == team then suc rest else rest

zero_counts-zero :
    (id : TeamId) (teams : Map TeamId Team) {team : Team}
    → lookup id teams ≡ some team
    → lookup id (zero_counts teams) ≡ some 0
unfolding lookup zero_counts
zero_counts-zero id [] h = cc
zero_counts-zero id ((j, t) ∷ teams) {team} h =
    ground (arith, h, zero_counts-zero id teams {team = team})

count_request-counts :
    (counts : Map TeamId ℕ) (q : Request) (team : TeamId) {next : Map TeamId ℕ} {n : ℕ}
    → count_request counts q ≡ ok next
    → lookup team counts ≡ some n
    → lookup team next ≡ some (if q.team_id == team then suc n else n)
count_request-counts counts q team {next} {n} h found =
    let (m, held, rest) =
      >>=-eq-ok
        (ok_or (lookup q.team_id counts) (
          CoreError.invalid_snapshot "requests.team_id"
            "request team is missing while deriving counts"))
        _ h in
    let (k, added, done) = >>=-eq-ok (ok_or (checked_add m 1) CoreError.epoch_exhausted) _ rest in
    let more : k ≡ m + 1 = ground (arith, added) in
    let made : next ≡ update q.team_id (λ _. k) counts = ground (arith, done) in
    ap (lookup team) made
    ∙ lookup-update q.team_id team (λ _. k) counts
    ∙ counted (q.team_id == team) refl m k (ok_or-ok _ _ held) more
  where
    counted :
        (b : Bool)
        → (q.team_id == team) ≡ b
        → (m k : ℕ) → lookup q.team_id counts ≡ some m
        → k ≡ m + 1
        → (if b then Option.map (λ _. k) (lookup team counts) else lookup team counts)
          ≡ some (if b then suc n else n)
    counted true e m k held more =
        let same : q.team_id ≡ team = ground (arith, e) in
        let value : some m ≡ some n =
          sym held ∙ ap (λ (i : TeamId). lookup i counts) same ∙ found in
        rw found (ground (arith, value, more))
    counted false e m k held more = found

count_requests-counts :
    (teams : Map TeamId Team) (counts : Map TeamId ℕ) (qs : List Request) (team : TeamId)
    {next : Map TeamId ℕ} {n : ℕ}
    → count_requests teams counts qs ≡ ok next
    → lookup team counts ≡ some n
    → lookup team next ≡ some (n + tally teams team qs)
unfolding count_requests tally
count_requests-counts teams counts [] team h found = ground (arith, h, found)
count_requests-counts teams counts (q ∷ qs) team {next} {n} h found =
    let (after, picked, rest) =
      >>=-eq-ok (if is_counted teams q then count_request counts q else ok counts) _ h in
    elim (Bool-cases (is_counted teams q)) [
      | inl hit ↦
          let taken : count_request counts q ≡ ok after = ground (arith, hit, picked) in
          count_requests-counts teams after qs team rest
            (count_request-counts counts q team taken found)
          ∙ ap some (ground (arith, hit))
      | inr miss ↦
          let kept : after ≡ counts = ground (arith, miss, picked) in
          count_requests-counts teams after qs team rest (ap (lookup team) kept ∙ found)
          ∙ ap some (ground (arith, miss))
    ]

-- The count that is derived for a team on restore is the number of its requests that are not
-- terminal and either keep the team from closing or are of its current generation.
pub derive_nonterminal_request_counts-tally :
    (teams : Map TeamId Team) (requests : Map RequestId Request) (counts : Map TeamId ℕ)
    → derive_nonterminal_request_counts teams requests ≡ ok counts
    → (id : TeamId) (team : Team) → lookup id teams ≡ some team
    → lookup id counts ≡ some (tally teams id (values requests))
unfolding derive_nonterminal_request_counts
derive_nonterminal_request_counts-tally teams requests counts h id team found =
    count_requests-counts teams (zero_counts teams) (values requests) id h
      (zero_counts-zero id teams found)
    ∙ ap some (omega arith)
