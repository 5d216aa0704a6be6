-- ===== src/Core/Restore/Offered.antt =====
-- crates/agsv-core/src/supervisor.rs: what holds of the pending handoffs that were read back.
use agent_supervisor.Common.{
  Bool, ◌≡◌, refl, ap, sym, ◌∙◌, subst, ◌⊎◌, true, false, not, ◌||◌, Option, none, some, List, [],
  ◌∷◌, ◌==◌, is_none_or, arith, Bool-cases, inl, inr, eqb, eqb_iff, not-not,
}
use agent_supervisor.Common.Maps.{
  Map, nat_key, lookup, contains_key, insert, lookup-insert, nat_eq_iff, contains, set_insert,
  contains-set_insert,
}
use agent_supervisor.Common.Result.{ok, ok_or, fail_if, >>=-eq-ok, fail_if-ok, ok_or-ok}
use agent_supervisor.Protocol.Ids.{WorkspaceId, TeamId, ActorId, RequestId, HandoffId, Epoch}
use agent_supervisor.Protocol.Status.{RequestStatus, request_blocks_team_close}
use agent_supervisor.Protocol.Actor.{ActorRef, Actor, Team, ActorRef-discrete, actor_ref}
use agent_supervisor.Protocol.Work.{Assignment, Candidate, Request, OptionCandidate-discrete}
use agent_supervisor.Core.State.{PendingHandoff}
use agent_supervisor.Core.Restore.Requests.{restore_requests}
use agent_supervisor.Core.Restore.Restored.{UnderIds, insert-UnderIds, restore_requests-keyed}
use agent_supervisor.Core.Restore.Handoffs.{
  is_ineligible, candidate_differs, is_inconsistent, check_handoff, restore_handoffs_into,
  restore_handoffs,
}

-- A handoff that agrees with its request, which is open to a change of team, and is assigned
-- to the actor that offered it, in the generation that made the offer, and has the candidate that
-- the offer names.
pub record Offered (actors : Map ActorId Actor) (teams : Map TeamId Team)
    (requests : Map RequestId Request) (h : PendingHandoff) : Type 0 where
  request : Request
  found : lookup h.offer.request_id requests ≡ some request
  live : request_blocks_team_close request.status ≡ true
  from : request.team_id ≡ h.offer.from_team_id
  to : contains_key h.offer.to_team_id teams ≡ true
  assigned : request.assignment ≡ some (record { actor = h.offered_by; epoch = h.assignment_epoch })
  offerer : Actor
  known : lookup h.offered_by.actor_id actors ≡ some offerer
  current : actor_ref offerer ≡ h.offered_by
  stands : (c : Candidate) → h.offer.candidate ≡ some c → request.candidate ≡ some c

eligible-live :
    (status : RequestStatus)
    → is_ineligible status ≡ false
    → request_blocks_team_close status ≡ true
unfolding is_ineligible
eligible-live status h = ground (arith, h)

known-current :
    (found : Option Actor) (r : ActorRef)
    → is_none_or found (λ actor. not (eqb ActorRef-discrete (actor_ref actor) r)) ≡ false
    → (a : Actor) × (found ≡ some a) × (actor_ref a ≡ r)
known-current none r h = cc
known-current (some a) r h =
    (a, refl, (eqb_iff ActorRef-discrete (actor_ref a) r).0 (ground (arith, h)))

differs-stands :
    (q : Request) (c : Candidate) → candidate_differs (some c) q ≡ false → q.candidate ≡ some c
differs-stands q c h = (eqb_iff OptionCandidate-discrete q.candidate (some c)).0 (not-not _ h)

or-false : (a b : Bool) → (a || b) ≡ false → (a ≡ false) × (b ≡ false)
or-false true b h = cc
or-false false b h = (refl, h)

module _ (actors : Map ActorId Actor) (teams : Map TeamId Team)
    (requests : Map RequestId Request) where
  fits-Offered :
      (h : PendingHandoff) (q : Request) (a : Assignment)
      → lookup h.offer.request_id requests ≡ some q
      → q.assignment ≡ some a
      → is_ineligible q.status ≡ false
      → is_inconsistent actors teams q a h ≡ false
      → Offered actors teams requests h
  fits-Offered h q a found held eligible fit =
      let last = or-false _ (candidate_differs h.offer.candidate q) fit in
      let gone = or-false _ _ last.0 in
      let epoch = or-false _ _ gone.0 in
      let actor = or-false _ _ epoch.0 in
      let team = or-false _ _ actor.0 in
      let (offerer, known, current) =
        known-current (lookup h.offered_by.actor_id actors) h.offered_by gone.1 in
      let same = (eqb_iff ActorRef-discrete a.actor h.offered_by).0 (not-not _ actor.1) in
      let fence = (nat_eq_iff a.epoch h.assignment_epoch).0 (not-not _ epoch.1) in
      record {
        request = q;
        found = found;
        live = eligible-live q.status eligible;
        from = (nat_eq_iff q.team_id h.offer.from_team_id).0 (not-not _ team.0);
        to = not-not _ team.1;
        assigned = held ∙ rw (sym same, sym fence) refl;
        offerer = offerer;
        known = known;
        current = current;
        stands = λ c e. differs-stands q c (ap (λ o. candidate_differs o q) (sym e) ∙ last.1);
      }

  check_handoff-Offered :
      (seen : List RequestId) (h : PendingHandoff) {q : Request}
      → check_handoff actors teams requests seen h ≡ ok q
      → Offered actors teams requests h
        × (lookup h.offer.request_id requests ≡ some q)
        × (contains q.request_id seen ≡ false)
  unfolding check_handoff
  check_handoff-Offered seen h {q} checked =
      let (p, found, one) = >>=-eq-ok (ok_or (lookup h.offer.request_id requests) _) _ checked in
      let (a, held, two) = >>=-eq-ok (ok_or p.assignment _) _ one in
      let eligible =
        >>=-eq-ok (fail_if (contains p.request_id seen || is_ineligible p.status) _) _ two in
      let fit = >>=-eq-ok (fail_if (is_inconsistent actors teams p a h) _) _ eligible.2 in
      let unseen = fail_if-ok _ _ eligible.1 in
      let same : p ≡ q = ground (arith, fit.2) in
      let there = ok_or-ok _ _ found in
      (
        fits-Offered h p a there (ok_or-ok _ _ held) (ground (arith, unseen))
            (fail_if-ok _ _ fit.1),
        there ∙ ap some same,
        ap (λ (x : Request). contains x.request_id seen) (sym same) ∙ ground (arith, unseen),
      )

  -- Every handoff stands under its id and agrees with its request, its request is among those
  -- seen, and no other handoff is about that request.
  record Restored (m : Map HandoffId PendingHandoff) (seen : List RequestId) : Type 0 where
    keyed : UnderIds (λ (h : PendingHandoff). h.offer.handoff_id) m
    offered :
        (id : HandoffId) (h : PendingHandoff)
        → lookup id m ≡ some h
        → Offered actors teams requests h
    known :
        (id : HandoffId) (h : PendingHandoff)
        → lookup id m ≡ some h
        → contains h.offer.request_id seen ≡ true
    single :
        (i j : HandoffId) (g h : PendingHandoff)
        → lookup i m ≡ some g
        → lookup j m ≡ some h
        → g.offer.request_id ≡ h.offer.request_id
        → i ≡ j

  module _ (m : Map HandoffId PendingHandoff) (seen : List RequestId) (h : PendingHandoff)
      (r : Restored m seen) (o : Offered actors teams requests h)
      (new : contains h.offer.request_id seen ≡ false) where
    -- An entry after the insertion is the new one, or was there.
    entry :
        (k : HandoffId) {g : PendingHandoff}
        → lookup k (insert h.offer.handoff_id h m) ≡ some g
        → ((h.offer.handoff_id ≡ k) × (h ≡ g)) ⊎ (lookup k m ≡ some g)
    entry k {g} e = elim (Bool-cases (h.offer.handoff_id == k)) [
      | inl hit ↦
          inl (ground (arith, hit), ground (arith, lookup-insert h.offer.handoff_id k h m, e, hit))
      | inr miss ↦ inr (ground (arith, lookup-insert h.offer.handoff_id k h m, e, miss))
    ]

    apart :
        (k : HandoffId) (g : PendingHandoff)
        → lookup k m ≡ some g
        → g.offer.request_id ≡ h.offer.request_id
        → ⊥
    apart k g e same =
        ground (arith, r.known k g e, ap (λ (x : RequestId). contains x seen) same, new)

    insert-Restored : Restored (insert h.offer.handoff_id h m) (set_insert h.offer.request_id seen)
    insert-Restored = record {
      keyed = insert-UnderIds (λ (x : PendingHandoff). x.offer.handoff_id) h m r.keyed;
      offered = λ k g e. elim (entry k e) [
        | inl (at, same) ↦ subst (Offered actors teams requests) same o
        | inr was ↦ r.offered k g was
      ];
      known = λ k g e. elim (entry k e) [
        | inl (at, same) ↦
            contains-set_insert h.offer.request_id g.offer.request_id seen
            ∙ ground (arith, ap (λ (x : PendingHandoff). x.offer.request_id) same)
        | inr was ↦
            contains-set_insert h.offer.request_id g.offer.request_id seen
            ∙ ground (arith, r.known k g was)
      ];
      single = λ i j g k e f same. elim (entry i e) [
        | inl (at, is) ↦ elim (entry j f) [
          | inl (there, other) ↦ sym at ∙ there
          | inr was ↦
              absurd (
                apart j k was (sym same ∙ ap (λ (x : PendingHandoff). x.offer.request_id) (sym is)))
        ]
        | inr was ↦ elim (entry j f) [
          | inl (there, other) ↦
              absurd
                (apart i g was (same ∙ ap (λ (x : PendingHandoff). x.offer.request_id) (sym other)))
          | inr also ↦ r.single i j g k was also same
        ]
      ];
    }

  module _ (own : UnderIds (λ (q : Request). q.request_id) requests) where
    restore_handoffs_into-Restored :
        (m : Map HandoffId PendingHandoff) (seen : List RequestId) (hs : List PendingHandoff)
        {n : Map HandoffId PendingHandoff}
        → Restored m seen
        → restore_handoffs_into actors teams requests m seen hs ≡ ok n
        → (all : List RequestId) × Restored n all
    unfolding restore_handoffs_into
    restore_handoffs_into-Restored m seen [] r e =
        (seen, subst (λ x. Restored x seen) (ground (arith, e)) r)
    restore_handoffs_into-Restored m seen (h ∷ hs) r e =
        let (q, checked, rest) = >>=-eq-ok (check_handoff actors teams requests seen h) _ e in
        let (o, found, unseen) = check_handoff-Offered seen h checked in
        let same = own h.offer.request_id q found in
        let next = >>=-eq-ok (fail_if (contains_key h.offer.handoff_id m) _) _ rest in
        restore_handoffs_into-Restored (insert h.offer.handoff_id h m)
          (set_insert q.request_id seen) hs
          (subst (λ x. Restored (insert h.offer.handoff_id h m) (set_insert x seen)) (sym same)
            (insert-Restored m seen h r o
              (ap (λ (x : RequestId). contains x seen) (sym same) ∙ unseen)))
          next.2

-- Over requests that a snapshot restores, every handoff that it restores still agrees with its
-- request: it stands under its id, its request is open to a change of team, belongs to the
-- offering team, is assigned to the known actor generation that made the offer and has the
-- candidate that the offer names; the team that it goes to is known, in whatever status; and no
-- two handoffs that it restores are about one request.
pub restore_handoffs-Offered :
    (w : WorkspaceId) (policy : Epoch) (actors : Map ActorId Actor) (teams : Map TeamId Team)
    (qs : List Request) (requests : Map RequestId Request) (hs : List PendingHandoff)
    (handoffs : Map HandoffId PendingHandoff)
    → restore_requests w policy actors teams qs ≡ ok requests
    → restore_handoffs actors teams requests hs ≡ ok handoffs
    → ((id : HandoffId) (h : PendingHandoff)
        → lookup id handoffs ≡ some h
        → (h.offer.handoff_id ≡ id) × Offered actors teams requests h)
      × ((i j : HandoffId) (g h : PendingHandoff)
          → lookup i handoffs ≡ some g
          → lookup j handoffs ≡ some h
          → g.offer.request_id ≡ h.offer.request_id
          → i ≡ j)
unfolding restore_handoffs lookup
restore_handoffs-Offered w policy actors teams qs requests hs handoffs kept restored =
    let (seen, r) =
      restore_handoffs_into-Restored actors teams requests
        (restore_requests-keyed w policy actors teams qs requests kept) [] [] hs
        (record {
          keyed = λ k v e. cc;
          offered = λ k v e. cc;
          known = λ k v e. cc;
          single = λ i j g h e f same. cc;
        })
        restored in
    (λ id h e. (r.keyed id h e, r.offered id h e), r.single)
