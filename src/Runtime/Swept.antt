-- ===== src/Runtime/Swept.antt =====
-- crates/agsv-runtime/src/store.rs: `reconcile_expired`, by what it leaves to do.
use agent_supervisor.Common.{String, ℕ, ◌≡◌, refl, ap, ◌∙◌, Bool, true, false, List, [], ◌∷◌, arith}
use agent_supervisor.Common.Result.{ok}
use agent_supervisor.Runtime.Table.{I64, update_where, count_where}
use agent_supervisor.Runtime.Store.{Store, append_audit}
use agent_supervisor.Runtime.Actors.{offline_row}
use agent_supervisor.Runtime.Claims.{is_stale_actor, is_stale_claim, release_row, reconcile_expired}

module _ {ℓ} {R : Type ℓ} (p : R → Bool) (f : R → R) where
  count-swept :
      ((r : R) → p r ≡ true → p (f r) ≡ false)
      → (rs : List R) → count_where p (update_where p f rs) ≡ 0
  unfolding count_where update_where
  count-swept done [] = refl
  count-swept done (r ∷ rs) = ground (arith, done r, count-swept done rs)

  update-none : (rs : List R) → count_where p rs ≡ 0 → update_where p f rs ≡ rs
  unfolding count_where update_where
  update-none [] n = refl
  update-none (r ∷ rs) n = ground (arith, n, update-none rs)

-- After a reconciliation no expired actor is present and no expired claim is held, and a second
-- one at the same time changes nothing.
pub reconcile_expired-once :
    (w : String) (now : I64) (s t : Store) (n : ℕ × ℕ)
    → reconcile_expired w now s ≡ ok (n, t)
    → (count_where (is_stale_actor w now) t.actors ≡ 0)
      × (count_where (is_stale_claim w now) t.messages ≡ 0)
      × (reconcile_expired w now t ≡ ok ((0, 0), t))
unfolding reconcile_expired append_audit
reconcile_expired-once w now s t n h =
    let actors : t.actors ≡ update_where (is_stale_actor w now) offline_row s.actors =
      ground (arith, h) in
    let messages : t.messages ≡ update_where (is_stale_claim w now) (release_row now) s.messages =
      ground (arith, h) in
    let awake =
      ap (count_where (is_stale_actor w now)) actors
      ∙ count-swept (is_stale_actor w now) offline_row (λ r k. ground arith) s.actors in
    let free =
      ap (count_where (is_stale_claim w now)) messages
      ∙ count-swept (is_stale_claim w now) (release_row now) (λ m k. ground arith) s.messages in
    (
      awake,
      free,
      rw
          (
            awake,
            free,
            update-none (is_stale_actor w now) offline_row t.actors awake,
            update-none (is_stale_claim w now) (release_row now) t.messages free,
          )
          refl,
    )
