-- ===== src/Runtime/Keys.antt =====
-- crates/agsv-runtime/src/store.rs: a table in which one row at most has a key, under an upsert.
use agent_supervisor.Common.{
  ◌≡◌, refl, Bool, true, false, some, List, [], ◌∷◌, ◌≤◌, arith, inl, inr, Bool-cases,
}
use agent_supervisor.Common.Lists.{find, any}
use agent_supervisor.Runtime.Table.{count_where, upsert}

module _ {ℓ} {R : Type ℓ} where
  module _ (p : R → Bool) (row : R) where
    pub find-upsert_same :
        (rs : List R) → p row ≡ true → find p (upsert p row (λ _. row) rs) ≡ some row
    unfolding upsert
    find-upsert_same [] h = ground (arith, h)
    find-upsert_same (r ∷ rs) h = ground (arith, h, find-upsert_same rs)

    pub count-upsert_same :
        (rs : List R)
        → p row ≡ true
        → count_where p rs ≤ 1
        → count_where p (upsert p row (λ _. row) rs) ≤ 1
    unfolding upsert count_where
    count-upsert_same [] h n = ground (arith, h)
    count-upsert_same (r ∷ rs) h n = ground (arith, h, count-upsert_same rs)

  module _ (p q : R → Bool) (row : R) where
    pub count-upsert_other :
        (rs : List R)
        → q row ≡ false
        → ((r : R) → p r ≡ true → q r ≡ false)
        → count_where q (upsert p row (λ _. row) rs) ≡ count_where q rs
    unfolding upsert count_where
    count-upsert_other [] h apart = ground (arith, h)
    count-upsert_other (r ∷ rs) h apart = ground (arith, h, apart r, count-upsert_other rs)

  module _ (p q : R → Bool) where
    pub none-any :
        (rs : List R)
        → ((x : R) → q x ≡ true → p x ≡ true)
        → count_where p rs ≡ 0
        → any q rs ≡ false
    unfolding count_where
    none-any [] within n = refl
    none-any (x ∷ rs) within n = ground (arith, within x, none-any rs within)

    -- A test that implies the key is a test of the one row with the key.
    pub any-only :
        (rs : List R) {r : R}
        → ((x : R) → q x ≡ true → p x ≡ true)
        → count_where p rs ≤ 1
        → find p rs ≡ some r
        → any q rs ≡ q r
    unfolding count_where
    any-only [] within n h = cc
    any-only (x ∷ rs) {r} within n h = elim (Bool-cases (p x)) [
      | inl hit ↦ rw (none-any rs within (ground (arith, n, hit))) (ground (arith, h, hit))
      | inr miss ↦ ground (
        arith,
        miss,
        within x,
        any-only rs {r = r} within (ground (arith, n, miss)) (ground (arith, h, miss)),
      )
    ]
