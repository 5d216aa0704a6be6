-- ===== src/Common/Maps.antt =====
-- `BTreeMap` and `BTreeSet`: association lists in ascending order of the keys. Reads take the
-- first entry with the key; writes keep the order, so an iteration meets the keys as the source's
-- does.
use Prim.Native.Nat.{ℕ}
use mathlib.Core.Path.{◌≡◌, refl}
use mathlib.Core.Logic.{◌⊎◌, ◌≢◌, ◌↔◌}
use mathlib.Core.Bool.{Bool, true, false, ◌||◌}
use mathlib.Core.Option.{Option, none, some}
use mathlib.Core.Option
use mathlib.Core.List.{List, [], ◌∷◌}
use native.Mathlib.Omega.{arith}
use agent_supervisor.Common.Tests.{ltb, ◌==◌, if◌then◌else◌, is_some}

-- The order of a key type, as the derived `Ord` gives it.
pub record Key {ℓ} (K : Type ℓ) : Type ℓ where
  pub lt : K → K → Bool
  pub eq : K → K → Bool
  pub eq_iff : (a b : K) → (eq a b ≡ true) ↔ (a ≡ b)

pub nat_eq_iff : (a b : ℕ) → ((a == b) ≡ true) ↔ (a ≡ b)
nat_eq_iff a b = ground arith

instance abbrev pub nat_key : Key ℕ
nat_key = record { lt = ltb; eq = ◌==◌; eq_iff = nat_eq_iff }

abbrev pub Map {ℓ κ} : Type ℓ → Type κ → Type (ℓ ⊔ κ)
Map K V = List (K × V)

module _ {ℓ κ} {K : Type ℓ} {V : Type κ} ⦃o : Key K⦄ where
  unfoldable pub lookup : K → Map K V → Option V
  lookup k [] = none
  lookup k ((j, v) ∷ m) = if o.eq j k then some v else lookup k m

  unfoldable pub contains_key : K → Map K V → Bool
  contains_key k m = is_some (lookup k m)

  unfoldable pub insert : K → V → Map K V → Map K V
  insert k v [] = (k, v) ∷ []
  insert k v ((j, w) ∷ m) =
      if o.eq j k
      then (k, v) ∷ m
      else if o.lt k j
      then (k, v) ∷ ((j, w) ∷ m)
      else (j, w) ∷ insert k v m

  -- `get_mut` with a write through the reference; a missing key changes nothing.
  unfoldable pub update : K → (V → V) → Map K V → Map K V
  update k f [] = []
  update k f ((j, v) ∷ m) = if o.eq j k then (j, f v) ∷ m else (j, v) ∷ update k f m

  unfoldable pub remove : K → Map K V → Map K V
  remove k [] = []
  remove k ((j, v) ∷ m) = let rest = remove k m in if o.eq j k then rest else (j, v) ∷ rest

  pub lookup-insert :
      (new key : K) (value : V) (m : Map K V)
      → lookup key (insert new value m) ≡ (if o.eq new key then some value else lookup key m)
  unfolding insert lookup
  lookup-insert new key value ((first, other) ∷ m) = ground (
    arith,
    lookup-insert new key value m,
    o.eq_iff first key,
    o.eq_iff first new,
    o.eq_iff new key,
  )
  lookup-insert new key value [] = refl

  pub lookup-insert_same : (k : K) (v : V) (m : Map K V) → lookup k (insert k v m) ≡ some v
  lookup-insert_same k v m = ground (arith, lookup-insert k k v m, o.eq_iff k k)

  pub lookup-insert_other :
      (k j : K) (v : V) (m : Map K V) → k ≢ j → lookup j (insert k v m) ≡ lookup j m
  lookup-insert_other k j v m = ground (arith, lookup-insert k j v m, o.eq_iff k j)

  pub lookup-update :
      (k j : K) (f : V → V) (m : Map K V)
      → lookup j (update k f m) ≡ (if o.eq k j then Option.map f (lookup j m) else lookup j m)
  unfolding lookup update
  lookup-update k j f [] = ground arith
  lookup-update k j f ((i, w) ∷ m) =
      ground (arith, o.eq_iff k j, o.eq_iff i k, o.eq_iff i j, lookup-update k j f m)

  -- What is found after a write was there before, or is what the write made of it.
  pub lookup-update_before :
      (k j : K) (f : V → V) (m : Map K V) (w : V)
      → lookup j (update k f m) ≡ some w
      → (v : V) × (lookup j m ≡ some v) × ((w ≡ v) ⊎ ((k ≡ j) × (w ≡ f v)))
  lookup-update_before k j f m w h = ground (arith, lookup-update k j f m, o.eq_iff k j)

  pub lookup-update_same :
      (k : K) (f : V → V) (m : Map K V) (v : V)
      → lookup k m ≡ some v
      → lookup k (update k f m) ≡ some (f v)
  lookup-update_same k f m v h = ground (arith, lookup-update k k f m, o.eq_iff k k)

  pub lookup-update_other :
      (k j : K) (f : V → V) (m : Map K V) → k ≢ j → lookup j (update k f m) ≡ lookup j m
  lookup-update_other k j f m n = ground (arith, lookup-update k j f m, o.eq_iff k j)

  pub lookup-remove :
      (k j : K) (m : Map K V) → lookup j (remove k m) ≡ (if o.eq k j then none else lookup j m)
  unfolding lookup remove
  lookup-remove k j [] = ground arith
  lookup-remove k j ((i, w) ∷ m) =
      ground (arith, o.eq_iff k j, o.eq_iff i k, o.eq_iff i j, lookup-remove k j m)

  -- `values_mut` and `retain`, over all entries.
  unfoldable pub map_values : (V → V) → Map K V → Map K V
  map_values f [] = []
  map_values f ((j, v) ∷ m) = (j, f v) ∷ map_values f m

  unfoldable pub retain : (V → Bool) → Map K V → Map K V
  retain p [] = []
  retain p ((j, v) ∷ m) = let rest = retain p m in if p v then (j, v) ∷ rest else rest

  unfoldable pub values : Map K V → List V
  values [] = []
  values ((j, v) ∷ m) = v ∷ values m

  pub lookup-map_values :
      (k : K) (f : V → V) (m : Map K V) → lookup k (map_values f m) ≡ Option.map f (lookup k m)
  unfolding lookup map_values
  lookup-map_values k f [] = ground arith
  lookup-map_values k f ((i, w) ∷ m) = ground (arith, lookup-map_values k f m)

-- `BTreeSet`: the members in ascending order.
module _ {ℓ} {K : Type ℓ} ⦃o : Key K⦄ where
  unfoldable pub contains : K → List K → Bool
  contains k [] = false
  contains k (j ∷ s) = o.eq j k || contains k s

  unfoldable pub set_insert : K → List K → List K
  set_insert k [] = k ∷ []
  set_insert k (j ∷ s) =
      if o.eq j k then k ∷ s else if o.lt k j then k ∷ (j ∷ s) else j ∷ set_insert k s

  -- `extend` and `collect`
  unfoldable pub set_extend : List K → List K → List K
  set_extend [] s = s
  set_extend (k ∷ ks) s = set_insert k (set_extend ks s)

  pub contains-set_insert :
      (k j : K) (s : List K) → contains j (set_insert k s) ≡ (o.eq k j || contains j s)
  unfolding contains set_insert
  contains-set_insert k j [] = refl
  contains-set_insert k j (i ∷ s) =
      ground (arith, o.eq_iff k j, o.eq_iff i k, o.eq_iff i j, contains-set_insert k j s)
