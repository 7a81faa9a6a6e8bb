-- ===== src/Prelude/Map.antt =====
-- Rust's `BTreeMap`: the entries in the order of their keys. The operations are shut behind the
-- laws; iteration is over the list of entries.
use Prim.Native.Nat.{Ordering}
use mathlib.Core.Path.{◌≡◌, refl}
use mathlib.Core.Bool.{Bool, true, false}
use Prim.Native.Nat.{suc}
use mathlib.Core.Option.{Option, none, some}
use mathlib.Core.List.{List, [], ◌∷◌}
use native.Mathlib.Omega.{arith}
use hotgraph.Prelude.Tests.{if◌then◌else◌}
use hotgraph.Prelude.Order.{Ord, cmp, ◌==◌, eq_iff}
use hotgraph.Prelude.Lists.{contains, length}

abbrev pub BTreeMap {ℓ κ} : Type ℓ → Type κ → Type (ℓ ⊔ κ)
BTreeMap K V = List (K × V)

abbrev pub is_some {ℓ} : {A : Type ℓ} → Option A → Bool
is_some none = false
is_some (some a) = true

abbrev pub get_or {ℓ} : {A : Type ℓ} → Option A → A → A
get_or none d = d
get_or (some a) d = a

module _ {ℓ κ} {K : Type ℓ} {V : Type κ} ⦃o : Ord K⦄ where
  unfoldable pub get : BTreeMap K V → K → Option V
  get [] k = none
  get ((j, v) ∷ m) k = if j == k then some v else get m k

  unfoldable pub insert : BTreeMap K V → K → V → BTreeMap K V
  insert [] k v = (k, v) ∷ []
  insert ((j, w) ∷ m) k v =
      let later = insert m k v in
      elim (cmp k j) [
        | Ordering.lt ↦ (k, v) ∷ (j, w) ∷ m
        | Ordering.eq ↦ (k, v) ∷ m
        | Ordering.gt ↦ (j, w) ∷ later
      ]

  -- `contains_key`
  unfoldable pub contains_key : BTreeMap K V → K → Bool
  unfolding get
  contains_key m k = is_some (get m k)

  -- `if let Some(v) = m.get_mut(&k) { *v = f(v) }`
  unfoldable pub update : BTreeMap K V → K → (V → V) → BTreeMap K V
  update [] k f = []
  update ((j, v) ∷ m) k f = if j == k then (j, f v) ∷ m else (j, v) ∷ update m k f

  unfoldable pub keys : BTreeMap K V → List K
  keys [] = []
  keys ((j, v) ∷ m) = j ∷ keys m

  unfoldable pub values : BTreeMap K V → List V
  values [] = []
  values ((j, v) ∷ m) = v ∷ values m

  pub get-insert :
      (m : BTreeMap K V) (k : K) (v : V) (j : K)
      → get (insert m k v) j ≡ (if k == j then some v else get m j)
  unfolding get insert
  get-insert [] k v j = refl
  get-insert ((i, w) ∷ m) k v j =
      ground (arith, get-insert m k v j, eq_iff k j, eq_iff i j, eq_iff k i)

  pub get-update :
      (m : BTreeMap K V) (k : K) (f : V → V) (j : K)
      → get (update m k f) j
        ≡ (if k == j then elim (get m j) [ none ↦ none | some v ↦ some (f v) ] else get m j)
  unfolding get update
  get-update [] k f j = ground arith
  get-update ((i, w) ∷ m) k f j =
      ground (arith, get-update m k f j, eq_iff k j, eq_iff i j, eq_iff i k)

  pub contains_key-insert :
      (m : BTreeMap K V) (k : K) (v : V) (j : K)
      → contains_key (insert m k v) j ≡ (if k == j then true else contains_key m j)
  unfolding contains_key
  contains_key-insert m k v j = ground (arith, get-insert m k v j)

  pub contains_key-update :
      (m : BTreeMap K V) (k : K) (f : V → V) (j : K)
      → contains_key (update m k f) j ≡ contains_key m j
  unfolding contains_key
  contains_key-update m k f j = ground (arith, get-update m k f j)

  pub contains-keys : (m : BTreeMap K V) (k : K) → contains (keys m) k ≡ contains_key m k
  unfolding contains keys contains_key get
  contains-keys [] k = refl
  contains-keys ((j, v) ∷ m) k = ground (arith, contains-keys m k)

  -- A new key makes the map one entry longer.
  pub length-insert :
      (m : BTreeMap K V) (k : K) (v : V) → get m k ≡ none → length (insert m k v) ≡ suc (length m)
  unfolding get insert
  length-insert [] k v h = refl
  length-insert ((j, w) ∷ m) k v h = ground (arith, length-insert m k v, eq_iff k j, eq_iff j k)
