-- ===== src/Base/Maps.antt =====
-- Go maps as association lists. The order of a map's entries is what a `range` over it visits, so
-- statements about a range hold whatever that order is.
use mathlib.Core.Path.{◌≡◌, refl}
use mathlib.Core.Option.{Option, none, some}
use mathlib.Core.List.{List, [], ◌∷◌, map}
use native.Mathlib.Omega.{arith}
use Prim.Native.Nat.{ℕ, ◌+◌}
use cfunc.Base.Lists.{tally}
use cfunc.Base.Logic.{Eq, ◌==◌, if◌then◌else◌}

abbrev pub Map {ℓ κ} : Type ℓ → Type κ → Type (ℓ ⊔ κ)
Map K V = List (K × V)

-- `m[k]` where a missing key reads as the zero value.
abbrev pub get_zero {κ} : {V : Type κ} → V → Option V → V
get_zero z none = z
get_zero z (some v) = v

module _ {ℓ κ} {K : Type ℓ} {V : Type κ} where
  abbrev pub keys : Map K V → List K
  keys m = map (λ p. p.0) m

  abbrev pub values : Map K V → List V
  values m = map (λ p. p.1) m

-- The sum of a number over the values of a map, and what one key has of it.
abbrev pub held {κ} : {V : Type κ} → (V → ℕ) → Option V → ℕ
held f none = 0
held f (some v) = f v

abbrev pub total {ℓ κ} : {K : Type ℓ} → {V : Type κ} → (V → ℕ) → Map K V → ℕ
total f m = tally (λ p. f p.1) m

module _ {ℓ κ} {K : Type ℓ} {V : Type κ} ⦃e : Eq K⦄ where
  -- `v, ok := m[k]`
  unfoldable pub get : Map K V → K → Option V
  get [] k = none
  get ((j, v) ∷ m) k = if j == k then some v else get m k

  -- `m[k] = v`
  unfoldable pub put : Map K V → K → V → Map K V
  put [] k v = (k, v) ∷ []
  put ((j, w) ∷ m) k v = if j == k then (k, v) ∷ m else (j, w) ∷ put m k v

  -- `delete(m, k)`
  unfoldable pub remove : Map K V → K → Map K V
  remove [] k = []
  remove ((j, v) ∷ m) k = if j == k then remove m k else (j, v) ∷ remove m k

  pub get-put :
      (m : Map K V) (k j : K) (v : V) → get (put m k v) j ≡ (if k == j then some v else get m j)
  unfolding get put
  get-put [] k j v = refl
  get-put ((i, w) ∷ m) k j v =
      ground (arith, e.equal_iff k j, e.equal_iff i k, e.equal_iff i j, get-put m k j v)

  pub get-remove : (m : Map K V) (k j : K) → get (remove m k) j ≡ (if k == j then none else get m j)
  unfolding get remove
  get-remove [] k j = ground arith
  get-remove ((i, w) ∷ m) k j =
      ground (arith, e.equal_iff k j, e.equal_iff i k, e.equal_iff i j, get-remove m k j)

  -- Each key stands once.
  abbrev pub Distinct : Map K V → Type κ
  Distinct [] = Unit
  Distinct ((k, v) ∷ m) = (get m k ≡ none) × Distinct m

  pub put-Distinct : (m : Map K V) (k : K) (v : V) → Distinct m → Distinct (put m k v)
  unfolding get put
  put-Distinct [] k v d = (refl, tt)
  put-Distinct ((i, w) ∷ m) k v d =
      ground (arith, e.equal_iff k i, e.equal_iff i k, get-put m k i v, put-Distinct m k v d.1)

  pub remove-Distinct : (m : Map K V) (k : K) → Distinct m → Distinct (remove m k)
  unfolding get remove
  remove-Distinct [] k d = tt
  remove-Distinct ((i, w) ∷ m) k d =
      ground (arith, e.equal_iff k i, get-remove m k i, remove-Distinct m k d.1)

  pub total-put :
      (f : V → ℕ) (m : Map K V) (k : K) (v : V)
      → total f (put m k v) + held f (get m k) ≡ total f m + f v
  unfolding get put
  total-put f [] k v = omega arith
  total-put f ((i, w) ∷ m) k v = ground (arith, total-put f m k v)

  pub total-remove :
      (f : V → ℕ) (m : Map K V) (k : K)
      → Distinct m
      → total f (remove m k) + held f (get m k) ≡ total f m
  unfolding get remove
  total-remove f [] k d = omega arith
  total-remove f ((i, w) ∷ m) k d = ground (arith, e.equal_iff i k, total-remove f m k d.1)
