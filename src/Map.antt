-- ===== src/Map.antt =====
-- std::unordered_map, as an association list whose keys are distinct. The order of the entries
-- stands for the order of iteration, which C++ leaves open.
pub mod Laws
pub mod Size
pub mod Subset
use dnf_mock_server_client.Prelude.{
  ℕ, Bool, false, List, [], ◌∷◌, map, Option, none, some, Eq, ◌==◌, if◌then◌else◌, is_some, length,
  ◌≡◌,
}

abbrev pub Map {ℓ κ} : Type ℓ → Type κ → Type (ℓ ⊔ κ)
Map K V = List (K × V)

module _ {ℓ κ} {K : Type ℓ} {V : Type κ} ⦃e : Eq K⦄ where
  -- find, and the value behind the iterator.
  unfoldable pub find : K → Map K V → Option V
  find k [] = none
  find k ((j, v) ∷ m) = if j == k then some v else find k m

  abbrev pub contains : K → Map K V → Bool
  contains k m = is_some (find k m)

  -- m[k] = v, insert_or_assign.
  unfoldable pub assign : K → V → Map K V → Map K V
  assign k v [] = (k, v) ∷ []
  assign k v ((j, w) ∷ m) = if j == k then (k, v) ∷ m else (j, w) ∷ assign k v m

  -- emplace and try_emplace, which leave an entry that is there.
  unfoldable pub emplace : K → V → Map K V → Map K V
  emplace k v [] = (k, v) ∷ []
  emplace k v ((j, w) ∷ m) = if j == k then (j, w) ∷ m else (j, w) ∷ emplace k v m

  unfoldable pub erase : K → Map K V → Map K V
  erase k [] = []
  erase k ((j, w) ∷ m) = if j == k then erase k m else (j, w) ∷ erase k m

  -- The keys are distinct.
  abbrev pub IsMap : Map K V → Type 0
  IsMap [] = Unit
  IsMap ((k, v) ∷ m) = (contains k m ≡ false) × IsMap m

module _ {ℓ κ} {K : Type ℓ} {V : Type κ} where
  abbrev pub size : Map K V → ℕ
  size m = length m

  abbrev pub keys : Map K V → List K
  keys m = map (λ p. p.0) m
