-- ===== src/Map/Size.antt =====
-- Distinct keys are kept, and the number of entries moves as it should.
use dnf_mock_server_client.Prelude.{suc, ◌+◌, false, [], ◌∷◌, ◌≡◌, refl, Eq, if◌then◌else◌, arith}
use dnf_mock_server_client.Map.{Map, IsMap, find, contains, assign, emplace, erase, size}
use dnf_mock_server_client.Map.Laws.{find-assign, find-emplace, find-erase}

module _ {ℓ κ} {K : Type ℓ} {V : Type κ} ⦃e : Eq K⦄ where
  pub assign-IsMap : (k : K) (v : V) (m : Map K V) → IsMap m → IsMap (assign k v m)
  unfolding find assign
  assign-IsMap k v [] h = (refl, tt)
  assign-IsMap k v ((j, w) ∷ m) h =
      ground (arith, e.beq_iff j k, e.beq_iff k j, find-assign k j v m, assign-IsMap k v m h.1)

  pub emplace-IsMap : (k : K) (v : V) (m : Map K V) → IsMap m → IsMap (emplace k v m)
  unfolding find emplace
  emplace-IsMap k v [] h = (refl, tt)
  emplace-IsMap k v ((j, w) ∷ m) h =
      ground (arith, e.beq_iff j k, e.beq_iff k j, find-emplace k j v m, emplace-IsMap k v m h.1)

  pub erase-IsMap : (k : K) (m : Map K V) → IsMap m → IsMap (erase k m)
  unfolding erase
  erase-IsMap k [] h = tt
  erase-IsMap k ((j, w) ∷ m) h =
      ground (arith, e.beq_iff j k, find-erase k j m, erase-IsMap k m h.1)

  pub size-emplace :
      (k : K) (v : V) (m : Map K V)
      → size (emplace k v m) ≡ (if contains k m then size m else suc (size m))
  unfolding find emplace
  size-emplace k v [] = refl
  size-emplace k v ((j, w) ∷ m) = ground (arith, size-emplace k v m)

  pub erase_missing : (k : K) (m : Map K V) → contains k m ≡ false → erase k m ≡ m
  unfolding find erase
  erase_missing k [] h = refl
  erase_missing k ((j, w) ∷ m) h = ground (arith, erase_missing k m)

  pub size-erase :
      (k : K) (m : Map K V) → IsMap m → size (erase k m) + (if contains k m then 1 else 0) ≡ size m
  unfolding find erase
  size-erase k [] h = refl
  size-erase k ((j, w) ∷ m) h = ground (arith, e.beq_iff j k, erase_missing k m, size-erase k m h.1)
