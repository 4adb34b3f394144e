-- ===== src/Map/Subset.antt =====
-- The sizes of two maps one of which has all the keys of the other.
use dnf_mock_server_client.Prelude.{
  ℕ, nat_eq, ◌≤◌, ◌≡◌, inl, inr, true, List, [], ◌∷◌, arith, Bool-cases, length, Distinct, elem,
  without, Distinct-without, elem-without, length-without,
}
use dnf_mock_server_client.Map.{Map, find, contains, erase, IsMap, size}
use dnf_mock_server_client.Map.Laws.{find-erase}
use dnf_mock_server_client.Map.Size.{erase-IsMap, size-erase}

-- A map whose keys are all keys of another has at most its size.
pub size_mono :
    {V W : Type 0} (m : Map ℕ V) (n : Map ℕ W)
    → IsMap m
    → IsMap n
    → ((k : ℕ) → contains k m ≡ true → contains k n ≡ true)
    → size m ≤ size n
unfolding find
size_mono [] n dm dn sub = omega arith
size_mono ((k, v) ∷ m) n (fresh, dm) dn sub =
    let rest : size m ≤ size (erase k n) =
      size_mono m (erase k n) dm (erase-IsMap k n dn)
        (λ j h. ground (arith, find-erase k j n, sub j)) in
    ground (arith, rest, size-erase k n dn, sub k)

pub contains_all :
    {V W : Type 0} (m : Map ℕ V) (n : Map ℕ W)
    → IsMap m
    → IsMap n
    → ((k : ℕ) → contains k m ≡ true → contains k n ≡ true)
    → size m ≡ size n
    → (k : ℕ) → contains k n ≡ true
    → contains k m ≡ true
contains_all m n dm dn sub same k h = elim (Bool-cases (contains k m)) [
  | inl there ↦ there
  | inr missing ↦
      let fits : size m ≤ size (erase k n) =
        size_mono m (erase k n) dm (erase-IsMap k n dn)
          (λ j had. ground (arith, find-erase k j n, sub j)) in
      absurd (ground (arith, fits, size-erase k n dn))
]

-- A map whose keys all stand in a list has at most its length.
pub size_le-length :
    {V : Type 0} (m : Map ℕ V) (xs : List ℕ)
    → IsMap m
    → Distinct xs
    → ((k : ℕ) → contains k m ≡ true → elem k xs ≡ true)
    → size m ≤ length xs
unfolding find
size_le-length [] xs dm dx sub = omega arith
size_le-length ((k, v) ∷ m) xs (fresh, dm) dx sub =
    let rest : size m ≤ length (without k xs) =
      size_le-length m (without k xs) dm (Distinct-without k xs dx)
        (λ j h. ground (arith, elem-without j k xs, sub j)) in
    ground (arith, rest, length-without k xs dx, sub k)
