-- ===== src/Sort.antt =====
-- std::sort of a vector by a numeric key. No two elements of the vectors that the program sorts
-- have one key, so any sorting algorithm gives this result.
use dnf_mock_server_client.Prelude.{
  ℕ, nat_eq, ◌≤◌, inl, inr, List, [], ◌∷◌, arith, leb, if◌then◌else◌, Bool-cases,
}
use mathlib.Core.List.{Perm}
use mathlib.Core.List.Perm

module _ {ℓ} {A : Type ℓ} (key : A → ℕ) where
  unfoldable pub insert_by : A → List A → List A
  insert_by a [] = a ∷ []
  insert_by a (x ∷ xs) = if leb (key a) (key x) then a ∷ x ∷ xs else x ∷ insert_by a xs

  unfoldable pub sort_by : List A → List A
  sort_by [] = []
  sort_by (x ∷ xs) = insert_by x (sort_by xs)

  abbrev pub Above : ℕ → List A → Type 0
  Above n [] = Unit
  Above n (x ∷ xs) = (n ≤ key x) × Above n xs

  abbrev pub IsSorted : List A → Type 0
  IsSorted [] = Unit
  IsSorted (x ∷ xs) = Above (key x) xs × IsSorted xs

  Above-mono : (m n : ℕ) (xs : List A) → m ≤ n → Above n xs → Above m xs
  Above-mono m n [] h a = tt
  Above-mono m n (x ∷ xs) h a = (omega arith, Above-mono m n xs h a.1)

  insert_by-Above :
      (n : ℕ) (a : A) (xs : List A) → n ≤ key a → Above n xs → Above n (insert_by a xs)
  unfolding insert_by
  insert_by-Above n a [] h u = (h, tt)
  insert_by-Above n a (x ∷ xs) h u = ground (arith, insert_by-Above n a xs h u.1)

  insert_by-IsSorted : (a : A) (xs : List A) → IsSorted xs → IsSorted (insert_by a xs)
  unfolding insert_by
  insert_by-IsSorted a [] s = (tt, tt)
  insert_by-IsSorted a (x ∷ xs) s = ground (
    arith,
    insert_by-IsSorted a xs s.1,
    insert_by-Above (key x) a xs,
    Above-mono (key a) (key x) xs,
  )

  pub sort_by-IsSorted : (xs : List A) → IsSorted (sort_by xs)
  unfolding sort_by
  sort_by-IsSorted [] = tt
  sort_by-IsSorted (x ∷ xs) = insert_by-IsSorted x (sort_by xs) (sort_by-IsSorted xs)

  insert_by-perm : (a : A) (xs : List A) → Perm (insert_by a xs) (a ∷ xs)
  unfolding insert_by
  insert_by-perm a [] = Perm.refl _
  insert_by-perm a (x ∷ xs) = elim (Bool-cases (leb (key a) (key x))) [
    | inl low ↦ rw low (Perm.refl _)
    | inr high ↦ rw high (Perm.trans (Perm.cons x (insert_by-perm a xs)) (Perm.swap a x xs))
  ]

  pub sort_by-perm : (xs : List A) → Perm (sort_by xs) xs
  unfolding sort_by
  sort_by-perm [] = Perm.refl _
  sort_by-perm (x ∷ xs) = Perm.trans (insert_by-perm x (sort_by xs)) (Perm.cons x (sort_by-perm xs))
