-- ===== src/Limiter/Histories.antt =====
-- The tables of attempts stay within their limits.
use dnf_mock_server_client.Prelude.{
  ℕ, suc, nat_eq, ◌≤◌, ◌<◌, ◌≡◌, refl, ap, inl, inr, false, none, some, List, [], ◌∷◌, ◌++◌, arith,
  Option-cases, length, length-append, List-cases,
}
use dnf_mock_server_client.Map.{Map, find, assign, erase, IsMap, size}
use dnf_mock_server_client.Map.Laws.{find-assign, find-erase}
use dnf_mock_server_client.Map.Size.{assign-IsMap, erase-IsMap, size-erase}
use dnf_mock_server_client.Limiter.{
  bytes_eq, prune_front, prune_expired, find_and_prune, is_full, note_attempt,
}

-- No more keys than are tracked, each once, and under each key one attempt at least, and no more
-- than the limit.
pub record IsBounded (limit tracked : ℕ) (m : Map (List ℕ) (List ℕ)) : Type 0 where
  pub distinct : IsMap m
  pub tracks : size m ≤ tracked
  pub counts : (k h : List ℕ) → find k m ≡ some h → (0 < length h) × (length h ≤ limit)

module _ (window now : ℕ) where
  length-prune_front : (h : List ℕ) → length (prune_front window now h) ≤ length h
  unfolding prune_front
  length-prune_front [] = omega arith
  length-prune_front (t ∷ ts) = ground (arith, length-prune_front ts)

  find-prune_expired :
      (k : List ℕ) (m : Map (List ℕ) (List ℕ))
      → IsMap m
      → find k (prune_expired window now m) ≡ elim (find k m) [
        | none ↦ none
        | some h ↦ elim (prune_front window now h) [ [] ↦ none | t ∷ ts ↦ some (t ∷ ts) ]
      ]
  unfolding prune_expired find
  find-prune_expired k [] d = refl
  find-prune_expired k ((j, h) ∷ m) (fresh, d) = elim (List-cases (prune_front window now h)) [
    | inl gone ↦ ground (arith, find-prune_expired k m d, bytes_eq.beq_iff j k)
    | inr (t, ts, left) ↦ ground (arith, find-prune_expired k m d, bytes_eq.beq_iff j k)
  ]

  prune_expired-IsMap : (m : Map (List ℕ) (List ℕ)) → IsMap m → IsMap (prune_expired window now m)
  unfolding prune_expired
  prune_expired-IsMap [] d = tt
  prune_expired-IsMap ((j, h) ∷ m) (fresh, d) = elim (List-cases (prune_front window now h)) [
    | inl gone ↦ ground (arith, prune_expired-IsMap m d)
    | inr (t, ts, left) ↦ ground (arith, prune_expired-IsMap m d, find-prune_expired j m d)
  ]

  size-prune_expired : (m : Map (List ℕ) (List ℕ)) → size (prune_expired window now m) ≤ size m
  unfolding prune_expired
  size-prune_expired [] = omega arith
  size-prune_expired ((j, h) ∷ m) = elim (List-cases (prune_front window now h)) [
    | inl gone ↦ ground (arith, size-prune_expired m)
    | inr (t, ts, left) ↦ ground (arith, size-prune_expired m)
  ]

size-assign_found :
    (k h g : List ℕ) (m : Map (List ℕ) (List ℕ)) → find k m ≡ some g → size (assign k h m) ≡ size m
unfolding find assign
size-assign_found k h g [] e = cc
size-assign_found k h g ((j, w) ∷ m) e = ground (arith, size-assign_found k h g m)

size-assign_new :
    (k h : List ℕ) (m : Map (List ℕ) (List ℕ))
    → find k m ≡ none
    → size (assign k h m) ≡ suc (size m)
unfolding find assign
size-assign_new k h [] e = refl
size-assign_new k h ((j, w) ∷ m) e = ground (arith, size-assign_new k h m)

module _ (limit tracked : ℕ) (m : Map (List ℕ) (List ℕ)) (b : IsBounded limit tracked m) where
  pub prune_expired-IsBounded :
      (window now : ℕ) → IsBounded limit tracked (prune_expired window now m)
  prune_expired-IsBounded window now = record {
    distinct = prune_expired-IsMap window now m b.distinct;
    tracks = omega (arith, size-prune_expired window now m, b.tracks);
    counts = λ k h e. elim (Option-cases (find k m)) [
      | inl missing ↦ absurd (ground (arith, find-prune_expired window now k m b.distinct))
      | inr (g, found) ↦ elim (List-cases (prune_front window now g)) [
        | inl gone ↦ absurd (ground (arith, find-prune_expired window now k m b.distinct))
        | inr (t, ts, left) ↦ ground (
          arith,
          find-prune_expired window now k m b.distinct,
          b.counts k g found,
          length-prune_front window now g,
        )
      ]
    ];
  }

  replaced :
      (k h g : List ℕ)
      → find k m ≡ some g
      → 0 < length h
      → length h ≤ limit
      → IsBounded limit tracked (assign k h m)
  replaced k h g found some_left few = record {
    distinct = assign-IsMap k h m b.distinct;
    tracks = omega (arith, b.tracks, size-assign_found k h g m found);
    counts = λ j i e. ground (arith, find-assign k j h m, b.counts j i);
  }

  erased : (k g : List ℕ) → find k m ≡ some g → IsBounded limit tracked (erase k m)
  erased k g found = record {
    distinct = erase-IsMap k m b.distinct;
    tracks = omega (arith, b.tracks, size-erase k m b.distinct);
    counts = λ j i e. ground (arith, find-erase k j m, b.counts j i);
  }

  -- What is returned is what the table says of the key.
  pub find_and_prune-IsBounded :
      (window now : ℕ) (k : List ℕ)
      → IsBounded limit tracked (find_and_prune window now m k).0
        × (find k (find_and_prune window now m k).0 ≡ (find_and_prune window now m k).1)
  unfolding find_and_prune
  find_and_prune-IsBounded window now k = elim (Option-cases (find k m)) [
    | inl missing ↦ (ground (arith, b), ground arith)
    | inr (g, found) ↦ elim (List-cases (prune_front window now g)) [
      | inl gone ↦
          (ground (arith, erased k g found), ground (arith, find-erase k k m, bytes_eq.beq_iff k k))
      | inr (t, ts, left) ↦ (
        ground (
          arith,
          replaced k (t ∷ ts) g found (omega arith) (
              omega (
                arith,
                b.counts k g found,
                length-prune_front window now g,
                ap (length {A = ℕ}) left,
              )),
        ),
        ground (arith, find-assign k k (t ∷ ts) m, bytes_eq.beq_iff k k),
      )
    ]
  ]

  pub note_attempt-IsBounded :
      (now : ℕ) (k : List ℕ)
      → 0 < limit
      → (find k m ≡ none → size m < tracked)
      → is_full limit (find k m) ≡ false
      → IsBounded limit tracked (note_attempt now k m)
  unfolding note_attempt
  note_attempt-IsBounded now k positive room few = elim (Option-cases (find k m)) [
    | inl missing ↦
        let fresh : IsBounded limit tracked (assign k (now ∷ []) m) = record {
          distinct = assign-IsMap k (now ∷ []) m b.distinct;
          tracks = omega (arith, room missing, size-assign_new k (now ∷ []) m missing);
          counts = λ j i e. ground (arith, find-assign k j (now ∷ []) m, b.counts j i);
        } in
        ground (arith, fresh)
    | inr (g, found) ↦ ground (
      arith,
      replaced k (g ++ now ∷ []) g found (omega (arith, length-append g (now ∷ [])))
          (ground (arith, length-append g (now ∷ []))),
    )
  ]

pub find-prune_expired-none :
    (window now : ℕ) (k : List ℕ) (m : Map (List ℕ) (List ℕ))
    → IsMap m
    → find k m ≡ none
    → find k (prune_expired window now m) ≡ none
find-prune_expired-none window now k m d e = ground (arith, find-prune_expired window now k m d)
