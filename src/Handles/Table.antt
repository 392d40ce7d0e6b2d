-- ===== src/Handles/Table.antt =====
-- A `std::map` from `uint64_t` as a list of entries with rising keys.
use runtime_system.Base.{
  ℕ, ◌<◌, ◌≤◌, ◌≡◌, refl, List, [], ◌∷◌, map, Option, none, some, arith, ltb, ◌==◌, if◌then◌else◌,
}

module _ {ℓ} {A : Type ℓ} where
  abbrev pub keys : List (ℕ × A) → List ℕ
  keys = map (λ e. e.0)

  -- `store.find(id)`.
  unfoldable pub find : ℕ → List (ℕ × A) → Option A
  find k [] = none
  find k ((j, a) ∷ m) = if j == k then some a else find k m

  -- `store[id] = handle`.
  unfoldable pub assign : ℕ → A → List (ℕ × A) → List (ℕ × A)
  assign k a [] = (k, a) ∷ []
  assign k a ((j, b) ∷ m) =
      if j == k then (k, a) ∷ m else if ltb k j then (k, a) ∷ (j, b) ∷ m else (j, b) ∷ assign k a m

  -- `store.erase(id)`.
  unfoldable pub erase : ℕ → List (ℕ × A) → List (ℕ × A)
  erase k [] = []
  erase k ((j, b) ∷ m) = if j == k then m else (j, b) ∷ erase k m

  -- The keys rise along the list, from above `low`.
  abbrev pub Rising : ℕ → List (ℕ × A) → Type 0
  Rising low [] = Unit {0}
  Rising low ((j, a) ∷ m) = (low < j) × Rising j m

  -- Every key is below `high`.
  abbrev pub Below : ℕ → List (ℕ × A) → Type 0
  Below high [] = Unit {0}
  Below high ((j, a) ∷ m) = (j < high) × Below high m

  pub Rising-mono : (l h : ℕ) (m : List (ℕ × A)) → l ≤ h → Rising h m → Rising l m
  Rising-mono l h [] le r = tt
  Rising-mono l h ((j, a) ∷ m) le r = (ground arith, r.1)

  pub Below-mono : (l h : ℕ) (m : List (ℕ × A)) → l ≤ h → Below l m → Below h m
  Below-mono l h [] le b = tt
  Below-mono l h ((j, a) ∷ m) le b = (ground arith, Below-mono l h m le b.1)

  pub find_low : (k l : ℕ) (m : List (ℕ × A)) → Rising l m → k ≤ l → find k m ≡ none
  unfolding find
  find_low k l [] r le = refl
  find_low k l ((j, a) ∷ m) r le = ground (arith, find_low k j m r.1)

  pub find_high : (k h : ℕ) (m : List (ℕ × A)) → Below h m → h ≤ k → find k m ≡ none
  unfolding find
  find_high k h [] b le = refl
  find_high k h ((j, a) ∷ m) b le = ground (arith, find_high k h m b.1 le)

  pub find-assign :
      (k j : ℕ) (a : A) (m : List (ℕ × A))
      → find j (assign k a m) ≡ (if k == j then some a else find j m)
  unfolding find assign
  find-assign k j a [] = refl
  find-assign k j a ((i, b) ∷ m) = ground (arith, find-assign k j a m)

  pub find-erase :
      (k j l : ℕ) (m : List (ℕ × A))
      → Rising l m
      → find j (erase k m) ≡ (if k == j then none else find j m)
  unfolding find erase
  find-erase k j l [] r = ground arith
  find-erase k j l ((i, b) ∷ m) r = ground (arith, find-erase k j i m r.1, find_low j i m r.1)

  pub assign-Rising :
      (k l : ℕ) (a : A) (m : List (ℕ × A)) → l < k → Rising l m → Rising l (assign k a m)
  unfolding assign
  assign-Rising k l a [] h r = (h, tt)
  assign-Rising k l a ((i, b) ∷ m) h r = ground (arith, assign-Rising k i a m)

  pub erase-Rising : (k l : ℕ) (m : List (ℕ × A)) → Rising l m → Rising l (erase k m)
  unfolding erase
  erase-Rising k l [] r = tt
  erase-Rising k l ((i, b) ∷ m) r = ground (arith, erase-Rising k i m r.1, Rising-mono l i m)

  pub assign-Below :
      (k h : ℕ) (a : A) (m : List (ℕ × A)) → k < h → Below h m → Below h (assign k a m)
  unfolding assign
  assign-Below k h a [] lt b = (lt, tt)
  assign-Below k h a ((i, c) ∷ m) lt b = ground (arith, assign-Below k h a m lt b.1)

  pub erase-Below : (k h : ℕ) (m : List (ℕ × A)) → Below h m → Below h (erase k m)
  unfolding erase
  erase-Below k h [] b = tt
  erase-Below k h ((i, c) ∷ m) b = ground (arith, erase-Below k h m b.1)
