-- ===== src/CampaignWorker/Chunks.antt =====
-- `chunkArray` of apps/worker/src/services/campaign-process/index.ts. The loop advances by `size`,
-- so for a size of one or more it takes at most as many rounds as there are items, which is the
-- fuel; with a size of zero the source's loop does not end, and the configuration rules it out.
use aggregator_dpg.Prelude.{
  ℕ, zero, suc, ◌+◌, ◌≤◌, ◌<◌, ◌≡◌, refl, sym, ap, ◌∙◌, List, [], ◌∷◌, ◌++◌, arith, ltb, Bool-cases,
  if◌then◌else◌, length, take, drop, All, inl, inr,
}

module _ {ℓ} {A : Type ℓ} where
  chunk_loop : ℕ → List A → ℕ → ℕ → List (List A)
  chunk_loop zero items size i = []
  chunk_loop (suc rounds) items size i =
      let rest = chunk_loop rounds items size (i + size) in
      if ltb i (length items) then take size (drop i items) ∷ rest else []

  unfoldable pub chunk_array : List A → ℕ → List (List A)
  unfolding chunk_loop
  chunk_array items size = chunk_loop (length items) items size 0

  abbrev pub concat : List (List A) → List A
  concat [] = []
  concat (c ∷ cs) = c ++ concat cs

  drop_all : (i : ℕ) (xs : List A) → length xs ≤ i → drop i xs ≡ []
  drop_all zero [] h = refl
  drop_all zero (x ∷ xs) h = elim h [ ]
  drop_all (suc i) [] h = refl
  drop_all (suc i) (x ∷ xs) h = drop_all i xs (omega arith)

  pub length-drop_pos : (i : ℕ) (xs : List A) → i < length xs → 0 < length (drop i xs)
  length-drop_pos zero xs h = h
  length-drop_pos (suc i) [] h = elim h [ ]
  length-drop_pos (suc i) (x ∷ xs) h = length-drop_pos i xs (omega arith)

  pub take-drop : (n : ℕ) (xs : List A) → take n xs ++ drop n xs ≡ xs
  take-drop zero xs = refl
  take-drop (suc n) [] = refl
  take-drop (suc n) (x ∷ xs) = ap (λ l. x ∷ l) (take-drop n xs)

  drop-nil : (n : ℕ) → drop {A = A} n [] ≡ []
  drop-nil zero = refl
  drop-nil (suc n) = refl

  drop-drop : (i n : ℕ) (xs : List A) → drop n (drop i xs) ≡ drop (i + n) xs
  drop-drop zero n xs = ap (λ k. drop k xs) (let e : n ≡ 0 + n = omega arith in e)
  drop-drop (suc i) n [] = drop-nil n ∙ sym (drop-nil (suc i + n))
  drop-drop (suc i) n (x ∷ xs) =
      drop-drop i n xs
      ∙ ap (λ k. drop k (x ∷ xs)) (let e : suc (i + n) ≡ suc i + n = omega arith in e)

  length-take-le : (n : ℕ) (xs : List A) → length (take n xs) ≤ n
  length-take-le zero xs = omega arith
  length-take-le (suc n) [] = omega arith
  length-take-le (suc n) (x ∷ xs) = omega (arith, length-take-le n xs)

  length-take_pos : (n : ℕ) (xs : List A) → 0 < n → 0 < length xs → 0 < length (take n xs)
  length-take_pos zero xs p h = elim p [ ]
  length-take_pos (suc n) [] p h = elim h [ ]
  length-take_pos (suc n) (x ∷ xs) p h = omega arith

  module _ (items : List A) (size : ℕ) (positive : 0 < size) where
    concat-chunk_loop :
        (rounds i : ℕ)
        → length items ≤ i + rounds
        → concat (chunk_loop rounds items size i) ≡ drop i items
    unfolding chunk_loop
    concat-chunk_loop zero i fits = sym (drop_all i items (omega arith))
    concat-chunk_loop (suc rounds) i fits = elim (Bool-cases (ltb i (length items))) [
      | inl more ↦
          rw (more, concat-chunk_loop rounds (i + size) (omega arith), ← drop-drop i size items)
            (take-drop size (drop i items))
      | inr over ↦ rw over (sym (drop_all i items (ground arith)))
    ]

    abbrev IsChunk : List A → Type 0
    IsChunk c = (0 < length c) × (length c ≤ size)

    All-chunk_loop : (rounds i : ℕ) → All IsChunk (chunk_loop rounds items size i)
    unfolding chunk_loop
    All-chunk_loop zero i = tt
    All-chunk_loop (suc rounds) i = elim (Bool-cases (ltb i (length items))) [
      | inl more ↦ rw more (
        (
          length-take_pos size (drop i items) positive (length-drop_pos i items (ground arith)),
          length-take-le size (drop i items),
        ),
        All-chunk_loop rounds (i + size),
      )
      | inr over ↦ rw over tt
    ]

  -- With a size of one or more the chunks of a list, put together, are the list, and each of them
  -- has at least one item and at most `size`.
  pub chunk_array_lem :
      (items : List A) (size : ℕ)
      → 0 < size
      → (concat (chunk_array items size) ≡ items)
        × All (λ c. (0 < length c) × (length c ≤ size)) (chunk_array items size)
  unfolding chunk_array
  chunk_array_lem items size positive = (
    concat-chunk_loop items size positive (length items) 0 (omega arith),
    All-chunk_loop items size positive (length items) 0,
  )
