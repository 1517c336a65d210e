-- ===== src/Prelude/Pointwise.antt =====
-- Two lists of the same length whose entries are related one by one.
use mathlib.Core.List.{List, [], ◌∷◌}

module _ {ℓ} {A : Type ℓ} where
  -- The same number of rows, related one by one.
  abbrev pub Pointwise : (A → A → Type 0) → List A → List A → Type 0
  Pointwise R [] [] = Unit
  Pointwise R (x ∷ xs) (y ∷ ys) = R x y × Pointwise R xs ys
  Pointwise R _ _ = ⊥

  pub Pointwise-refl : (R : A → A → Type 0) → ((x : A) → R x x) → (xs : List A) → Pointwise R xs xs
  Pointwise-refl R h [] = tt
  Pointwise-refl R h (x ∷ xs) = (h x, Pointwise-refl R h xs)

  pub Pointwise-trans :
      (R : A → A → Type 0)
      → ((x y z : A) → R x y → R y z → R x z)
      → (xs ys zs : List A) → Pointwise R xs ys
      → Pointwise R ys zs
      → Pointwise R xs zs
  Pointwise-trans R h [] [] [] p q = tt
  Pointwise-trans R h (x ∷ xs) (y ∷ ys) (z ∷ zs) p q =
      (h x y z p.0 q.0, Pointwise-trans R h xs ys zs p.1 q.1)
  Pointwise-trans R h [] [] (z ∷ zs) p q = elim q [ ]
  Pointwise-trans R h [] (y ∷ ys) zs p q = elim p [ ]
  Pointwise-trans R h (x ∷ xs) [] zs p q = elim p [ ]
  Pointwise-trans R h (x ∷ xs) (y ∷ ys) [] p q = elim q [ ]

  pub Pointwise-mono :
      (R S : A → A → Type 0)
      → ((x y : A) → R x y → S x y)
      → (xs ys : List A) → Pointwise R xs ys
      → Pointwise S xs ys
  Pointwise-mono R S h [] [] p = tt
  Pointwise-mono R S h (x ∷ xs) (y ∷ ys) p = (h x y p.0, Pointwise-mono R S h xs ys p.1)
  Pointwise-mono R S h [] (y ∷ ys) p = elim p [ ]
  Pointwise-mono R S h (x ∷ xs) [] p = elim p [ ]
