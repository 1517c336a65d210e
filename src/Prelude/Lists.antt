-- ===== src/Prelude/Lists.antt =====
-- Lists measured by native numbers, under the library's names, and predicates on all the entries.
use Prim.Native.Nat.{ℕ, zero, suc, ◌<◌, ◌≤◌}
use Prim.Native.String.{String}
use mathlib.Core.Bool.{Bool, true, false}
use mathlib.Core.List.{List, [], ◌∷◌, ◌++◌}
use mathlib.Core.Option.{Option, none, some}
use native.Mathlib.Omega.{arith}
use aggregator_dpg.Prelude.Tests.{if◌then◌else◌, ◌=ₛ◌}
use mathlib.Core.Path.{◌≡◌, refl, ap}

module _ {ℓ} {A : Type ℓ} where
  abbrev pub length : List A → ℕ
  length [] = 0
  length (x ∷ xs) = suc (length xs)

  abbrev pub take : ℕ → List A → List A
  take zero xs = []
  take (suc n) [] = []
  take (suc n) (x ∷ xs) = x ∷ take n xs

  abbrev pub drop : ℕ → List A → List A
  drop zero xs = xs
  drop (suc n) [] = []
  drop (suc n) (x ∷ xs) = drop n xs

  -- `xs.filter(p)`
  abbrev pub keep : (A → Bool) → List A → List A
  keep p [] = []
  keep p (x ∷ xs) = let rest = keep p xs in if p x then x ∷ rest else rest

  -- `xs.some(p)`
  abbrev pub any : (A → Bool) → List A → Bool
  any p [] = false
  any p (x ∷ xs) = let rest = any p xs in if p x then true else rest

  -- `xs.find(p)`
  abbrev pub find : (A → Bool) → List A → Option A
  find p [] = none
  find p (x ∷ xs) = let rest = find p xs in if p x then some x else rest

  -- `xs.at(-1)`
  abbrev pub last? : List A → Option A
  last? [] = none
  last? (x ∷ []) = some x
  last? (x ∷ y ∷ ys) = last? (y ∷ ys)

  abbrev pub All {κ} : (A → Type κ) → List A → Type κ
  All P [] = Unit
  All P (x ∷ xs) = P x × All P xs

  pub All-append {κ} : (P : A → Type κ) (xs ys : List A) → All P xs → All P ys → All P (xs ++ ys)
  All-append P [] ys hx hy = hy
  All-append P (x ∷ xs) ys hx hy = (hx.0, All-append P xs ys hx.1 hy)

-- `set.has(s)` of a set of texts, kept as a list.
abbrev pub has_text : String → List String → Bool
has_text s = any (λ t. t =ₛ s)

-- Each number is below all that follow.
abbrev pub Ascending : List ℕ → Type 0
Ascending [] = Unit
Ascending (x ∷ xs) = All (λ y. x < y) xs × Ascending xs

All-lt_append :
    (x n : ℕ) (xs : List ℕ) → x < n → All (λ y. x < y) xs → All (λ y. x < y) (xs ++ n ∷ [])
All-lt_append x n [] h a = (h, tt)
All-lt_append x n (y ∷ ys) h a = (a.0, All-lt_append x n ys h a.1)

-- The next number of a counter goes to the end.
pub Ascending-append :
    (n : ℕ) (xs : List ℕ) → All (λ y. y ≤ n) xs → Ascending xs → Ascending (xs ++ suc n ∷ [])
Ascending-append n [] b a = (tt, tt)
Ascending-append n (x ∷ xs) b a =
    (All-lt_append x (suc n) xs (omega (arith, b.0)) a.0, Ascending-append n xs b.1 a.1)

pub All-le_suc :
    (n : ℕ) (xs : List ℕ) → All (λ y. y ≤ n) xs → All (λ y. y ≤ suc n) (xs ++ suc n ∷ [])
All-le_suc n [] b = (omega arith, tt)
All-le_suc n (x ∷ xs) b = (omega (arith, b.0), All-le_suc n xs b.1)

pub any-head {ℓ} :
    {A : Type ℓ} (p : A → Bool) (x : A) (xs : List A) → any p (x ∷ xs) ≡ false → p x ≡ false
any-head p x xs h = ground arith

pub any-tail {ℓ} :
    {A : Type ℓ} (p : A → Bool) (x : A) (xs : List A) → any p (x ∷ xs) ≡ false → any p xs ≡ false
any-tail p x xs h = ground arith

pub take_all {ℓ} : {A : Type ℓ} (n : ℕ) (xs : List A) → length xs ≤ n → take n xs ≡ xs
take_all zero [] h = refl
take_all zero (x ∷ xs) h = elim h [ ]
take_all (suc n) [] h = refl
take_all (suc n) (x ∷ xs) h = ap (λ l. x ∷ l) (take_all n xs (omega arith))
