-- ===== src/Prelude/JsMap.antt =====
-- JavaScript's `Map` with text keys: entries in insertion order, a write to a key that is there
-- keeps its place.
use Prim.Native.String.{String}
use mathlib.Core.Path.{◌≡◌, refl, ap, subst, ◌∙◌}
use mathlib.Core.Logic.{◌⊎◌, ◌↔◌, inl, inr}
use mathlib.Core.Bool.{Bool, true, false}
use mathlib.Core.List.{List, [], ◌∷◌, ◌++◌, map}
use mathlib.Core.Option.{Option, none, some}
use native.Mathlib.Omega.{arith}
use text.Mathlib.TextEquality.{eq_iff}
use aggregator_dpg.Prelude.Tests.{if◌then◌else◌, ◌=ₛ◌, Bool-cases}
use aggregator_dpg.Prelude.Lists.{All, any, any-head, any-tail}

abbrev pub JsMap {ℓ} : Type ℓ → Type ℓ
JsMap V = List (String × V)

module _ {ℓ} {V : Type ℓ} where
  unfoldable pub get : JsMap V → String → Option V
  get [] k = none
  get ((j, v) ∷ m) k = if j =ₛ k then some v else get m k

  unfoldable pub set : JsMap V → String → V → JsMap V
  set [] k v = (k, v) ∷ []
  set ((j, w) ∷ m) k v = let rest = set m k v in if j =ₛ k then (j, v) ∷ m else (j, w) ∷ rest

  unfoldable pub delete : JsMap V → String → JsMap V
  delete [] k = []
  delete ((j, w) ∷ m) k = let rest = delete m k in if j =ₛ k then rest else (j, w) ∷ rest

  unfoldable pub has : JsMap V → String → Bool
  has [] k = false
  has ((j, v) ∷ m) k = if j =ₛ k then true else has m k

  unfoldable pub values : JsMap V → List V
  values [] = []
  values ((j, v) ∷ m) = v ∷ values m

  pub get-set :
      (m : JsMap V) (k j : String) (v : V)
      → get (set m k v) j ≡ (if k =ₛ j then some v else get m j)
  unfolding get set
  get-set [] k j v = refl
  get-set ((i, w) ∷ m) k j v = ground (arith, eq_iff k j, eq_iff i k, eq_iff i j, get-set m k j v)

  pub get-delete :
      (m : JsMap V) (k j : String) → get (delete m k) j ≡ (if k =ₛ j then none else get m j)
  unfolding get delete
  get-delete [] k j = ground arith
  get-delete ((i, w) ∷ m) k j = ground (arith, eq_iff k j, eq_iff i k, eq_iff i j, get-delete m k j)

  pub values-set_new :
      (m : JsMap V) (k : String) (v : V) → get m k ≡ none → values (set m k v) ≡ values m ++ v ∷ []
  unfolding get set values
  values-set_new [] k v h = refl
  values-set_new ((j, w) ∷ m) k v h = ground (arith, values-set_new m k v)

  pub delete-noop : (m : JsMap V) (k : String) → get m k ≡ none → delete m k ≡ m
  unfolding get delete
  delete-noop [] k h = refl
  delete-noop ((j, w) ∷ m) k h = ground (arith, delete-noop m k)

  pub has_iff : (m : JsMap V) (k : String) → (has m k ≡ false) ↔ (get m k ≡ none)
  unfolding get has
  has_iff [] k = (λ _. refl, λ _. refl)
  has_iff ((j, w) ∷ m) k = (ground (arith, has_iff m k), ground (arith, has_iff m k))

  -- A property of all the values survives a write of a value that has it.
  pub All-values-set {κ} :
      (P : V → Type κ) (m : JsMap V) (k : String) (v : V)
      → All P (values m)
      → P v
      → All P (values (set m k v))
  unfolding set values
  All-values-set P [] k v h p = (p, tt)
  All-values-set P ((j, w) ∷ m) k v h p = elim (Bool-cases (j =ₛ k)) [
    | inl e ↦ rw e (p, h.1)
    | inr e ↦ rw e (h.0, All-values-set P m k v h.1 p)
  ]

  pub All-values-delete {κ} :
      (P : V → Type κ) (m : JsMap V) (k : String) → All P (values m) → All P (values (delete m k))
  unfolding delete values
  All-values-delete P [] k h = tt
  All-values-delete P ((j, w) ∷ m) k h = elim (Bool-cases (j =ₛ k)) [
    | inl e ↦ rw e (All-values-delete P m k h.1)
    | inr e ↦ rw e (h.0, All-values-delete P m k h.1)
  ]

  pub All-values-get {κ} :
      (P : V → Type κ) (m : JsMap V) (k : String) (v : V)
      → All P (values m)
      → get m k ≡ some v
      → P v
  unfolding get values
  All-values-get P [] k v h e = cc
  All-values-get P ((j, w) ∷ m) k v h e = elim (Bool-cases (j =ₛ k)) [
    | inl t ↦ subst P (ground arith) h.0
    | inr t ↦ All-values-get P m k v h.1 (ground arith)
  ]

  -- A write that keeps `f` of a value keeps `f` of all the values.
  pub map-values-set {κ} :
      {B : Type κ} (f : V → B) (m : JsMap V) (k : String) (v : V) {old : V}
      → get m k ≡ some old
      → f v ≡ f old
      → map f (values (set m k v)) ≡ map f (values m)
  unfolding get set values
  map-values-set f [] k v e h = cc
  map-values-set f ((j, w) ∷ m) k v {old = old} e h = elim (Bool-cases (j =ₛ k)) [
    | inl t ↦ rw t (ap (λ b. b ∷ map f (values m)) (h ∙ ap f (ground arith)))
    | inr t ↦ rw t (ap (λ bs. f w ∷ bs) (map-values-set f m k v {old = old} (ground arith) h))
  ]

  -- A test that fails on all the values fails on each.
  pub any-values-get :
      (p : V → Bool) (m : JsMap V) (k : String) (v : V)
      → any p (values m) ≡ false
      → get m k ≡ some v
      → p v ≡ false
  unfolding get values
  any-values-get p [] k v h e = cc
  any-values-get p ((j, w) ∷ m) k v h e = elim (Bool-cases (j =ₛ k)) [
    | inl t ↦ subst (λ x. p x ≡ false) (ground arith) (any-head p w (values m) h)
    | inr t ↦ any-values-get p m k v (any-tail p w (values m) h) (ground arith)
  ]

  -- What is found after a write is what was written, or was there before.
  pub get-set_cases :
      (m : JsMap V) (k j : String) (v : V) {w : V}
      → get (set m k v) j ≡ some w
      → ((k ≡ j) × (w ≡ v)) ⊎ (((k =ₛ j) ≡ false) × (get m j ≡ some w))
  get-set_cases m k j v e = elim (Bool-cases (k =ₛ j)) [
    | inl t ↦ inl ((eq_iff k j).0 t, ground (arith, get-set m k j v))
    | inr t ↦ inr (t, ground (arith, get-set m k j v))
  ]
