-- ===== src/Primitives/Outcome.antt =====
-- packages/shared-primitives/src/result/index.ts: the `Result` type and its combinators.
use aggregator_dpg.Prelude.{◌≡◌, refl}
use aggregator_dpg.Prelude.Result.{Result, ok, err}

module _ {ℓ} {T E U : Type ℓ} where
  -- `match` of the source.
  pub fold : Result E T → (T → U) → (E → U) → U
  fold (ok value) on_ok on_err = on_ok value
  fold (err error) on_ok on_err = on_err error

  pub map_ok : Result E T → (T → U) → Result E U
  map_ok (ok value) f = ok (f value)
  map_ok (err error) f = err error

  pub flat_map : Result E T → (T → Result E U) → Result E U
  flat_map (ok value) f = f value
  flat_map (err error) f = err error

  pub map_err : Result E T → (E → U) → Result U T
  map_err (ok value) f = ok value
  map_err (err error) f = err (f error)

module _ {ℓ} {T E : Type ℓ} where
  pub get_or_else : Result E T → T → T
  get_or_else (ok value) fallback = value
  get_or_else (err error) fallback = fallback

-- Chaining is associative, `ok` is neutral on both sides, `map` is the chain that ends in `ok`, and
-- a handler on the outcome of a chain is a handler on its first step: the combinators together
-- propagate the first error.
module _ {ℓ} {T E U V : Type ℓ} where
  pub record ChainLaws (r : Result E T) (f : T → Result E U) (g : U → Result E V) : Type ℓ where
    pub assoc : flat_map (flat_map r f) g ≡ flat_map r (λ x. flat_map (f x) g)
    pub right_unit : flat_map r ok ≡ r
    pub as_map : (h : T → U) → map_ok r h ≡ flat_map r (λ x. ok (h x))
    pub fold_chain :
        (on_ok : U → V) (on_err : E → V)
        → fold (flat_map r f) on_ok on_err ≡ fold r (λ x. fold (f x) on_ok on_err) on_err

  pub flat_map_laws : (r : Result E T) (f : T → Result E U) (g : U → Result E V) → ChainLaws r f g
  unfolding flat_map map_ok fold
  flat_map_laws (ok value) f g = record {
    assoc = refl;
    right_unit = refl;
    as_map = λ h. refl;
    fold_chain = λ a b. refl;
  }
  flat_map_laws (err error) f g = record {
    assoc = refl;
    right_unit = refl;
    as_map = λ h. refl;
    fold_chain = λ a b. refl;
  }
