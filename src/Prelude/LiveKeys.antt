-- ===== src/Prelude/LiveKeys.antt =====
-- A map where no two live values have the same key: the partial unique index of a table.
use Prim.Native.String.{String}
use mathlib.Core.Path.{◌≡◌, sym, ap, ◌∙◌}
use mathlib.Core.Logic.{◌≢◌, inl, inr}
use mathlib.Core.Bool.{Bool, true}
use mathlib.Core.Option.{some}
use native.Mathlib.Omega.{arith}
use text.Mathlib.TextEquality.{eq_iff}
use text.Mathlib.TextPositions.{eq_refl}
use aggregator_dpg.Prelude.JsMap
use aggregator_dpg.Prelude.JsMap.{JsMap}

module _ {ℓ κ} {V : Type ℓ} {K : Type κ} (live : V → Bool) (key : V → K) where
  pub record HasLiveKeys (m : JsMap V) : Type (ℓ ⊔ κ) where
    pub at :
        (j k : String) (a b : V)
        → JsMap.get m j ≡ some a
        → JsMap.get m k ≡ some b
        → key a ≡ key b
        → live a ≡ true
        → live b ≡ true
        → j ≡ k

  -- A new value goes in where no live value has its key.
  pub HasLiveKeys-insert :
      (m : JsMap V) (id : String) (v : V)
      → ((k : String) (b : V) → JsMap.get m k ≡ some b → live b ≡ true → key b ≡ key v → ⊥)
      → HasLiveKeys m
      → HasLiveKeys (JsMap.set m id v)
  HasLiveKeys-insert m id v free u = record {
    at = λ j k a b ea eb same la lb. elim (JsMap.get-set_cases m id j v ea) [
      | inl (at_j, new_a) ↦ elim (JsMap.get-set_cases m id k v eb) [
        | inl (at_k, new_b) ↦ sym at_j ∙ at_k
        | inr (other, old) ↦ absurd (free k b old lb (sym same ∙ ap key new_a))
      ]
      | inr (other, old) ↦ elim (JsMap.get-set_cases m id k v eb) [
        | inl (at_k, new_b) ↦ absurd (free j a old la (same ∙ ap key new_b))
        | inr (other_k, old_b) ↦ u.at j k a b old old_b same la lb
      ]
    ];
  }

  -- A value is rewritten with its key kept, and live only if it was.
  pub HasLiveKeys-rewrite :
      (m : JsMap V) (id : String) (v : V) {old : V}
      → JsMap.get m id ≡ some old
      → key v ≡ key old
      → (live v ≡ true → live old ≡ true)
      → HasLiveKeys m
      → HasLiveKeys (JsMap.set m id v)
  HasLiveKeys-rewrite m id v {old = old} found same_key stays u = record {
    at = λ j k a b ea eb same la lb. elim (JsMap.get-set_cases m id j v ea) [
      | inl (at_j, new_a) ↦ elim (JsMap.get-set_cases m id k v eb) [
        | inl (at_k, new_b) ↦ sym at_j ∙ at_k
        | inr (other, old_b) ↦
            sym at_j
            ∙ u.at id k old b found old_b (sym same_key ∙ sym (ap key new_a) ∙ same)
                (stays (ap live (sym new_a) ∙ la)) lb
      ]
      | inr (other, old_a) ↦ elim (JsMap.get-set_cases m id k v eb) [
        | inl (at_k, new_b) ↦
            u.at j id a old old_a found (same ∙ ap key new_b ∙ same_key) la
              (stays (ap live (sym new_b) ∙ lb))
            ∙ at_k
        | inr (other_k, old_b) ↦ u.at j k a b old_a old_b same la lb
      ]
    ];
  }

  pub HasLiveKeys-delete :
      (m : JsMap V) (id : String) → HasLiveKeys m → HasLiveKeys (JsMap.delete m id)
  HasLiveKeys-delete m id u = record {
    at = λ j k a b ea eb. u.at j k a b (kept j a ea) (kept k b eb);
  }
    where
      kept :
          (j : String) (a : V) → JsMap.get (JsMap.delete m id) j ≡ some a → JsMap.get m j ≡ some a
      kept j a e = ground (arith, JsMap.get-delete m id j)

  -- A value made live under the key of another live one breaks the index.
  pub not-HasLiveKeys-set :
      (m : JsMap V) (id k : String) (v b : V)
      → id ≢ k
      → JsMap.get m k ≡ some b
      → key v ≡ key b
      → live v ≡ true
      → live b ≡ true
      → ¬ HasLiveKeys (JsMap.set m id v)
  not-HasLiveKeys-set m id k v b ne eb same lv lb u = ne (u.at id k v b (here) (there) same lv lb)
    where
      here : JsMap.get (JsMap.set m id v) id ≡ some v
      here = ground (arith, JsMap.get-set m id id v, eq_refl id)

      there : JsMap.get (JsMap.set m id v) k ≡ some b
      there = ground (arith, JsMap.get-set m id k v, eq_iff id k)
