-- ===== src/ConfigLoader/Missing.antt =====
-- The variables that a configuration tree needs and the environment does not have.
use Prim.Native.String.{◌++◌ as ◌+ₛ◌}
use aggregator_dpg.Prelude.{
  ℕ, zero, suc, String, ◌≡◌, refl, ap, Option, none, some, List, [], ◌∷◌, ◌++◌, inl, inr,
  Option-cases,
}
use aggregator_dpg.Prelude.Texts.{text_length}
use aggregator_dpg.Prelude.Json.{Json, Items, Fields}
use aggregator_dpg.Prelude.Result.{Result, ok, err}
use aggregator_dpg.ConfigLoader.{
  ConfigError, env_var_missing, map_ok, match_placeholder, split_default, resolve_placeholder,
  interpolate_from, interpolate_string, interpolate_value, interpolate_items, interpolate_fields,
  interpolate_config,
}

-- The list is empty and the result is a value, or the result is the error that names its head.
abbrev pub Reports : {A : Type 0} → Result ConfigError A → List String → Type 0
Reports {A} r [] = (a : A) × (r ≡ ok a)
Reports r (v ∷ vs) = r ≡ err (env_var_missing v)

Reports-map :
    {A B : Type 0} (f : A → B) (r : Result ConfigError A) (vs : List String)
    → Reports r vs
    → Reports (map_ok f r) vs
Reports-map f r [] (a, e) = (f a, ap (map_ok f) e)
Reports-map f r (v ∷ vs) e = ap (map_ok f) e

abbrev and_then :
    {A B : Type 0} → Result ConfigError A → (A → Result ConfigError B) → Result ConfigError B
and_then r next = elim r [ err e ↦ err e | ok a ↦ next a ]

Reports-and_then :
    {A B : Type 0} (r : Result ConfigError A) (next : A → Result ConfigError B)
    (vs ws : List String)
    → Reports r vs
    → ((a : A) → Reports (next a) ws)
    → Reports (and_then r next) (vs ++ ws)
Reports-and_then r next [] ws (a, e) h = rw e (h a)
Reports-and_then r next (v ∷ vs) ws e h = rw e refl

module _ (env : String → Option String) where
  -- An expression without a default whose variable is not set.
  unfoldable pub unset_in : String → List String
  unfolding split_default
  unset_in expr = elim (split_default expr) [
    | some p ↦ []
    | none ↦ elim (env expr) [ none ↦ expr ∷ [] | some v ↦ [] ]
  ]

  unfoldable pub unset_from : ℕ → String → List String
  unfolding unset_in match_placeholder
  unset_from zero s = []
  unset_from (suc fuel) String.[] = []
  unset_from (suc fuel) (String.◌∷◌ c s) = elim (match_placeholder (String.◌∷◌ c s)) [
    | none ↦ unset_from fuel s
    | some m ↦ unset_in m.0 ++ unset_from fuel m.1
  ]

  -- The unset variables of a tree, in the order of its texts.
  unfoldable mutual
    unfolding unset_from

    pub unset_of : Json → List String
    unset_of (Json.str s) = unset_from (text_length s) s
    unset_of (Json.arr items) = unset_of_items items
    unset_of (Json.obj fields) = unset_of_fields fields
    unset_of j = []

    pub unset_of_items : Items → List String
    unset_of_items Items.nil = []
    unset_of_items (Items.cons j items) = unset_of j ++ unset_of_items items

    pub unset_of_fields : Fields → List String
    unset_of_fields Fields.end = []
    unset_of_fields (Fields.field k j fields) = unset_of j ++ unset_of_fields fields

  resolve_placeholder-Reports :
      (expr : String) → Reports (resolve_placeholder env expr) (unset_in expr)
  unfolding resolve_placeholder unset_in
  resolve_placeholder-Reports expr = elim (Option-cases (split_default expr)) [
    | inr (p, e) ↦
        rw (e, resolve_placeholder, unset_in) (elim (env p.0) [ none ↦ p.1 | some v ↦ v ], refl)
    | inl e ↦ elim (Option-cases (env expr)) [
      | inl unset ↦ rw (e, unset, resolve_placeholder, unset_in)
      | inr (v, set) ↦ rw (e, set, resolve_placeholder, unset_in) (v, refl)
    ]
  ]

  interpolate_from-Reports :
      (fuel : ℕ) (s : String) → Reports (interpolate_from env fuel s) (unset_from fuel s)
  unfolding interpolate_from unset_from
  interpolate_from-Reports zero s = (s, refl)
  interpolate_from-Reports (suc fuel) String.[] = (String.[], refl)
  interpolate_from-Reports (suc fuel) (String.◌∷◌ c s) =
      elim (Option-cases (match_placeholder (String.◌∷◌ c s))) [
        | inl gone ↦
            rw (gone, interpolate_from, unset_from)
              (Reports-map (λ rest. String.◌∷◌ c rest) (interpolate_from env fuel s)
                (unset_from fuel s) (interpolate_from-Reports fuel s))
        | inr (m, found) ↦
            rw (found, interpolate_from, unset_from)
              (Reports-and_then (resolve_placeholder env m.0)
                (λ v. map_ok (λ rest. v +ₛ rest) (interpolate_from env fuel m.1)) (unset_in m.0)
                (unset_from fuel m.1) (resolve_placeholder-Reports m.0)
                (λ v.
                  Reports-map (λ rest. v +ₛ rest) (interpolate_from env fuel m.1)
                    (unset_from fuel m.1) (interpolate_from-Reports fuel m.1)))
      ]

  mutual
    unfolding interpolate_value unset_of

    interpolate_value-Reports : (j : Json) → Reports (interpolate_value env j) (unset_of j)
    interpolate_value-Reports Json.null = (Json.null, refl)
    interpolate_value-Reports (Json.bool b) = (Json.bool b, refl)
    interpolate_value-Reports (Json.num n) = (Json.num n, refl)
    interpolate_value-Reports (Json.str s) =
        Reports-map Json.str (interpolate_string env s) (unset_from (text_length s) s)
          (interpolate_from-Reports (text_length s) s)
    interpolate_value-Reports (Json.arr items) =
        Reports-map Json.arr (interpolate_items env items) (unset_of_items items)
          (interpolate_items-Reports items)
    interpolate_value-Reports (Json.obj fields) =
        Reports-map Json.obj (interpolate_fields env fields) (unset_of_fields fields)
          (interpolate_fields-Reports fields)

    interpolate_items-Reports :
        (items : Items) → Reports (interpolate_items env items) (unset_of_items items)
    interpolate_items-Reports Items.nil = (Items.nil, refl)
    interpolate_items-Reports (Items.cons j items) =
        Reports-and_then (interpolate_value env j)
          (λ v. map_ok (Items.cons v) (interpolate_items env items)) (unset_of j)
          (unset_of_items items) (interpolate_value-Reports j)
          (λ v.
            Reports-map (Items.cons v) (interpolate_items env items) (unset_of_items items)
              (interpolate_items-Reports items))

    interpolate_fields-Reports :
        (fields : Fields) → Reports (interpolate_fields env fields) (unset_of_fields fields)
    interpolate_fields-Reports Fields.end = (Fields.end, refl)
    interpolate_fields-Reports (Fields.field k j fields) =
        Reports-and_then (interpolate_value env j)
          (λ v. map_ok (Fields.field k v) (interpolate_fields env fields)) (unset_of j)
          (unset_of_fields fields) (interpolate_value-Reports j)
          (λ v.
            Reports-map (Fields.field k v) (interpolate_fields env fields) (unset_of_fields fields)
              (interpolate_fields-Reports fields))

  -- A configuration is interpolated when no variable without a default is unset in any of its
  -- texts, and otherwise the error names the first such variable, in the order of the tree.
  pub interpolate_config-Reports :
      (config : Fields) → Reports (interpolate_config env config) (unset_of_fields config)
  unfolding interpolate_config
  interpolate_config-Reports config = interpolate_fields-Reports config
