-- ===== src/ConfigLoader.antt =====
-- packages/config-loader/src/interpolate.ts: the references to environment variables in a
-- configuration tree. The environment is a function; an error is the variable it names.
pub mod Missing
mod Tests
use Prim.Native.Char.{Char, code}
use Prim.Native.String.{◌++◌ as ◌+ₛ◌}
use aggregator_dpg.Prelude.{
  ℕ, zero, suc, String, true, false, ◌&&◌, Option, none, some, ◌==◌, ◌=ₛ◌, if◌then◌else◌,
}
use aggregator_dpg.Prelude.Texts.{text_length}
use aggregator_dpg.Prelude.Json.{Json, Items, Fields}
use aggregator_dpg.Prelude.Result.{Result, ok, err}

-- The text behind two characters with the numbers `m` and `n` at the front.
unfoldable pub after_two : ℕ → ℕ → String → Option String
after_two m n (String.◌∷◌ c (String.◌∷◌ d s)) = if code c == m && code d == n then some s else none
after_two m n s = none

-- The text before the first `}`, and the one behind it.
unfoldable pub until_brace : String → Option (String × String)
until_brace String.[] = none
until_brace (String.◌∷◌ c s) =
    let later = until_brace s in
    if code c == 125
    then some ("", s)
    else elim later [ none ↦ none | some p ↦ some (String.◌∷◌ c p.0, p.1) ]

abbrev pub non_empty : Option (String × String) → Option (String × String)
non_empty none = none
non_empty (some p) = if p.0 =ₛ "" then none else some p

-- A match of `PLACEHOLDER_RE` at the front: the inner expression, and the text behind the match.
unfoldable pub match_placeholder : String → Option (String × String)
unfolding after_two until_brace
match_placeholder s = elim (after_two 36 123 s) [
  | none ↦ none
  | some inner ↦ non_empty (until_brace inner)
]

-- The parts of an expression around its first `:-`.
unfoldable pub split_default : String → Option (String × String)
unfolding after_two
split_default String.[] = none
split_default (String.◌∷◌ c s) = elim (after_two 58 45 (String.◌∷◌ c s)) [
  | some default ↦ some ("", default)
  | none ↦ elim (split_default s) [ none ↦ none | some p ↦ some (String.◌∷◌ c p.0, p.1) ]
]

-- `CONFIG_ENV_VAR_MISSING` with the variable of its details.
pub data ConfigError : Type 0 where
  env_var_missing : String → ConfigError

abbrev pub map_ok : {A B : Type 0} → (A → B) → Result ConfigError A → Result ConfigError B
map_ok f (ok a) = ok (f a)
map_ok f (err e) = err e

module _ (env : String → Option String) where
  unfoldable pub resolve_placeholder : String → Result ConfigError String
  unfolding split_default
  resolve_placeholder expr = elim (split_default expr) [
    | some p ↦ ok (elim (env p.0) [ none ↦ p.1 | some v ↦ v ])
    | none ↦ elim (env expr) [ none ↦ err (env_var_missing expr) | some v ↦ ok v ]
  ]

  -- `value.replace(PLACEHOLDER_RE, …)`. The fuel is the length of the text, of which every round
  -- takes one character or more.
  unfoldable pub interpolate_from : ℕ → String → Result ConfigError String
  unfolding match_placeholder resolve_placeholder
  interpolate_from zero s = ok s
  interpolate_from (suc fuel) String.[] = ok String.[]
  interpolate_from (suc fuel) (String.◌∷◌ c s) = elim (match_placeholder (String.◌∷◌ c s)) [
    | none ↦ map_ok (λ rest. String.◌∷◌ c rest) (interpolate_from fuel s)
    | some m ↦ elim (resolve_placeholder m.0) [
      | err e ↦ err e
      | ok v ↦ map_ok (λ rest. v +ₛ rest) (interpolate_from fuel m.1)
    ]
  ]

  unfoldable pub interpolate_string : String → Result ConfigError String
  unfolding interpolate_from
  interpolate_string value = interpolate_from (text_length value) value

  unfoldable mutual
    unfolding interpolate_string

    pub interpolate_value : Json → Result ConfigError Json
    interpolate_value (Json.str s) = map_ok Json.str (interpolate_string s)
    interpolate_value (Json.arr items) = map_ok Json.arr (interpolate_items items)
    interpolate_value (Json.obj fields) = map_ok Json.obj (interpolate_fields fields)
    interpolate_value j = ok j

    -- `value.map(…)`
    pub interpolate_items : Items → Result ConfigError Items
    interpolate_items Items.nil = ok Items.nil
    interpolate_items (Items.cons j items) = elim (interpolate_value j) [
      | err e ↦ err e
      | ok v ↦ map_ok (Items.cons v) (interpolate_items items)
    ]

    pub interpolate_fields : Fields → Result ConfigError Fields
    interpolate_fields Fields.end = ok Fields.end
    interpolate_fields (Fields.field k j fields) = elim (interpolate_value j) [
      | err e ↦ err e
      | ok v ↦ map_ok (Fields.field k v) (interpolate_fields fields)
    ]

  unfoldable pub interpolate_config : Fields → Result ConfigError Fields
  unfolding interpolate_fields
  interpolate_config config = interpolate_fields config
