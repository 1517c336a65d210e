-- ===== src/ShowIf.antt =====
-- Conditional visibility of form fields: apps/web/src/lib/show-if.ts. The development warnings of
-- `resolveVisibleSchema` have no part in its result; `localeCompare` is a parameter.
pub mod Cleared
pub mod Fixpoint
pub mod Strip
mod Tests
use aggregator_dpg.Prelude.{
  ℕ, zero, suc, String, Bool, true, false, not, ◌&&◌, Option, none, some, List, [], ◌∷◌, map, ◌==◌,
  ◌=ₛ◌, if◌then◌else◌, length, keep, any, has_text,
}
use aggregator_dpg.Prelude.Json.{
  Json, null, bool, num, str, arr, obj, Items, nil, cons, Fields, end, field,
}
use aggregator_dpg.Prelude.JsMap
use aggregator_dpg.Prelude.JsMap.{JsMap}

abbrev pub FormData : Type 0
FormData = JsMap Json

-- One entry of a rule: the list of allowed values, or something that is no list.
pub data Allowed : Type 0 where
  values_of : List Json → Allowed
  no_list : Allowed

-- `none` is a field with no rule, or with one that is not an object; `rest` is the other keywords.
pub record FieldSchema : Type 0 where
  pub show_if : Option (JsMap Allowed)
  pub rest : Json

pub record RjsfSchema : Type 0 where
  pub properties : JsMap FieldSchema
  pub required : Option (List String)
  pub rest : Json

pub record ResolveResult : Type 0 where
  pub schema : RjsfSchema
  pub form_data : FormData
  pub hidden : List String

-- The equality of `Array.includes`: two objects or arrays of a form and of a schema are never the
-- same.
abbrev pub same_value : Json → Json → Bool
same_value null null = true
same_value (bool true) (bool b) = b
same_value (bool false) (bool b) = not b
same_value (num m) (num n) = m =ₛ n
same_value (str s) (str t) = s =ₛ t
same_value _ _ = false

abbrev pub includes : List Json → Json → Bool
includes allowed v = any (λ a. same_value a v) allowed

abbrev pub some_item : (Json → Bool) → Items → Bool
some_item p nil = false
some_item p (cons v items) = let rest = some_item p items in if p v then true else rest

-- Whether the value of a control reveals the field that depends on it.
unfoldable pub reveals : Allowed → Option Json → Bool
reveals no_list value = false
reveals (values_of allowed) none = false
reveals (values_of allowed) (some null) = false
reveals (values_of allowed) (some (arr items)) = some_item (includes allowed) items
reveals (values_of allowed) (some (str s)) = if s =ₛ "" then false else includes allowed (str s)
reveals (values_of allowed) (some (bool b)) = includes allowed (bool b)
reveals (values_of allowed) (some (num n)) = includes allowed (num n)
reveals (values_of allowed) (some (obj fields)) = includes allowed (obj fields)

-- `Object.entries(rule).every(…)`
unfoldable pub every_entry : JsMap Allowed → FormData → Bool
unfolding reveals JsMap.get
every_entry [] form = true
every_entry ((control, allowed) ∷ rule) form =
    let rest = every_entry rule form in
    if reveals allowed (JsMap.get form control) then rest else false

unfoldable pub is_field_visible : FieldSchema → FormData → Bool
unfolding every_entry
is_field_visible schema form = elim schema.show_if [
  | none ↦ true
  | some rule ↦ every_entry rule form
]

unfoldable pub hides : FormData → String × FieldSchema → Bool
unfolding is_field_visible
hides form (name, schema) = not (is_field_visible schema form)

abbrev pub name_of : String × FieldSchema → String
name_of (name, schema) = name

-- The set `next` of a round, in the order of the properties.
unfoldable pub hidden_names : JsMap FieldSchema → FormData → List String
unfolding hides
hidden_names props form = map name_of (keep (hides form) props)

abbrev pub every_in : List String → List String → Bool
every_in [] hidden = true
every_in (n ∷ next) hidden =
    let rest = every_in next hidden in if has_text n hidden then rest else false

-- `next.size === hidden.size && [...next].every((n) => hidden.has(n))`
abbrev pub stable : List String → List String → Bool
stable next hidden = length next == length hidden && every_in next hidden

-- `working = { ...formData }; for (const name of hidden) delete working[name]`
unfoldable pub without : List String → FormData → FormData
unfolding JsMap.delete
without [] form = form
without (n ∷ hidden) form = without hidden (JsMap.delete form n)

-- The loop, with the fuel that the theorem in ShowIf/Fixpoint shows to be enough.
unfoldable pub settle :
    JsMap FieldSchema → FormData → ℕ → List String → FormData → Option (List String × FormData)
unfolding hidden_names without
settle props form zero hidden working = none
settle props form (suc fuel) hidden working =
    let next = hidden_names props working in
    let rest = settle props form fuel next (without next form) in
    if stable next hidden then some (hidden, working) else rest

abbrev pub required_left : List String → Option (List String) → Option (List String)
required_left hidden none = none
required_left hidden (some names) = some (keep (λ r. not (has_text r hidden)) names)

unfoldable pub pruned : List String → RjsfSchema → RjsfSchema
pruned hidden schema = record schema {
  properties = keep (λ e. not (has_text (name_of e) hidden)) schema.properties;
  required = required_left hidden schema.required;
}

module _ (locale_sort : List String → List String) where
  unfoldable pub resolve_visible_schema : RjsfSchema → FormData → Option ResolveResult
  unfolding settle pruned
  resolve_visible_schema schema form =
      elim (settle schema.properties form (suc (suc (length schema.properties))) [] form) [
        | none ↦ none
        | some (hidden, working) ↦ some (record {
          schema = pruned hidden schema;
          form_data = working;
          hidden = locale_sort hidden;
        })
      ]

unfoldable mutual
  pub strip_show_if : Json → Json
  strip_show_if null = null
  strip_show_if (bool b) = bool b
  strip_show_if (num n) = num n
  strip_show_if (str s) = str s
  strip_show_if (arr items) = arr (strip_items items)
  strip_show_if (obj fields) = obj (strip_fields fields)

  pub strip_items : Items → Items
  strip_items nil = nil
  strip_items (cons v items) = cons (strip_show_if v) (strip_items items)

  pub strip_fields : Fields → Fields
  strip_fields end = end
  strip_fields (field key v fields) =
      let rest = strip_fields fields in
      let value = strip_show_if v in if key =ₛ "x-show-if" then rest else field key value rest
