-- ===== src/ShowIf/Tests.antt =====
-- The theorems on conditional visibility at a chain of two fields.
use aggregator_dpg.Prelude.{String, ◌≡◌, refl, true, none, some, List, [], ◌∷◌}
use aggregator_dpg.Prelude.Json.{Json, null, str, bool, obj, field, end}
use aggregator_dpg.ShowIf.{
  FormData, values_of, FieldSchema, RjsfSchema, hidden_names, without, pruned,
  resolve_visible_schema, strip_show_if,
}
use aggregator_dpg.ShowIf.Fixpoint.{IsClosed, Within, resolve-fixpoint}
use aggregator_dpg.ShowIf.Strip.{HasNoRule, strip_show_if_lem}

abbrev open_field : FieldSchema
open_field = record { show_if = none; rest = null }

abbrev shown_for : String → String → FieldSchema
shown_for control value = record {
  show_if = some ((control, values_of (str value ∷ [])) ∷ []);
  rest = null;
}

-- `trade` is shown for one answer of `works`, and `tools` for one answer of `trade`.
abbrev chain : RjsfSchema
chain = record {
  properties =
      ("works", open_field)
      ∷ ("trade", shown_for "works" "yes")
      ∷ ("tools", shown_for "trade" "smith")
      ∷ [];
  required = some ("trade" ∷ "works" ∷ []);
  rest = null;
}

abbrev answers : FormData
answers = ("works", str "no") ∷ ("trade", str "smith") ∷ ("tools", str "hammer") ∷ []

abbrev as_is : List String → List String
as_is names = names

resolve-fixpoint_example :
    (hidden : List String) × (resolve_visible_schema as_is chain answers
      ≡ some (record {
        schema = pruned hidden chain;
        form_data = without hidden answers;
        hidden = hidden;
      }))
    × (hidden ≡ hidden_names chain.properties (without hidden answers))
    × ((names : List String) → IsClosed chain.properties answers names → Within hidden names)
resolve-fixpoint_example = resolve-fixpoint as_is chain answers

abbrev with_rule : Json
with_rule = obj (field "x-show-if" (bool true) (field "type" (str "string") end))

strip_show_if_lem_example :
    HasNoRule (strip_show_if with_rule)
    × (HasNoRule with_rule → strip_show_if with_rule ≡ with_rule)
    × (strip_show_if (strip_show_if with_rule) ≡ strip_show_if with_rule)
strip_show_if_lem_example = strip_show_if_lem with_rule

-- The chain hides both fields that hang on `works`.
chain_hidden :
    hidden_names chain.properties (without ("trade" ∷ "tools" ∷ []) answers)
    ≡ "trade" ∷ "tools" ∷ []
unfolding hidden_names without
chain_hidden = refl
