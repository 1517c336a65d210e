-- ===== src/CampaignWorker/VoiceContent.antt =====
-- What voice.ts of apps/worker/src/services/campaign-process reads of a job's content and of a
-- provider's error. The content is the JSON that the API validated when the job was made.
use aggregator_dpg.Prelude.{String, Option, none, some, List, [], ◌∷◌, if◌then◌else◌}
use Prim.Native.String.{◌++◌ as ◌+ₛ◌}
use aggregator_dpg.Prelude.Json.{Json, Fields, Items}
use aggregator_dpg.ProfileCsv.Profiles.{lookup_field}
use aggregator_dpg.CampaignWorker.Types.{BaseError}
use aggregator_dpg.CampaignWorker.Messages.{truncate_reason}
use aggregator_dpg.CampaignWorker.Export.{Runtime, given}

abbrev pub start_option_keys : List String
start_option_keys =
    "schedule" ∷ "max_retries" ∷ "retry_after_hrs" ∷ "max_concurrent_calls" ∷ "selected_statuses"
    ∷ []

-- The fields of an object; other values have none.
abbrev pub fields_of : Json → Fields
fields_of (Json.obj fs) = fs
fields_of j = Fields.end

-- The keys of `START_OPTION_KEYS` that are there, with their values.
unfoldable pub start_options_from : Fields → List String → List (String × Json)
unfolding lookup_field
start_options_from content [] = []
start_options_from content (k ∷ ks) =
    let rest = start_options_from content ks in
    elim (lookup_field k content) [ none ↦ rest | some v ↦ (k, v) ∷ rest ]

unfoldable pub voice_start_options : Fields → List (String × Json)
unfolding start_options_from
voice_start_options content = start_options_from content start_option_keys

abbrev pub text_value : Option Json → Option String
text_value (some (Json.str s)) = some s
text_value v = none

-- The texts of an array.
abbrev pub texts_of : Items → List String
texts_of Items.nil = []
texts_of (Items.cons (Json.str s) vs) = s ∷ texts_of vs
texts_of (Items.cons v vs) = texts_of vs

-- `content.variables`, which the API validated as an array of texts.
abbrev pub variables_of : Option Json → Option (List String)
variables_of (some (Json.arr vs)) = some (texts_of vs)
variables_of v = none

module _ (runtime : Runtime) where
  -- The variable of one entry; null is dropped.
  unfoldable pub variable_text : Json → Option String
  variable_text Json.null = none
  variable_text (Json.str s) = some s
  variable_text (Json.num n) = some n
  variable_text (Json.bool b) = some (if b then "true" else "false")
  variable_text j = some (runtime.stringify j)

  unfoldable pub flatten_variables : Fields → List (String × String)
  unfolding variable_text
  flatten_variables Fields.end = []
  flatten_variables (Fields.field k v fs) =
      let rest = flatten_variables fs in
      elim (variable_text v) [ none ↦ rest | some t ↦ (k, t) ∷ rest ]

  -- The top-level `message` of a body that is JSON.
  unfoldable pub body_message : String → Option String
  unfolding lookup_field
  body_message body = elim (runtime.parse_json body) [
    | none ↦ none
    | some j ↦ given (text_value (lookup_field "message" (fields_of j)))
  ]

  unfoldable pub describe_dispatch_failure : BaseError → String
  unfolding body_message truncate_reason
  describe_dispatch_failure e = elim (given e.body) [
    | none ↦ truncate_reason e.message
    | some body ↦ elim (body_message body) [
      | none ↦ truncate_reason e.message
      | some m ↦ truncate_reason (e.message +ₛ (": " +ₛ m))
    ]
  ]
