-- ===== src/ProfileCsv.antt =====
-- The contact export of packages/profile-csv/src/index.ts: the CSV fields and the lines made of
-- them.
pub mod Reader
pub mod Lines
pub mod Profiles
mod Tests
use Prim.Native.Char.{Char, code}
use Prim.Native.String.{◌++◌ as ◌+ₛ◌}
use aggregator_dpg.Prelude.{
  ℕ, zero, suc, ◌+◌, ◌-◌, ◌*◌, ◌/◌, ◌%◌, ◌≤◌, ◌<◌, String, ◌≡◌, refl, sym, ap, ◌∙◌, ◌≢◌, ◌↔◌, ◌⊎◌,
  inl, inr, Bool, true, false, not, ◌&&◌, ◌||◌, Option, none, some, List, [], ◌∷◌, ◌++◌, map, arith,
  eq_iff, eq_refl, ltb, leb, ◌==◌, ◌=ₛ◌, if◌then◌else◌, Bool-cases, Option-cases, option_eq,
  option_eq→eq, &&→left, &&→right, length, take, take_all, drop, keep, any, find, last?, All,
  All-append, has_text, text_ne, Ascending,
}

-- The class `[=+\-@\t\r]`.
abbrev pub is_trigger : Char → Bool
is_trigger c =
    code c == 61 || code c == 43 || code c == 45 || code c == 64 || code c == 9 || code c == 13

unfoldable pub neutralize_formula : String → String
neutralize_formula String.[] = String.[]
neutralize_formula (String.◌∷◌ c s) =
    if is_trigger c then String.◌∷◌ "'" (String.◌∷◌ c s) else String.◌∷◌ c s

abbrev pub is_quote : Char → Bool
is_quote c = code c == 34

-- The class `[",\r\n]`.
abbrev pub is_special : Char → Bool
is_special c = is_quote c || code c == 44 || code c == 13 || code c == 10

unfoldable pub has_special : String → Bool
has_special String.[] = false
has_special (String.◌∷◌ c s) = let rest = has_special s in if is_special c then true else rest

-- `safe.replaceAll('"', '""')`
unfoldable pub doubled : String → String
doubled String.[] = String.[]
doubled (String.◌∷◌ c s) =
    let rest = doubled s in
    if is_quote c then String.◌∷◌ "\"" (String.◌∷◌ "\"" rest) else String.◌∷◌ c rest

unfoldable pub csv_field : String → String
unfolding neutralize_formula has_special doubled
csv_field value =
    let safe = neutralize_formula value in
    if has_special safe then String.◌∷◌ "\"" (doubled safe +ₛ "\"") else safe

-- `source` of a contact field: null and absent are `none`.
pub data ContactSource : Type 0 where
  item user : ContactSource

unfoldable pub contact_source_label : Option ContactSource → String
contact_source_label none = "none"
contact_source_label (some item) = "profile"
contact_source_label (some user) = "user"

-- A contact field: `none` for a value that is no text.
pub record ContactValue : Type 0 where
  pub value : Option String
  pub source : Option ContactSource

-- What the contact export reads of `SignalStackDecryptedProfileRow`; a row without a contact block
-- has none of the fields.
pub record ProfileRow : Type 0 where
  pub item_id : String
  pub name : Option ContactValue
  pub email : Option ContactValue
  pub phone : Option ContactValue

abbrev pub text_of : Option ContactValue → String
text_of none = ""
text_of (some c) = elim c.value [ none ↦ "" | some v ↦ v ]

abbrev pub label_of : Option ContactValue → String
label_of none = contact_source_label none
label_of (some c) = contact_source_label c.source

-- `cells.join(separator)`
unfoldable pub join : String → List String → String
join sep [] = ""
join sep (x ∷ []) = x
join sep (x ∷ y ∷ ys) = x +ₛ (sep +ₛ join sep (y ∷ ys))

abbrev pub header : List String
header =
    "item_id" ∷ "name" ∷ "name_source" ∷ "email" ∷ "email_source" ∷ "phone" ∷ "phone_source" ∷ []

-- The values of a row before they are made fields.
abbrev pub values_of : ProfileRow → List String
values_of r =
    r.item_id
    ∷ text_of r.name
    ∷ label_of r.name
    ∷ text_of r.email
    ∷ label_of r.email
    ∷ text_of r.phone
    ∷ label_of r.phone
    ∷ []

unfoldable pub line_of : List String → String
unfolding csv_field join
line_of cells = join "," (map csv_field cells)

unfoldable pub build_contact_export_csv : List ProfileRow → String
unfolding line_of join
build_contact_export_csv rows = join "\r\n" (line_of header ∷ map (λ r. line_of (values_of r)) rows)
