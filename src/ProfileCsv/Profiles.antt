-- ===== src/ProfileCsv/Profiles.antt =====
-- `buildDecryptedProfilesCsv` of packages/profile-csv/src/index.ts. `JSON.stringify` and
-- `localeCompare` are of the runtime, and are arguments.
use aggregator_dpg.Prelude.{
  ℕ, ◌+◌, String, Bool, true, false, ◌&&◌, ◌||◌, Option, none, some, List, [], ◌∷◌, ◌++◌, map, ltb,
  leb, ◌==◌, ◌=ₛ◌, if◌then◌else◌, has_text,
}
use Prim.Native.Char.{Char, code}
use aggregator_dpg.Prelude.Json.{Json, Fields}
use aggregator_dpg.ProfileCsv.{line_of, join}

-- An ASCII letter by its lower case, as the flag `i` of a pattern reads it.
fold_case : Char → ℕ
fold_case c = if leb 65 (code c) && leb (code c) 90 then code c + 32 else code c

starts_with : String → String → Bool
unfolding fold_case
starts_with String.[] s = true
starts_with (String.◌∷◌ p ps) String.[] = false
starts_with (String.◌∷◌ p ps) (String.◌∷◌ c s) = code p == fold_case c && starts_with ps s

-- `pattern.test(s)` for a word in lower case and the flag `i`.
matches_word : String → String → Bool
unfolding starts_with
matches_word word String.[] = starts_with word String.[]
matches_word word (String.◌∷◌ c s) =
    let rest = matches_word word s in if starts_with word (String.◌∷◌ c s) then true else rest

unfoldable pub priority_rank : String → ℕ
unfolding matches_word
priority_rank key =
    if matches_word "name" key
    then 0
    else if matches_word "phone" key || matches_word "mobile" key || matches_word "contact" key
    then 1
    else 2

-- A key is added to the set unless it is there.
abbrev add_key : String → List String → List String
add_key k keys = if has_text k keys then keys else keys ++ k ∷ []

unfoldable pub add_keys : Fields → List String → List String
add_keys Fields.end keys = keys
add_keys (Fields.field k v fs) keys = add_keys fs (add_key k keys)

abbrev pub StateRow : Type 0
StateRow = String × Fields

unfoldable pub all_keys : List StateRow → List String → List String
unfolding add_keys
all_keys [] keys = keys
all_keys (r ∷ rows) keys = all_keys rows (add_keys r.1 keys)

unfoldable pub lookup_field : String → Fields → Option Json
lookup_field k Fields.end = none
lookup_field k (Fields.field j v fs) =
    let rest = lookup_field k fs in if j =ₛ k then some v else rest

module _ (stringify : Json → String) (locale_le : String → String → Bool) where
  unfoldable pub render_cell : Option Json → String
  render_cell none = ""
  render_cell (some Json.null) = ""
  render_cell (some (Json.bool b)) = if b then "true" else "false"
  render_cell (some (Json.num n)) = n
  render_cell (some (Json.str s)) = s
  render_cell (some j) = stringify j

  -- The comparison of the sort gives zero or less.
  unfoldable pub comes_before : String → String → Bool
  unfolding priority_rank
  comes_before a b =
      if priority_rank a == priority_rank b
      then locale_le a b
      else ltb (priority_rank a) (priority_rank b)

  unfoldable pub insert_column : String → List String → List String
  unfolding comes_before
  insert_column k [] = k ∷ []
  insert_column k (c ∷ cs) =
      let rest = insert_column k cs in if comes_before k c then k ∷ c ∷ cs else c ∷ rest

  unfoldable pub sort_columns : List String → List String
  unfolding insert_column
  sort_columns [] = []
  sort_columns (k ∷ ks) = insert_column k (sort_columns ks)

  unfoldable pub state_columns : List StateRow → List String
  unfolding sort_columns all_keys
  state_columns rows = sort_columns (all_keys rows [])

  unfoldable pub state_cells : List String → StateRow → List String
  unfolding render_cell lookup_field
  state_cells columns r = r.0 ∷ map (λ c. render_cell (lookup_field c r.1)) columns

  unfoldable pub build_decrypted_profiles_csv : List StateRow → String
  unfolding line_of join state_cells state_columns
  build_decrypted_profiles_csv rows =
      let columns = state_columns rows in
      join "\r\n" (line_of ("item_id" ∷ columns) ∷ map (λ r. line_of (state_cells columns r)) rows)
