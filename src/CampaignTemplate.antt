-- ===== src/CampaignTemplate.antt =====
-- packages/campaign-template/src: the placeholders of a campaign mail (index.ts), the check of its
-- content (content.ts) and its rendering (render.ts). `marked`, `sanitize-html` and the address
-- check of zod are arguments.
pub mod Suffix
pub mod Escape
pub mod Clean
pub mod Mail
pub mod Safe
pub mod Unknown
mod Tests
use aggregator_dpg.Prelude.{
  ℕ, zero, suc, ◌+◌, ◌-◌, ◌*◌, ◌/◌, ◌%◌, ◌≤◌, ◌<◌, String, ◌≡◌, refl, sym, ap, ◌∙◌, ◌≢◌, ◌↔◌, ◌⊎◌,
  inl, inr, Bool, true, false, not, ◌&&◌, ◌||◌, Option, none, some, List, [], ◌∷◌, ◌++◌, map, arith,
  eq_iff, eq_refl, ltb, leb, ◌==◌, ◌=ₛ◌, if◌then◌else◌, Bool-cases, Option-cases, option_eq,
  option_eq→eq, &&→left, &&→right, length, take, take_all, drop, keep, any, find, last?, All,
  All-append, has_text, text_ne, Ascending,
}
use Prim.Native.Char.{Char, code}
use Prim.Native.String.{◌++◌ as ◌+ₛ◌}
use aggregator_dpg.Prelude.Texts.{text_length, text_take, is_space, skip_space, trim, replace_all}
use aggregator_dpg.ProfileCsv.{join}

abbrev pub supported_placeholders : List String
supported_placeholders = "name" ∷ "first_name" ∷ "last_name" ∷ "email" ∷ "phone" ∷ []

-- The class `[a-zA-Z_]`.
abbrev pub is_token_char : Char → Bool
is_token_char c =
    (leb 97 (code c) && leb (code c) 122) || (leb 65 (code c) && leb (code c) 90) || code c == 95

unfoldable pub take_word : String → String × String
take_word String.[] = ("", "")
take_word (String.◌∷◌ c s) =
    let (word, rest) = take_word s in
    if is_token_char c then (String.◌∷◌ c word, rest) else ("", String.◌∷◌ c s)

-- Two characters with the number `n` at the front.
unfoldable pub after_pair : ℕ → String → Option String
after_pair n (String.◌∷◌ c (String.◌∷◌ d s)) = if code c == n && code d == n then some s else none
after_pair n s = none

abbrev pub close_token : String × String → Option (String × String)
close_token (word, s) =
    if word =ₛ ""
    then none
    else elim (after_pair 125 (skip_space s)) [ none ↦ none | some rest ↦ some (word, rest) ]

-- A match of `TOKEN_RE` at the front: the word, and the text behind the match. No two parts of the
-- pattern begin with the same character, so there is no backtracking.
unfoldable pub match_token : String → Option (String × String)
unfolding take_word after_pair skip_space
match_token s = elim (after_pair 123 s) [
  | none ↦ none
  | some inner ↦ close_token (take_word (skip_space inner))
]

abbrev pub letters : String
letters = "abcdefghijklmnopqrstuvwxyz"

abbrev pub char_at : ℕ → String → Char → Char
char_at n String.[] other = other
char_at zero (String.◌∷◌ c s) other = c
char_at (suc n) (String.◌∷◌ c s) other = char_at n s other

-- `toLowerCase` of a word of `[a-zA-Z_]`.
unfoldable pub lower_case : String → String
lower_case String.[] = String.[]
lower_case (String.◌∷◌ c s) =
    let rest = lower_case s in
    String.◌∷◌ (if leb 65 (code c) && leb (code c) 90 then char_at (code c - 65) letters c else c)
      rest

-- `text.matchAll(TOKEN_RE)`: the words of the matches from left to right. The fuel is the length of
-- the text, of which every round takes one character or more.
unfoldable pub tokens_from : ℕ → String → List String
unfolding match_token
tokens_from zero s = []
tokens_from (suc fuel) String.[] = []
tokens_from (suc fuel) (String.◌∷◌ c s) = elim (match_token (String.◌∷◌ c s)) [
  | none ↦ tokens_from fuel s
  | some m ↦ m.0 ∷ tokens_from fuel m.1
]

abbrev pub add_once : String → List String → List String
add_once t found = if has_text t found then found else found ++ t ∷ []

unfoldable pub add_tokens : List String → List String → List String
unfolding lower_case
add_tokens [] found = found
add_tokens (t ∷ ts) found = add_tokens ts (add_once (lower_case t) found)

unfoldable pub extract_from : List String → List String → List String
unfolding add_tokens tokens_from
extract_from [] found = found
extract_from (text ∷ texts) found =
    extract_from texts (add_tokens (tokens_from (text_length text) text) found)

unfoldable pub extract_placeholders : List String → List String
unfolding extract_from
extract_placeholders texts = extract_from texts []

unfoldable pub unknown_placeholders : List String → List String
unfolding extract_placeholders
unknown_placeholders texts =
    keep (λ t. not (has_text t supported_placeholders)) (extract_placeholders texts)

-- The first test's `add` comes first.
unfoldable pub required_contact_fields : List String → List String
unfolding extract_placeholders
required_contact_fields texts =
    let used = extract_placeholders texts in
    (if has_text "name" used || has_text "first_name" used || has_text "last_name" used
      then "name" ∷ []
      else [])
    ++ (if has_text "email" used then "email" ∷ [] else [])
    ++ (if has_text "phone" used then "phone" ∷ [] else [])

pub record PlaceholderValues : Type 0 where
  pub name : String
  pub first_name : String
  pub last_name : String
  pub email : String
  pub phone : String

abbrev pub is_control : Char → Bool
is_control c = leb (code c) 31 || code c == 127

unfoldable pub strip_control_chars : String → String
strip_control_chars String.[] = String.[]
strip_control_chars (String.◌∷◌ c s) =
    let rest = strip_control_chars s in if is_control c then rest else String.◌∷◌ c rest

abbrev pub add_word : String → List String → List String
add_word word words = if word =ₛ "" then words else word ∷ words

-- `name.split(/\s+/).filter(Boolean)`; `word` is what stands before the text.
unfoldable pub words_from : String → String → List String
unfolding is_space
words_from word String.[] = add_word word []
words_from word (String.◌∷◌ c s) =
    let broken = words_from "" s in
    let longer = words_from (word +ₛ String.◌∷◌ c String.[]) s in
    if is_space c then add_word word broken else longer

abbrev pub or_empty : Option String → String
or_empty none = ""
or_empty (some s) = s

abbrev pub first_of : List String → String
first_of [] = ""
first_of (w ∷ ws) = w

unfoldable pub placeholder_values :
    Option String → Option String → Option String → PlaceholderValues
unfolding strip_control_chars words_from join trim
placeholder_values name email phone =
    let stripped = strip_control_chars (elim name [ none ↦ "" | some n ↦ trim n ]) in
    let parts = words_from "" stripped in
    record {
      name = stripped;
      first_name = first_of parts;
      last_name = join " " (drop 1 parts);
      email = strip_control_chars (or_empty email);
      phone = strip_control_chars (or_empty phone);
    }

-- `supported.has(key)` and `values[key]`
unfoldable pub value_of : PlaceholderValues → String → Option String
value_of v key =
    if key =ₛ "name"
    then some v.name
    else if key =ₛ "first_name"
    then some v.first_name
    else if key =ₛ "last_name"
    then some v.last_name
    else if key =ₛ "email"
    then some v.email
    else if key =ₛ "phone"
    then some v.phone
    else none

-- The part of `s` before its suffix `rest`.
abbrev pub before : String → String → String
before s rest = text_take (text_length s - text_length rest) s

-- `text.replace(TOKEN_RE, …)`, with the fuel of `tokens_from`.
unfoldable pub substitute_from : PlaceholderValues → (String → String) → ℕ → String → String
unfolding match_token lower_case value_of
substitute_from values escape zero s = s
substitute_from values escape (suc fuel) String.[] = String.[]
substitute_from values escape (suc fuel) (String.◌∷◌ c s) = elim (match_token (String.◌∷◌ c s)) [
  | none ↦ String.◌∷◌ c (substitute_from values escape fuel s)
  | some m ↦
      (elim (value_of values (lower_case m.0)) [
        | none ↦ before (String.◌∷◌ c s) m.1
        | some v ↦ escape v
      ])
      +ₛ substitute_from values escape fuel m.1
]

unfoldable pub substitute : PlaceholderValues → (String → String) → String → String
unfolding substitute_from
substitute values escape text = substitute_from values escape (text_length text) text

unfoldable pub escape_html : String → String
unfolding replace_all
escape_html value = replace_all "'" "&#39;" (
    replace_all "\"" "&quot;"
      (replace_all ">" "&gt;" (replace_all "<" "&lt;" (replace_all "&" "&amp;" value))))
