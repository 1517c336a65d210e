-- ===== src/CampaignTemplate/Unknown.antt =====
-- Placeholders that no value is kept for (index.ts of packages/campaign-template/src).
use Prim.Native.String.{◌++◌ as ◌+ₛ◌}
use mathlib.Core.Path.{subst}
use aggregator_dpg.Prelude.{
  ℕ, zero, suc, String, ◌≡◌, refl, sym, ap, ◌∙◌, inl, inr, true, false, not, none, arith, ◌=ₛ◌,
  eq_iff, eq_refl, Bool-cases, Option-cases, List, [], ◌∷◌, ◌++◌, All, has_text, keep,
}
use aggregator_dpg.Prelude.Texts.{text_length}
use aggregator_dpg.CampaignTemplate.{
  PlaceholderValues, supported_placeholders, match_token, lower_case, tokens_from, add_once,
  add_tokens, extract_from, extract_placeholders, unknown_placeholders, value_of, before,
  substitute_from, substitute,
}
use aggregator_dpg.CampaignTemplate.Suffix.{match_token-IsSuffix}
use aggregator_dpg.CampaignTemplate.Escape.{before-suffix}

-- No value is kept for the word.
abbrev IsUnknown : String → Type 0
IsUnknown t = has_text t supported_placeholders ≡ false

eq-sym_false : (a b : String) → (a =ₛ b) ≡ false → (b =ₛ a) ≡ false
eq-sym_false a b h = elim (Bool-cases (b =ₛ a)) [
  | inl same ↦ let e : (a =ₛ b) ≡ true = (eq_iff a b).1 (sym ((eq_iff b a).0 same)) in cc
  | inr other ↦ other
]

value_of-unknown :
    (values : PlaceholderValues) (t : String) → IsUnknown t → value_of values t ≡ none
unfolding value_of
value_of-unknown values t h =
    let name : ("name" =ₛ t) ≡ false = ground arith in
    let first_name : ("first_name" =ₛ t) ≡ false = ground arith in
    let last_name : ("last_name" =ₛ t) ≡ false = ground arith in
    let email : ("email" =ₛ t) ≡ false = ground arith in
    let phone : ("phone" =ₛ t) ≡ false = ground arith in
    rw (
      eq-sym_false "name" t name,
      eq-sym_false "first_name" t first_name,
      eq-sym_false "last_name" t last_name,
      eq-sym_false "email" t email,
      eq-sym_false "phone" t phone,
    )

All-has_text :
    (P : String → Type 0) (t : String) (found : List String)
    → All P found
    → has_text t found ≡ true
    → P t
All-has_text P t [] a h = cc
All-has_text P t (x ∷ xs) a h = elim (Bool-cases (x =ₛ t)) [
  | inl same ↦ subst P ((eq_iff x t).0 same) a.0
  | inr other ↦ All-has_text P t xs a.1 (ground arith)
]

-- What is kept is among what was found, so a list that a filter leaves alone passes it.
All-keep :
    (found : List String)
    → All IsUnknown (keep (λ t. not (has_text t supported_placeholders)) found)
All-keep [] = tt
All-keep (t ∷ ts) = elim (Bool-cases (has_text t supported_placeholders)) [
  | inl h ↦ rw h (All-keep ts)
  | inr h ↦ rw h (h, All-keep ts)
]

-- The words found so far stay found.
has_text-append :
    (t : String) (xs ys : List String) → has_text t xs ≡ true → has_text t (xs ++ ys) ≡ true
has_text-append t [] ys h = cc
has_text-append t (x ∷ xs) ys h = ground (arith, has_text-append t xs ys)

has_text-last : (t : String) (xs : List String) → has_text t (xs ++ t ∷ []) ≡ true
has_text-last t [] = ground (arith, eq_refl t)
has_text-last t (x ∷ xs) = ground (arith, has_text-last t xs)

has_text-add_tokens :
    (u : String) (ts found : List String)
    → has_text u found ≡ true
    → has_text u (add_tokens ts found) ≡ true
unfolding add_tokens
has_text-add_tokens u [] found h = h
has_text-add_tokens u (t ∷ ts) found h =
    has_text-add_tokens u ts (add_once (lower_case t) found)
      (elim (Bool-cases (has_text (lower_case t) found)) [
        | inl old ↦ rw old h
        | inr new ↦ rw new (has_text-append u found (lower_case t ∷ []) h)
      ])

add_tokens-found :
    (ts found : List String) → All (λ t. has_text (lower_case t) (add_tokens ts found) ≡ true) ts
unfolding add_tokens
add_tokens-found [] found = tt
add_tokens-found (t ∷ ts) found = (
  has_text-add_tokens (lower_case t) ts (add_once (lower_case t) found)
      (elim (Bool-cases (has_text (lower_case t) found)) [
        | inl old ↦ rw old old
        | inr new ↦ rw new (has_text-last (lower_case t) found)
      ]),
  add_tokens-found ts (add_once (lower_case t) found),
)

All-map_found :
    (ts found : List String)
    → All IsUnknown found
    → All (λ t. has_text (lower_case t) found ≡ true) ts
    → All (λ t. IsUnknown (lower_case t)) ts
All-map_found [] found a f = tt
All-map_found (t ∷ ts) found a f =
    (All-has_text IsUnknown (lower_case t) found a f.0, All-map_found ts found a f.1)

substitute_from-unknown :
    (values : PlaceholderValues) (escape : String → String) (fuel : ℕ) (s : String)
    → All (λ t. IsUnknown (lower_case t)) (tokens_from fuel s)
    → substitute_from values escape fuel s ≡ s
unfolding substitute_from tokens_from
substitute_from-unknown values escape zero s a = refl
substitute_from-unknown values escape (suc fuel) String.[] a = refl
substitute_from-unknown values escape (suc fuel) (String.◌∷◌ c s) a =
    elim (Option-cases (match_token (String.◌∷◌ c s))) [
      | inl gone ↦
          let later : All (λ t. IsUnknown (lower_case t)) (tokens_from fuel s) =
            rw (gone, tokens_from) at a in
          rw (gone, substitute_from)
            (ap (λ r. String.◌∷◌ c r) (substitute_from-unknown values escape fuel s later))
      | inr (m, found) ↦
          let both : IsUnknown (lower_case m.0)
              × All (λ t. IsUnknown (lower_case t)) (tokens_from fuel m.1) =
            rw (found, tokens_from) at a in
          rw (found, value_of-unknown values (lower_case m.0) both.0, substitute_from)
            (ap (λ r. before (String.◌∷◌ c s) m.1 +ₛ r)
                (substitute_from-unknown values escape fuel m.1 both.1)
              ∙ before-suffix (String.◌∷◌ c s) m.1 (match_token-IsSuffix (String.◌∷◌ c s) m found))
    ]

-- A text whose placeholders are all unknown is left as it is by a substitution, whatever the
-- values and the escaping.
pub substitute_unknown :
    (values : PlaceholderValues) (escape : String → String) (text : String)
    → unknown_placeholders (text ∷ []) ≡ extract_placeholders (text ∷ [])
    → substitute values escape text ≡ text
unfolding substitute unknown_placeholders extract_placeholders extract_from
substitute_unknown values escape text same =
    let ts = tokens_from (text_length text) text in
    let unknown : All IsUnknown (add_tokens ts []) =
      subst (All IsUnknown) same (All-keep (add_tokens ts [])) in
    substitute_from-unknown values escape (text_length text) text
      (All-map_found ts (add_tokens ts []) unknown (add_tokens-found ts []))
