-- ===== src/ShowIf/Fixpoint.antt =====
-- The loop of `resolveVisibleSchema` ends, at a fixpoint.
use mathlib.Core.Path.{subst}
use aggregator_dpg.Prelude.{
  ℕ, zero, suc, ◌+◌, ◌<◌, String, ◌≡◌, refl, inl, inr, true, Option, some, List, [], arith,
  Bool-cases, length, has_text,
}
use aggregator_dpg.Prelude.JsMap.{JsMap}
use aggregator_dpg.ShowIf.{
  FormData, FieldSchema, RjsfSchema, hidden_names, stable, without, settle, pruned,
  resolve_visible_schema,
}
use aggregator_dpg.ShowIf.Cleared.{
  IsCleared, IsCleared-without, without-more, same_hidden, hidden_bounded, has_text-hidden,
  grows_strictly, stable_none,
}

-- A result of the loop: the hidden fields are those that the cleared form hides.
abbrev pub Settled : JsMap FieldSchema → FormData → Option (List String × FormData) → Type 0
Settled props form result =
    (hidden : List String) × (result ≡ some (hidden, without hidden form))
    × (hidden ≡ hidden_names props (without hidden form))

module _ (props : JsMap FieldSchema) (form : FormData) where
  settle-Settled :
      (fuel : ℕ) (before : FormData)
      → IsCleared (without (hidden_names props before) form) before
      → length props < fuel + length (hidden_names props before)
      → Settled props form (
          settle props form fuel
            (hidden_names props before)
            (without (hidden_names props before) form))
  unfolding settle
  settle-Settled zero before c enough = absurd (omega (arith, enough, hidden_bounded props before))
  settle-Settled (suc fuel) before c enough =
      let hidden = hidden_names props before in
      let working = without hidden form in
      let next = hidden_names props working in
      elim (Bool-cases (stable next hidden)) [
        | inl e ↦ (hidden, rw (e, settle) refl, same_hidden props working before c (ground arith))
        | inr e ↦
            (let more : length hidden < length next = grows_strictly props working before c e in
              let (h, ends, fixed) =
                settle-Settled fuel working
                  (without-more hidden next form (has_text-hidden props working before c))
                  (omega (arith, enough, more)) in
              (h, rw (e, settle) ends, fixed))
      ]

  settle_all : Settled props form (settle props form (suc (suc (length props))) [] form)
  unfolding settle without
  settle_all =
      let next = hidden_names props form in
      elim (Bool-cases (stable next [])) [
        | inl e ↦ ([], rw (e, settle) refl, stable_none next e)
        | inr e ↦
            (let (h, ends, fixed) =
                settle-Settled (suc (length props)) form (IsCleared-without next form)
                  (omega arith) in
              (h, rw (e, settle) ends, fixed))
      ]

-- One set of names holds another.
abbrev pub Within : List String → List String → Type 0
Within xs ys = (k : String) → has_text k xs ≡ true → has_text k ys ≡ true

-- A set of names that holds all that the form without their values hides.
abbrev pub IsClosed : JsMap FieldSchema → FormData → List String → Type 0
IsClosed props form names = Within (hidden_names props (without names form)) names

-- The loop hides nothing outside a closed set.
settle-Within :
    (props : JsMap FieldSchema) (form : FormData) (names : List String)
    → IsClosed props form names
    → (fuel : ℕ) (hidden : List String) {h : List String} {w : FormData} → Within hidden names
    → settle props form fuel hidden (without hidden form) ≡ some (h, w)
    → Within h names
unfolding settle
settle-Within props form names closed zero hidden inside ends = ground arith
settle-Within props form names closed (suc fuel) hidden {h} {w} inside ends =
    let working = without hidden form in
    let next = hidden_names props working in
    elim (Bool-cases (stable next hidden)) [
      | inl e ↦
          (let same : hidden ≡ h = ground (arith, e, ends) in
            subst (λ xs. Within xs names) same inside)
      | inr e ↦
          settle-Within props form names closed fuel next {h = h} {w = w}
            (λ k at. closed k (
              has_text-hidden props (without names form) working
                (without-more hidden names form inside) k at))
            (ground (arith, e, ends))
    ]

-- The loop ends for every schema and form, and what it returns is the least fixpoint: the form with
-- the values of the hidden fields cleared hides exactly those fields, these fields are taken out of
-- the schema, and they are in every set of fields that holds all that clearing it hides.
pub resolve-fixpoint :
    (locale_sort : List String → List String) (schema : RjsfSchema) (form : FormData)
    → (hidden : List String) × (resolve_visible_schema locale_sort schema form
        ≡ some (record {
          schema = pruned hidden schema;
          form_data = without hidden form;
          hidden = locale_sort hidden;
        }))
      × (hidden ≡ hidden_names schema.properties (without hidden form))
      × ((names : List String) → IsClosed schema.properties form names → Within hidden names)
unfolding resolve_visible_schema
resolve-fixpoint locale_sort schema form =
    let (hidden, ends, fixed) = settle_all schema.properties form in
    (
      hidden,
      rw (ends, resolve_visible_schema) refl,
      fixed,
      λ names closed.
          settle-Within schema.properties form names closed (suc (suc (length schema.properties)))
            [] (λ k at. ground arith) ends,
    )
