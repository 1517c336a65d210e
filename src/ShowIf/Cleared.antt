-- ===== src/ShowIf/Cleared.antt =====
-- What a round of `resolveVisibleSchema` hides: clearing values only hides more.
use aggregator_dpg.Prelude.{
  suc, ◌≤◌, ◌<◌, String, ◌≡◌, refl, sym, ap, ◌∙◌, ◌⊎◌, inl, inr, Bool, true, false, none, List, [],
  ◌∷◌, map, arith, eq_iff, eq_refl, ◌==◌, if◌then◌else◌, Bool-cases, Option-cases, length, keep,
  has_text,
}
use aggregator_dpg.Prelude.JsMap
use aggregator_dpg.Prelude.JsMap.{JsMap}
use aggregator_dpg.ShowIf.{
  FormData, Allowed, values_of, no_list, FieldSchema, reveals, every_entry, is_field_visible, hides,
  name_of, hidden_names, every_in, stable, without,
}

-- A form with some of the values of another cleared.
pub record IsCleared (less form : FormData) : Type 0 where
  pub at : (k : String) → (JsMap.get less k ≡ none) ⊎ (JsMap.get less k ≡ JsMap.get form k)

-- An absent control reveals nothing.
reveals-none : (allowed : Allowed) → reveals allowed none ≡ false
unfolding reveals
reveals-none no_list = refl
reveals-none (values_of allowed) = refl

every_entry-cleared :
    (rule : JsMap Allowed) (less form : FormData)
    → IsCleared less form
    → every_entry rule less ≡ true
    → every_entry rule form ≡ true
unfolding every_entry
every_entry-cleared [] less form c h = refl
every_entry-cleared ((control, allowed) ∷ rule) less form c h = elim (c.at control) [
  | inl gone ↦ ground (arith, gone, reveals-none allowed)
  | inr same ↦ ground (arith, same, every_entry-cleared rule less form c)
]

-- Clearing values only hides more.
hides-cleared :
    (e : String × FieldSchema) (less form : FormData)
    → IsCleared less form
    → hides form e ≡ true
    → hides less e ≡ true
unfolding hides is_field_visible
hides-cleared (name, schema) less form c h = elim (Option-cases schema.show_if) [
  | inl e ↦ ground arith
  | inr (rule, e) ↦ ground (arith, e, every_entry-cleared rule less form c)
]

get-without :
    (hidden : List String) (form : FormData) (k : String)
    → JsMap.get (without hidden form) k ≡ (if has_text k hidden then none else JsMap.get form k)
unfolding without
get-without [] form k = refl
get-without (n ∷ hidden) form k =
    get-without hidden (JsMap.delete form n) k
    ∙ ground (arith, JsMap.get-delete form n k, eq_iff n k)

pub IsCleared-without :
    (hidden : List String) (form : FormData) → IsCleared (without hidden form) form
IsCleared-without hidden form = record {
  at = λ k. elim (Bool-cases (has_text k hidden)) [
    | inl e ↦ inl (rw (get-without, e) refl)
    | inr e ↦ inr (rw (get-without, e) refl)
  ];
}

pub without-more :
    (hidden next : List String) (form : FormData)
    → ((k : String) → has_text k hidden ≡ true → has_text k next ≡ true)
    → IsCleared (without next form) (without hidden form)
without-more hidden next form sub = record {
  at = λ k. elim (Bool-cases (has_text k next)) [
    | inl e ↦ inl (rw (get-without, e) refl)
    | inr e ↦ inr (get-without next form k ∙ ground (arith, e, sub k, get-without hidden form k))
  ];
}

module _ {ℓ} {A : Type ℓ} (p q : A → Bool) (sub : (x : A) → p x ≡ true → q x ≡ true) where
  length-keep_le : (xs : List A) → length (keep p xs) ≤ length (keep q xs)
  length-keep_le [] = omega arith
  length-keep_le (x ∷ xs) = ground (arith, sub x, length-keep_le xs)

  keep_same : (xs : List A) → length (keep p xs) ≡ length (keep q xs) → keep p xs ≡ keep q xs
  keep_same [] h = refl
  keep_same (x ∷ xs) h = ground (arith, sub x, length-keep_le xs, keep_same xs)

length-keep : {A : Type 0} (p : A → Bool) (xs : List A) → length (keep p xs) ≤ length xs
length-keep p [] = omega arith
length-keep p (x ∷ xs) = ground (arith, length-keep p xs)

length-names : (es : JsMap FieldSchema) → length (map name_of es) ≡ length es
length-names [] = refl
length-names (e ∷ es) = ap suc (length-names es)

has_text-names :
    (p q : String × FieldSchema → Bool)
    → ((e : String × FieldSchema) → p e ≡ true → q e ≡ true)
    → (k : String) (props : JsMap FieldSchema) → has_text k (map name_of (keep p props)) ≡ true
    → has_text k (map name_of (keep q props)) ≡ true
has_text-names p q sub k [] h = h
has_text-names p q sub k (e ∷ props) h = ground (arith, sub e, has_text-names p q sub k props)

every_in_more :
    (xs ys : List String)
    → ((k : String) → has_text k xs ≡ true → has_text k ys ≡ true)
    → every_in xs ys ≡ true
every_in_more [] ys sub = refl
every_in_more (x ∷ xs) ys sub =
    ground (arith, sub x, eq_refl x, every_in_more xs ys (λ k h. sub k (ground arith)))

-- Hiding as much as before is hiding the same fields.
pub same_hidden :
    (props : JsMap FieldSchema) (less form : FormData)
    → IsCleared less form
    → length (hidden_names props less) ≡ length (hidden_names props form)
    → hidden_names props form ≡ hidden_names props less
unfolding hidden_names
same_hidden props less form c h = ap (map name_of) (
    keep_same (hides form) (hides less) (λ e. hides-cleared e less form c) props
      (sym (length-names (keep (hides form) props))
        ∙ sym h
        ∙ length-names (keep (hides less) props)))

hidden_grows :
    (props : JsMap FieldSchema) (less form : FormData)
    → IsCleared less form
    → length (hidden_names props form) ≤ length (hidden_names props less)
unfolding hidden_names
hidden_grows props less form c = omega (
  arith,
  length-names (keep (hides form) props),
  length-names (keep (hides less) props),
  length-keep_le (hides form) (hides less) (λ e. hides-cleared e less form c) props,
)

pub hidden_bounded :
    (props : JsMap FieldSchema) (form : FormData) → length (hidden_names props form) ≤ length props
unfolding hidden_names
hidden_bounded props form =
    omega (arith, length-names (keep (hides form) props), length-keep (hides form) props)

pub has_text-hidden :
    (props : JsMap FieldSchema) (less form : FormData)
    → IsCleared less form
    → (k : String) → has_text k (hidden_names props form) ≡ true
    → has_text k (hidden_names props less) ≡ true
unfolding hidden_names
has_text-hidden props less form c k h =
    has_text-names (hides form) (hides less) (λ e. hides-cleared e less form c) k props h

stable_refl : (xs : List String) → stable xs xs ≡ true
stable_refl xs = ground (arith, every_in_more xs xs (λ k h. h))

pub grows_strictly :
    (props : JsMap FieldSchema) (less form : FormData)
    → IsCleared less form
    → stable (hidden_names props less) (hidden_names props form) ≡ false
    → length (hidden_names props form) < length (hidden_names props less)
grows_strictly props less form c moves =
    elim (Bool-cases (length (hidden_names props less) == length (hidden_names props form))) [
      | inl e ↦
          (let same = same_hidden props less form c (ground arith) in
            let still : stable (hidden_names props less) (hidden_names props form) ≡ true =
              rw same (stable_refl (hidden_names props less)) in
            absurd (ground (arith, moves, still)))
      | inr e ↦ ground (arith, hidden_grows props less form c)
    ]

pub stable_none : (next : List String) → stable next [] ≡ true → [] ≡ next
stable_none [] h = refl
stable_none (n ∷ next) h = ground arith
