-- ===== src/ShowIf/Strip.antt =====
-- `stripShowIf` leaves no keyword behind.
use aggregator_dpg.Prelude.{◌≡◌, refl, ap, inl, inr, false, ◌=ₛ◌, Bool-cases}
use aggregator_dpg.Prelude.Json.{
  Json, null, bool, num, str, arr, obj, Items, nil, cons, Fields, end, field,
}
use aggregator_dpg.ShowIf.{strip_show_if, strip_items, strip_fields}

-- No object in the tree has the keyword as a key.
mutual
  pub HasNoRule : Json → Type 0
  HasNoRule null = Unit
  HasNoRule (bool b) = Unit
  HasNoRule (num n) = Unit
  HasNoRule (str s) = Unit
  HasNoRule (arr items) = ItemsHaveNone items
  HasNoRule (obj fields) = FieldsHaveNone fields

  pub ItemsHaveNone : Items → Type 0
  ItemsHaveNone nil = Unit
  ItemsHaveNone (cons v items) = HasNoRule v × ItemsHaveNone items

  pub FieldsHaveNone : Fields → Type 0
  FieldsHaveNone end = Unit
  FieldsHaveNone (field key v fields) =
      ((key =ₛ "x-show-if") ≡ false) × (HasNoRule v × FieldsHaveNone fields)

mutual
  unfolding strip_show_if HasNoRule

  stripped : (j : Json) → HasNoRule (strip_show_if j)
  stripped null = tt
  stripped (bool b) = tt
  stripped (num n) = tt
  stripped (str s) = tt
  stripped (arr items) = stripped_items items
  stripped (obj fields) = stripped_fields fields

  stripped_items : (items : Items) → ItemsHaveNone (strip_items items)
  stripped_items nil = tt
  stripped_items (cons v items) = (stripped v, stripped_items items)

  stripped_fields : (fields : Fields) → FieldsHaveNone (strip_fields fields)
  stripped_fields end = tt
  stripped_fields (field key v fields) = elim (Bool-cases (key =ₛ "x-show-if")) [
    | inl e ↦ rw e (stripped_fields fields)
    | inr e ↦ rw e (e, (stripped v, stripped_fields fields))
  ]

mutual
  unfolding strip_show_if HasNoRule

  kept : (j : Json) → HasNoRule j → strip_show_if j ≡ j
  kept null h = refl
  kept (bool b) h = refl
  kept (num n) h = refl
  kept (str s) h = refl
  kept (arr items) h = ap arr (kept_items items h)
  kept (obj fields) h = ap obj (kept_fields fields h)

  kept_items : (items : Items) → ItemsHaveNone items → strip_items items ≡ items
  kept_items nil h = refl
  kept_items (cons v items) h = cc (kept v h.0, kept_items items h.1)

  kept_fields : (fields : Fields) → FieldsHaveNone fields → strip_fields fields ≡ fields
  kept_fields end h = refl
  kept_fields (field key v fields) h = rw h.0 (cc (kept v h.1.0, kept_fields fields h.1.1))

-- In a stripped schema no object of the tree has an `x-show-if`, and a schema that has none, such
-- as one that was stripped before, is left as it is.
pub strip_show_if_lem :
    (j : Json)
    → HasNoRule (strip_show_if j)
      × (HasNoRule j → strip_show_if j ≡ j)
      × (strip_show_if (strip_show_if j) ≡ strip_show_if j)
strip_show_if_lem j = (stripped j, kept j, kept (strip_show_if j) (stripped j))
