-- ===== src/Aggregators/Find.antt =====
-- The lookups by slug, phone and email find what a search of all the rows would.
use aggregator_dpg.Prelude.{
  String, ◌≡◌, sym, ap, ◌↔◌, inl, inr, Option, some, arith, eq_iff, Option-cases,
}
use mathlib.Core.Path.{subst}
use mathlib.Core.Option.{some-injective}
use aggregator_dpg.Prelude.JsMap
use aggregator_dpg.Prelude.JsMap.{JsMap}
use aggregator_dpg.Prelude.Index.{IsIndexed}
use aggregator_dpg.Prelude.Result.{ok}
use aggregator_dpg.Primitives.Contact.{Platform}
use aggregator_dpg.Aggregators.{Aggregator, StoreResult, Store}
use aggregator_dpg.Aggregators.Methods.{
  follow, find_by_slug, find_by_contact_phone, find_by_contact_email,
}
use aggregator_dpg.Aggregators.Indices.{IsConsistent, IsRow, slug_of, phone_of, email_of}

-- An answer is a row of the store with the text asked for, under its own id.
abbrev pub Finds : (Aggregator → String) → String → Aggregator → Store → Type 0
Finds key text row s = (JsMap.get s.by_id row.id ≡ some row) × (key row ≡ text)

follow_iff :
    (key : Aggregator → String) (index : JsMap String) (text : String) (s : Store)
    (row : Aggregator)
    → IsIndexed key s.by_id index
    → ((id : String) (r : Aggregator) → JsMap.get s.by_id id ≡ some r → IsRow id r)
    → (follow index text s ≡ some row) ↔ Finds key text row s
unfolding follow
follow_iff key index text s row i rows = (
  λ e. elim (Option-cases (JsMap.get index text)) [
    | inl none_at ↦ ground arith
    | inr (id, at) ↦
        (let (r, held, same) = i.sound text id at in
          let ok_row = rows id r held in
          let is_row : some r ≡ some row = ground (arith, ok_row.named, eq_iff id "") in
          subst (λ q. Finds key text q s) (some-injective _ _ is_row)
            (subst (λ k. JsMap.get s.by_id k ≡ some r) (sym ok_row.keyed) held, same))
  ],
  λ (held, same).
      let at : JsMap.get index text ≡ some row.id = rw (← same) (i.complete row.id row held) in
      let ok_row = rows row.id row held in ground (arith, ok_row.named, eq_iff row.id ""),
)

abbrev answer : Option Aggregator → StoreResult (Option Aggregator)
answer o = ok o

answer_iff :
    {P : Type 0} (o : Option Aggregator) (a : Aggregator)
    → (o ≡ some a) ↔ P
    → (answer o ≡ ok (some a)) ↔ P
answer_iff o a h = (λ e. h.0 (ground arith), λ p. ap answer (h.1 p))

module _ (platform : Platform) where
  -- On a valid store the lookups by slug, by phone and by email each return a row exactly when it
  -- is a row of the store, under its own id, with the slug, the phone, or the address in lower
  -- case.
  pub lookups_iff :
      (text : String) (s : Store) (row : Aggregator)
      → IsConsistent s
      → ((find_by_slug text s ≡ ok (some row)) ↔ Finds slug_of text row s)
        × ((find_by_contact_phone text s ≡ ok (some row)) ↔ Finds phone_of text row s)
        × ((find_by_contact_email platform text s ≡ ok (some row))
            ↔ Finds email_of (platform.to_lower_case text) row s)
  unfolding find_by_slug find_by_contact_phone find_by_contact_email
  lookups_iff text s row v = (
    answer_iff (follow s.by_slug text s) row
        (follow_iff slug_of s.by_slug text s row v.slugs v.rows),
    answer_iff (follow s.by_phone text s) row
        (follow_iff phone_of s.by_phone text s row v.phones v.rows),
    answer_iff (follow s.by_email (platform.to_lower_case text) s) row
        (follow_iff email_of s.by_email (platform.to_lower_case text) s row v.emails v.rows),
  )
