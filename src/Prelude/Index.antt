-- ===== src/Prelude/Index.antt =====
-- A second `Map` that finds the keys of a first one by a text of its values: a unique index.
use Prim.Native.String.{String}
use mathlib.Core.Path.{◌≡◌, sym, ap, ◌∙◌}
use mathlib.Core.Logic.{◌≢◌, inl, inr}
use mathlib.Core.Bool.{false}
use mathlib.Core.Option.{some-injective, none, some}
use native.Mathlib.Omega.{arith}
use text.Mathlib.TextEquality.{eq_iff}
use text.Mathlib.TextPositions.{eq_refl}
use aggregator_dpg.Prelude.Tests.{◌=ₛ◌, Bool-cases}
use aggregator_dpg.Prelude.JsMap
use aggregator_dpg.Prelude.JsMap.{JsMap}

-- What is left after a deletion was there before.
stays {ℓ} :
    {V : Type ℓ} (m : JsMap V) (k j : String) (v : V)
    → JsMap.get (JsMap.delete m k) j ≡ some v
    → JsMap.get m j ≡ some v
stays m k j v e = ground (arith, JsMap.get-delete m k j)

gone {ℓ} :
    {V : Type ℓ} (m : JsMap V) (k j : String) (v : V)
    → JsMap.get (JsMap.delete m k) j ≡ some v
    → k ≢ j
gone m k j v e same = ground (arith, JsMap.get-delete m k j, eq_iff k j)

module _ {ℓ} {V : Type ℓ} (key : V → String) where
  pub record IsIndexed (rows : JsMap V) (index : JsMap String) : Type ℓ where
    pub complete :
        (id : String) (v : V) → JsMap.get rows id ≡ some v → JsMap.get index (key v) ≡ some id
    pub sound :
        (k id : String)
        → JsMap.get index k ≡ some id
        → (v : V) × (JsMap.get rows id ≡ some v) × (key v ≡ k)

  -- A new value under a new key, whose text is not indexed.
  pub IsIndexed-insert :
      (rows : JsMap V) (index : JsMap String) (id : String) (v : V)
      → JsMap.get rows id ≡ none
      → JsMap.get index (key v) ≡ none
      → IsIndexed rows index
      → IsIndexed (JsMap.set rows id v) (JsMap.set index (key v) id)
  IsIndexed-insert rows index id v new free i = record {
    complete = λ j w e. elim (JsMap.get-set_cases rows id j v e) [
      | inl (at_j, is_v) ↦
          ground (arith, JsMap.get-set index (key v) (key w) id, ap key is_v, eq_refl (key v), at_j)
      | inr (other, old) ↦ ground (
        arith,
        JsMap.get-set index (key v) (key w) id,
        eq_iff (key v) (key w),
        i.complete j w old,
      )
    ];
    sound = λ k j e. elim (JsMap.get-set_cases index (key v) k id e) [
      | inl (at_k, is_id) ↦ (v, ground (arith, JsMap.get-set rows id j v, eq_iff id j), at_k)
      | inr (other, old) ↦
          (let (w, held, same) = i.sound k j old in
            (w, ground (arith, JsMap.get-set rows id j v, eq_iff id j), same))
    ];
  }

  -- A value is written over one with the same text.
  pub IsIndexed-rewrite :
      (rows : JsMap V) (index : JsMap String) (id : String) (v old : V)
      → JsMap.get rows id ≡ some old
      → key v ≡ key old
      → IsIndexed rows index
      → IsIndexed (JsMap.set rows id v) index
  IsIndexed-rewrite rows index id v old found same i = record {
    complete = λ j w e. elim (JsMap.get-set_cases rows id j v e) [
      | inl (at_j, is_v) ↦ cc (at_j, is_v, same, i.complete id old found)
      | inr (other, before) ↦ i.complete j w before
    ];
    sound = λ k j e.
        let (w, held, at_k) = i.sound k j e in
        elim (Bool-cases (id =ₛ j)) [
          | inl t ↦ (v, ground (arith, JsMap.get-set rows id j v), ground (arith, eq_iff id j))
          | inr t ↦ (w, ground (arith, JsMap.get-set rows id j v), at_k)
        ];
  }

  -- A text left in the index belongs to another key than the one whose text was taken out.
  apart :
      (rows : JsMap V) (index : JsMap String) (id : String) (old : V)
      → JsMap.get rows id ≡ some old
      → (k j : String) (w : V) → JsMap.get (JsMap.delete index (key old)) k ≡ some j
      → JsMap.get rows j ≡ some w
      → key w ≡ k
      → (id =ₛ j) ≡ false
  apart rows index id old found k j w before held same = elim (Bool-cases (id =ₛ j)) [
    | inr t ↦ t
    | inl t ↦ absurd (
        gone index (key old) k j before (
          ap key (some-injective _ _ (sym found ∙ ap (JsMap.get rows) ((eq_iff id j).0 t) ∙ held))
          ∙ same))
  ]

  -- A value is written over one with another text, and the new text is not indexed.
  pub IsIndexed-rekey :
      (rows : JsMap V) (index : JsMap String) (id : String) (v old : V)
      → JsMap.get rows id ≡ some old
      → JsMap.get index (key v) ≡ none
      → IsIndexed rows index
      → IsIndexed (JsMap.set rows id v) (JsMap.set (JsMap.delete index (key old)) (key v) id)
  IsIndexed-rekey rows index id v old found free i = record {
    complete = λ j w e. elim (JsMap.get-set_cases rows id j v e) [
      | inl (at_j, is_v) ↦ ground (
        arith,
        JsMap.get-set (JsMap.delete index (key old)) (key v) (key w) id,
        ap key is_v,
        eq_refl (key v),
        at_j,
      )
      | inr (other, before) ↦ ground (
        arith,
        JsMap.get-set (JsMap.delete index (key old)) (key v) (key w) id,
        JsMap.get-delete index (key old) (key w),
        eq_iff (key v) (key w),
        eq_iff (key old) (key w),
        i.complete j w before,
        i.complete id old found,
        eq_iff id j,
      )
    ];
    sound = λ k j e. elim (JsMap.get-set_cases (JsMap.delete index (key old)) (key v) k id e) [
      | inl (at_k, is_id) ↦ (v, ground (arith, JsMap.get-set rows id j v, eq_iff id j), at_k)
      | inr (other, before) ↦
          (let (w, held, same) = i.sound k j (stays index (key old) k j before) in
            (
              w,
              rw (JsMap.get-set, apart rows index id old found k j w before held same) held,
              same,
            ))
    ];
  }

  pub IsIndexed-delete :
      (rows : JsMap V) (index : JsMap String) (id : String) (old : V)
      → JsMap.get rows id ≡ some old
      → IsIndexed rows index
      → IsIndexed (JsMap.delete rows id) (JsMap.delete index (key old))
  IsIndexed-delete rows index id old found i = record {
    complete = λ j w e.
        (let held = stays rows id j w e in
          ground (
            arith,
            JsMap.get-delete rows id j,
            JsMap.get-delete index (key old) (key w),
            eq_iff (key old) (key w),
            i.complete j w held,
            i.complete id old found,
            eq_iff id j,
          ));
    sound = λ k j e.
        let (w, held, same) = i.sound k j (stays index (key old) k j e) in
        (w, rw (JsMap.get-delete, apart rows index id old found k j w e held same) held, same);
  }
