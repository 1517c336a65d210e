-- ===== src/Aggregators/Indices.antt =====
-- The three indices of the aggregator store agree with its rows.
pub mod Keeps
use mathlib.Core.Path.{subst}
use aggregator_dpg.Prelude.{
  ℕ, String, ◌≡◌, refl, sym, ◌∙◌, ◌≢◌, ◌⊎◌, inl, inr, false, none, some, arith, eq_iff, ◌=ₛ◌,
  Bool-cases, Option-cases,
}
use aggregator_dpg.Prelude.JsMap
use aggregator_dpg.Prelude.JsMap.{JsMap}
use aggregator_dpg.Prelude.Index.{
  IsIndexed, IsIndexed-insert, IsIndexed-rewrite, IsIndexed-rekey, IsIndexed-delete,
}
use aggregator_dpg.Prelude.Result.{Result, ok, err}
use aggregator_dpg.Primitives.Aggregator.{AggregatorStatus, active, is_pending}
use aggregator_dpg.Primitives.Contact.{Platform}
use aggregator_dpg.Aggregators.{
  Aggregator, CreateAggregatorInput, UpdateAggregatorPatch, StoreResult, Store, empty,
}
use aggregator_dpg.Aggregators.Methods.{
  or_default, check_invariant, index_insert, rekey, index_replace, taken, update_signalstack_org_id,
  delete_by_id, new_row, create_check, create, update_check, patched, update, status_patch,
  update_status, approve_from_pending, widen,
}

abbrev pub slug_of : Aggregator → String
slug_of r = r.org_slug

abbrev pub phone_of : Aggregator → String
phone_of r = r.contact_phone

abbrev pub email_of : Aggregator → String
email_of r = r.contact_email

-- What each row satisfies by itself, under its key: it has an id, and its role mirrors its actor.
pub record IsRow (id : String) (r : Aggregator) : Type 0 where
  pub keyed : r.id ≡ id
  pub named : id ≢ ""
  pub mirrors : check_invariant r.actor_type r.role ≡ none

pub record IsConsistent (s : Store) : Type 0 where
  pub slugs : IsIndexed slug_of s.by_id s.by_slug
  pub phones : IsIndexed phone_of s.by_id s.by_phone
  pub emails : IsIndexed email_of s.by_id s.by_email
  pub rows : (id : String) (r : Aggregator) → JsMap.get s.by_id id ≡ some r → IsRow id r

module _ (platform : Platform) where
  -- The calls of the methods that write; `create` is given a fresh id.
  pub data Step (s u : Store) : Type 0 where
    creates :
        (input : CreateAggregatorInput) (id : String) (now : ℕ)
        → id ≢ ""
        → JsMap.get s.by_id id ≡ none
        → u ≡ (create platform input id now s).1
        → Step s u
    updates :
        (id : String) (patch : UpdateAggregatorPatch) (now : ℕ)
        → u ≡ (update platform id patch now s).1
        → Step s u
    changes_status :
        (id : String) (status : AggregatorStatus) (by : String) (now : ℕ)
        → u ≡ (update_status platform id status by now s).1
        → Step s u
    approves :
        (id by : String) (now : ℕ) → u ≡ (approve_from_pending platform id by now s).1 → Step s u
    records_org :
        (id org by : String) (now : ℕ)
        → u ≡ (update_signalstack_org_id id org by now s).1
        → Step s u
    deletes : (id : String) → u ≡ (delete_by_id id s).1 → Step s u

  pub data Reach (s : Store) : Store → Type 0 where
    here : Reach s s
    next : {t u : Store} → Reach s t → Step t u → Reach s u

-- The rows after a write of a row that is one.
pub set-IsRow :
    (m : JsMap Aggregator) (id : String) (v : Aggregator)
    → ((k : String) (r : Aggregator) → JsMap.get m k ≡ some r → IsRow k r)
    → IsRow id v
    → (k : String) (r : Aggregator) → JsMap.get (JsMap.set m id v) k ≡ some r
    → IsRow k r
set-IsRow m id v all ok_v k r e = elim (JsMap.get-set_cases m id k v e) [
  | inl (at_k, is_v) ↦ subst (λ k'. IsRow k' r) at_k (subst (IsRow id) (sym is_v) ok_v)
  | inr (other, old) ↦ all k r old
]

-- An index that is rekeyed when its text changes, to a text not indexed.
pub rekey-IsIndexed :
    (key : Aggregator → String) (rows : JsMap Aggregator) (index : JsMap String) (id : String)
    (v old : Aggregator)
    → JsMap.get rows id ≡ some old
    → taken (key old) (key v) index ≡ false
    → IsIndexed key rows index
    → IsIndexed key (JsMap.set rows id v) (rekey (key old) (key v) id index)
unfolding rekey
rekey-IsIndexed key rows index id v old found free i = elim (Bool-cases (key old =ₛ key v)) [
  | inl e ↦
      rw (e, rekey)
        (IsIndexed-rewrite key rows index id v old found (sym ((eq_iff (key old) (key v)).0 e)) i)
  | inr e ↦
      rw (e, rekey)
        (IsIndexed-rekey key rows index id v old found
          ((JsMap.has_iff index (key v)).0
            (ground (arith, free, e, eq_iff (key v) (key old), eq_iff (key old) (key v))))
          i)
]

-- A stored row is replaced by another with its id and its slug.
pub index_replace-IsConsistent :
    (s : Store) (old row : Aggregator)
    → JsMap.get s.by_id row.id ≡ some old
    → row.org_slug ≡ old.org_slug
    → taken old.contact_phone row.contact_phone s.by_phone ≡ false
    → taken old.contact_email row.contact_email s.by_email ≡ false
    → IsRow row.id row
    → IsConsistent s
    → IsConsistent (index_replace old row s)
unfolding index_replace
index_replace-IsConsistent s old row found slug phone email ok_row v = record {
  slugs = IsIndexed-rewrite slug_of s.by_id s.by_slug row.id row old found slug v.slugs;
  phones = rekey-IsIndexed phone_of s.by_id s.by_phone row.id row old found phone v.phones;
  emails = rekey-IsIndexed email_of s.by_id s.by_email row.id row old found email v.emails;
  rows = set-IsRow s.by_id row.id row v.rows ok_row;
}

ok_or_err {ℓ} : {E A : Type ℓ} (r : Result E A) → ((e : E) × (r ≡ err e)) ⊎ ((a : A) × (r ≡ ok a))
ok_or_err (err e) = inl (e, refl)
ok_or_err (ok a) = inr (a, refl)

pub IsConsistent-empty : IsConsistent empty
unfolding JsMap.get
IsConsistent-empty = record {
  slugs = record { complete = λ id v e. cc; sound = λ k id e. cc };
  phones = record { complete = λ id v e. cc; sound = λ k id e. cc };
  emails = record { complete = λ id v e. cc; sound = λ k id e. cc };
  rows = λ id r e. cc;
}
