-- ===== src/Aggregators/Approval.antt =====
-- A pending aggregator is approved once.
use aggregator_dpg.Prelude.{ℕ, String, ◌≡◌, refl, ap, ◌∙◌, false, none, some, eq_refl}
use aggregator_dpg.Prelude.JsMap
use aggregator_dpg.Prelude.Result.{ok}
use aggregator_dpg.Primitives.Aggregator.{AggregatorStatus, pending, active, is_pending}
use aggregator_dpg.Primitives.Contact.{Platform}
use aggregator_dpg.Aggregators.{JsMap, Aggregator, Store}
use aggregator_dpg.Aggregators.Methods.{
  check_invariant, rekey, index_replace, taken, safe_contact_id, next_contact, update_check,
  patched, update, status_patch, approve_from_pending, widen,
}
use aggregator_dpg.Aggregators.Indices.{IsConsistent}

-- The row that an approval writes.
abbrev pub approved : String → String → ℕ → Aggregator → Aggregator
approved cid by now row = record row {
  contact_id = cid;
  status = active;
  updated_by = by;
  updated_at = now;
}

module _ (platform : Platform) where
  settled :
      (id by : String) (now : ℕ) (s : Store) (row : Aggregator)
      → JsMap.get s.by_id id ≡ some row
      → is_pending row.status ≡ false
      → approve_from_pending platform id by now s ≡ (ok none, s)
  unfolding approve_from_pending
  settled id by now s row found done = rw (found, approve_from_pending) (rw done refl)

  not_taken : (text : String) (index : JsMap String) → taken text text index ≡ false
  not_taken text index = rw (eq_refl text) refl

  status_check :
      (status : AggregatorStatus) (by : String) (s : Store) (row : Aggregator) {cid : String}
      → check_invariant row.actor_type row.role ≡ none
      → safe_contact_id platform row.contact_email row.contact_phone ≡ some cid
      → update_check platform (status_patch status by) row s ≡ ok cid
  unfolding update_check next_contact
  status_check status by s row mirrors usable =
      rw (mirrors, update_check)
        (rw (not_taken row.contact_phone s.by_phone)
          (rw (not_taken row.contact_email s.by_email) (rw usable refl)))

  replaced :
      (row : Aggregator) (cid by : String) (now : ℕ) (s : Store)
      → index_replace row (patched platform (status_patch active by) cid now row) s
        ≡ record s { by_id = JsMap.set s.by_id row.id (approved cid by now row) }
  unfolding index_replace rekey patched next_contact
  replaced row cid by now s = rw (eq_refl row.contact_phone) (rw (eq_refl row.contact_email) refl)

  update_approves :
      (id by cid : String) (now : ℕ) (s : Store) (row : Aggregator)
      → row.id ≡ id
      → JsMap.get s.by_id id ≡ some row
      → update_check platform (status_patch active by) row s ≡ ok cid
      → update platform id (status_patch active by) now s ≡ (
        ok (approved cid by now row),
        record s { by_id = JsMap.set s.by_id id (approved cid by now row) },
      )
  unfolding update patched next_contact
  update_approves id by cid now s row keyed found check =
      rw (found, update)
        (rw check (
          ap (λ u. (ok (approved cid by now row), u))
            (replaced row cid by now s
              ∙ ap (λ k. record s { by_id = JsMap.set s.by_id k (approved cid by now row) })
                  keyed)))

  -- On a valid store the approval of a pending aggregator whose stored contact has an id returns
  -- the row it stores: the same row, active, stamped with the approver and the time, with the
  -- indices as they were. A second approval on what the first one left is answered null and
  -- changes nothing.
  pub approve_once :
      (id by again cid : String) (now later : ℕ) (s : Store) (row : Aggregator)
      → IsConsistent s
      → JsMap.get s.by_id id ≡ some row
      → row.status ≡ pending
      → safe_contact_id platform row.contact_email row.contact_phone ≡ some cid
      → (approve_from_pending platform id by now s ≡ (
        ok (some (approved cid by now row)),
        record s { by_id = JsMap.set s.by_id id (approved cid by now row) },
      ))
        × (approve_from_pending platform id again later
              (approve_from_pending platform id by now s).1
            ≡ (ok none, (approve_from_pending platform id by now s).1))
  unfolding approve_from_pending
  approve_once id by again cid now later s row v found live usable =
      let held = v.rows id row found in
      let check = status_check active by s row held.mirrors usable in
      let after : Store = record s { by_id = JsMap.set s.by_id id (approved cid by now row) } in
      let first : approve_from_pending platform id by now s
          ≡ (ok (some (approved cid by now row)), after) =
        rw (found, approve_from_pending)
          (rw live
            (ap (widen platform) (update_approves id by cid now s row held.keyed found check))) in
      (
        first,
        rw first (
            settled id again later after (approved cid by now row)
              (rw (JsMap.get-set, eq_refl id) refl) refl),
      )
