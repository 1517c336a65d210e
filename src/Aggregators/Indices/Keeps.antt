-- ===== src/Aggregators/Indices/Keeps.antt =====
-- Every call keeps the indices of the aggregator store in agreement with its rows.
use mathlib.Core.Path.{subst}
use aggregator_dpg.Prelude.{
  ℕ, String, ◌≡◌, refl, sym, ◌∙◌, ◌≢◌, inl, inr, false, none, some, arith, Bool-cases, Option-cases,
}
use aggregator_dpg.Prelude.JsMap
use aggregator_dpg.Prelude.JsMap.{JsMap}
use aggregator_dpg.Prelude.Index.{IsIndexed-insert, IsIndexed-rewrite, IsIndexed-delete}
use aggregator_dpg.Prelude.Result.{ok, err}
use aggregator_dpg.Primitives.Aggregator.{active, is_pending}
use aggregator_dpg.Primitives.Contact.{Platform}
use aggregator_dpg.Aggregators.{
  Aggregator, CreateAggregatorInput, UpdateAggregatorPatch, StoreResult, Store,
}
use aggregator_dpg.Aggregators.Methods.{
  or_default, check_invariant, index_insert, index_replace, taken, update_signalstack_org_id,
  delete_by_id, new_row, create_check, create, update_check, patched, update, status_patch,
  update_status, approve_from_pending, widen,
}
use aggregator_dpg.Aggregators.Indices.{
  ok_or_err, slug_of, phone_of, email_of, IsConsistent, Step, creates, updates, changes_status,
  approves, records_org, deletes, Reach, here, next, set-IsRow, index_replace-IsConsistent,
}

module _ (platform : Platform) where
  create_check-ok :
      (input : CreateAggregatorInput) (s : Store) {cid : String}
      → create_check platform input s ≡ ok cid
      → (check_invariant input.actor_type input.role ≡ none)
        × (JsMap.has s.by_slug input.org_slug ≡ false)
        × (JsMap.has s.by_phone input.contact.phone ≡ false)
        × (JsMap.has s.by_email (platform.to_lower_case input.contact.email) ≡ false)
  unfolding create_check
  create_check-ok input s {cid} e = (ground arith, ground arith, ground arith, ground arith)

  create-IsConsistent :
      (s : Store) (input : CreateAggregatorInput) (id : String) (now : ℕ)
      → id ≢ ""
      → JsMap.get s.by_id id ≡ none
      → IsConsistent s
      → IsConsistent (create platform input id now s).1
  unfolding create index_insert new_row
  create-IsConsistent s input id now named new v =
      elim (ok_or_err (create_check platform input s)) [
        | inl (e, stop) ↦ rw (stop, create) v
        | inr (cid, go) ↦
            (let (mirrors, slug, phone, email) = create_check-ok input s go in
              let row = new_row platform input id cid now in
              rw (go, create)
                (record {
                  slugs =
                      IsIndexed-insert slug_of s.by_id s.by_slug id row new
                        ((JsMap.has_iff s.by_slug row.org_slug).0 slug) v.slugs;
                  phones =
                      IsIndexed-insert phone_of s.by_id s.by_phone id row new
                        ((JsMap.has_iff s.by_phone row.contact_phone).0 phone) v.phones;
                  emails =
                      IsIndexed-insert email_of s.by_id s.by_email id row new
                        ((JsMap.has_iff s.by_email row.contact_email).0 email) v.emails;
                  rows =
                      set-IsRow s.by_id id row v.rows
                        (record { keyed = refl; named = named; mirrors = mirrors });
                }))
      ]

  update_check-ok :
      (patch : UpdateAggregatorPatch) (old : Aggregator) (s : Store) {cid : String} (now : ℕ)
      → update_check platform patch old s ≡ ok cid
      → (check_invariant old.actor_type (or_default patch.role old.role) ≡ none)
        × (taken old.contact_phone (patched platform patch cid now old).contact_phone s.by_phone
            ≡ false)
        × (taken old.contact_email (patched platform patch cid now old).contact_email s.by_email
            ≡ false)
  unfolding update_check patched
  update_check-ok patch old s {cid} now e = (ground arith, ground arith, ground arith)

  update-IsConsistent :
      (s : Store) (id : String) (patch : UpdateAggregatorPatch) (now : ℕ)
      → IsConsistent s
      → IsConsistent (update platform id patch now s).1
  unfolding update index_replace patched
  update-IsConsistent s id patch now v = elim (Option-cases (JsMap.get s.by_id id)) [
    | inl e ↦ rw (e, update) v
    | inr (old, found) ↦ elim (ok_or_err (update_check platform patch old s)) [
      | inl (e, stop) ↦ rw (found, update) (rw stop v)
      | inr (cid, go) ↦ rw (found, update) (rw go (replaced old found cid go))
    ]
  ]
    where
      replaced :
          (old : Aggregator)
          → JsMap.get s.by_id id ≡ some old
          → (cid : String) → update_check platform patch old s ≡ ok cid
          → IsConsistent (index_replace old (patched platform patch cid now old) s)
      replaced old found cid go =
          let (mirrors, phone, email) = update_check-ok patch old s now go in
          let held = v.rows id old found in
          index_replace-IsConsistent s old (patched platform patch cid now old)
            (subst (λ k. JsMap.get s.by_id k ≡ some old) (sym held.keyed) found) refl phone email
            (record {
              keyed = refl;
              named = λ e. held.named (sym held.keyed ∙ e);
              mirrors = mirrors;
            })
            v

  widen-state : (r : StoreResult Aggregator × Store) → (widen platform r).1 ≡ r.1
  widen-state (ok a, s) = refl
  widen-state (err e, s) = refl

  approve-IsConsistent :
      (s : Store) (id by : String) (now : ℕ)
      → IsConsistent s
      → IsConsistent (approve_from_pending platform id by now s).1
  unfolding approve_from_pending
  approve-IsConsistent s id by now v = elim (Option-cases (JsMap.get s.by_id id)) [
    | inl e ↦ rw (e, approve_from_pending) v
    | inr (old, found) ↦ elim (Bool-cases (is_pending old.status)) [
      | inr t ↦ rw (found, approve_from_pending) (rw t v)
      | inl t ↦
          rw (found, approve_from_pending)
            (rw t (
              subst IsConsistent
                (sym (widen-state (update platform id (status_patch active by) now s)))
                (update-IsConsistent s id (status_patch active by) now v)))
    ]
  ]

org-IsConsistent :
    (s : Store) (id org by : String) (now : ℕ)
    → IsConsistent s
    → IsConsistent (update_signalstack_org_id id org by now s).1
unfolding update_signalstack_org_id
org-IsConsistent s id org by now v = elim (Option-cases (JsMap.get s.by_id id)) [
  | inl e ↦ rw (e, update_signalstack_org_id) v
  | inr (old, found) ↦
      (let row : Aggregator = record old {
        signalstack_org_id = some org;
        updated_by = by;
        updated_at = now;
      } in
        let held = v.rows id old found in
        rw (found, update_signalstack_org_id)
          (record {
            slugs = IsIndexed-rewrite slug_of s.by_id s.by_slug id row old found refl v.slugs;
            phones = IsIndexed-rewrite phone_of s.by_id s.by_phone id row old found refl v.phones;
            emails = IsIndexed-rewrite email_of s.by_id s.by_email id row old found refl v.emails;
            rows =
                set-IsRow s.by_id id row v.rows
                  (record { keyed = held.keyed; named = held.named; mirrors = held.mirrors });
          }))
]

delete-IsConsistent :
    (s : Store) (id : String) → IsConsistent s → IsConsistent (delete_by_id id s).1
unfolding delete_by_id
delete-IsConsistent s id v = elim (Option-cases (JsMap.get s.by_id id)) [
  | inl e ↦ rw (e, delete_by_id) v
  | inr (old, found) ↦
      rw (found, delete_by_id)
        (record {
          slugs = IsIndexed-delete slug_of s.by_id s.by_slug id old found v.slugs;
          phones = IsIndexed-delete phone_of s.by_id s.by_phone id old found v.phones;
          emails = IsIndexed-delete email_of s.by_id s.by_email id old found v.emails;
          rows = λ k r e. v.rows k r (ground (arith, JsMap.get-delete s.by_id id k));
        })
]

module _ (platform : Platform) where
  Step-IsConsistent : {s u : Store} → Step platform s u → IsConsistent s → IsConsistent u
  unfolding update_status
  Step-IsConsistent {s} (creates input id now named new e) v =
      subst IsConsistent (sym e) (create-IsConsistent platform s input id now named new v)
  Step-IsConsistent {s} (updates id patch now e) v =
      subst IsConsistent (sym e) (update-IsConsistent platform s id patch now v)
  Step-IsConsistent {s} (changes_status id status by now e) v =
      subst IsConsistent (sym e) (update-IsConsistent platform s id (status_patch status by) now v)
  Step-IsConsistent {s} (approves id by now e) v =
      subst IsConsistent (sym e) (approve-IsConsistent platform s id by now v)
  Step-IsConsistent {s} (records_org id org by now e) v =
      subst IsConsistent (sym e) (org-IsConsistent s id org by now v)
  Step-IsConsistent {s} (deletes id e) v = subst IsConsistent (sym e) (delete-IsConsistent s id v)

  -- Whatever calls are made in whatever order, with fresh ids for new rows, the slug, phone and
  -- email indices hold exactly the texts of the stored rows, each leading to its row, and the role
  -- of a seeker's or a provider's row mirrors its actor type.
  pub Reach-IsConsistent : {s u : Store} → IsConsistent s → Reach platform s u → IsConsistent u
  Reach-IsConsistent v here = v
  Reach-IsConsistent v (next r st) = Step-IsConsistent st (Reach-IsConsistent v r)
