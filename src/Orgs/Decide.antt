-- ===== src/Orgs/Decide.antt =====
-- The decision on an organisation is made once.
use aggregator_dpg.Prelude.{
  ℕ, String, ◌≡◌, refl, ap, ◌∙◌, ◌≢◌, inl, inr, false, Option, none, some, arith, eq_iff, eq_refl,
  Bool-cases, Option-cases,
}
use aggregator_dpg.Prelude.JsMap
use aggregator_dpg.Prelude.Result.{Result, ok}
use aggregator_dpg.Primitives.Aggregator.{AggregatorStatus, pending, active, inactive, is_pending}
use aggregator_dpg.Orgs.{
  AggregatorOrg, OrgErrorCode, Store, decided, cas_from_pending, approve, reject,
}

-- A call of `approve` or of `reject`.
pub data Decision : Type 0 where
  approves rejects : Decision

abbrev pub decide :
    Decision → String → ℕ → Store → Result OrgErrorCode (Option AggregatorOrg) × Store
decide approves id now s = approve id now s
decide rejects id now s = reject id now s

abbrev pub outcome : Decision → AggregatorStatus
outcome approves = active
outcome rejects = inactive

-- When the decision on a pending organisation was made a rejection.
abbrev pub stamp : Decision → ℕ → Option ℕ → Option ℕ
stamp approves now before = before
stamp rejects now before = some now

decide-cas :
    (d : Decision) (id : String) (now : ℕ) (s : Store)
    → decide d id now s ≡ cas_from_pending id (outcome d) now s
unfolding approve reject
decide-cas approves id now s = refl
decide-cas rejects id now s = refl

cas_pending :
    (id : String) (status : AggregatorStatus) (now : ℕ) (s : Store) (row : AggregatorOrg)
    → JsMap.get s.by_id id ≡ some row
    → row.status ≡ pending
    → cas_from_pending id status now s ≡ (
      ok (some (decided status now row)),
      record { by_id = JsMap.set s.by_id id (decided status now row) },
    )
unfolding cas_from_pending
cas_pending id status now s row found live = rw (found, cas_from_pending) (rw live refl)

cas_settled :
    (id : String) (status : AggregatorStatus) (now : ℕ) (s : Store) (row : AggregatorOrg)
    → JsMap.get s.by_id id ≡ some row
    → is_pending row.status ≡ false
    → cas_from_pending id status now s ≡ (ok none, s)
unfolding cas_from_pending
cas_settled id status now s row found done = rw (found, cas_from_pending) (rw done refl)

stamp_lem :
    (d : Decision) (now : ℕ) (row : AggregatorOrg)
    → (decided (outcome d) now row).rejected_at ≡ stamp d now row.rejected_at
unfolding decided
stamp_lem approves now row = refl
stamp_lem rejects now row = refl

not_pending : (d : Decision) → is_pending (outcome d) ≡ false
not_pending approves = refl
not_pending rejects = refl

-- A decision on a pending organisation returns the row it stores, with the decision's status and
-- the time of the call; a rejection stamps `rejectedAt` and an approval leaves it. A second
-- decision of either kind on what the first one left is answered null and changes nothing.
pub decide_once :
    (d again : Decision) (id : String) (now later : ℕ) (s : Store) (row : AggregatorOrg)
    → JsMap.get s.by_id id ≡ some row
    → row.status ≡ pending
    → (o : AggregatorOrg) × ((decide d id now s).0 ≡ ok (some o))
      × (JsMap.get (decide d id now s).1.by_id id ≡ some o)
      × (o.status ≡ outcome d)
      × (o.updated_at ≡ now)
      × (o.rejected_at ≡ stamp d now row.rejected_at)
      × (decide again id later (decide d id now s).1 ≡ (ok none, (decide d id now s).1))
unfolding decided
decide_once d again id now later s row found live =
    let o = decided (outcome d) now row in
    let first = decide-cas d id now s ∙ cas_pending id (outcome d) now s row found live in
    let held : JsMap.get (JsMap.set s.by_id id o) id ≡ some o =
      rw (JsMap.get-set, eq_refl id) refl in
    (
      o,
      ap (λ r. r.0) first,
      rw (ap (λ r. r.1) first) held,
      refl,
      refl,
      stamp_lem d now row,
      rw (ap (λ r. r.1) first) (
          decide-cas again id later _
          ∙ cas_settled id (outcome again) later _ o held (not_pending d)),
    )

cas-others :
    (id k : String) (status : AggregatorStatus) (now : ℕ) (s : Store)
    → k ≢ id
    → JsMap.get (cas_from_pending id status now s).1.by_id k ≡ JsMap.get s.by_id k
unfolding cas_from_pending
cas-others id k status now s ne = elim (Option-cases (JsMap.get s.by_id id)) [
  | inl e ↦ rw (e, cas_from_pending) refl
  | inr (row, e) ↦ elim (Bool-cases (is_pending row.status)) [
    | inl t ↦
        rw (e, cas_from_pending)
          (rw t (ground (arith, JsMap.get-set s.by_id id k (decided status now row), eq_iff id k)))
    | inr t ↦ rw (e, cas_from_pending) (rw t refl)
  ]
]

-- A decision on one organisation leaves every other one as it was.
pub decide-others :
    (d : Decision) (id k : String) (now : ℕ) (s : Store)
    → k ≢ id
    → JsMap.get (decide d id now s).1.by_id k ≡ JsMap.get s.by_id k
decide-others d id k now s ne = rw (decide-cas d id now s) (cas-others id k (outcome d) now s ne)
