-- ===== src/Aggregators/Methods.antt =====
-- The methods of `InMemoryAggregatorStore`: apps/api/src/services/aggregator-store/memory.ts.
use aggregator_dpg.Prelude.{
  ℕ, String, Bool, not, ◌&&◌, Option, none, some, List, [], ◌=ₛ◌, if◌then◌else◌, option_eq, keep,
}
use aggregator_dpg.Prelude.Json.{obj, end}
use aggregator_dpg.Prelude.JsMap
use aggregator_dpg.Prelude.JsMap.{JsMap}
use aggregator_dpg.Prelude.Result.{Result, ok, err}
use aggregator_dpg.Primitives.Aggregator.{
  AggregatorStatus, pending, active, ActorType, aggregator, seeker, provider, is_pending,
}
use aggregator_dpg.Primitives.Contact.{Platform, contact_id}
use aggregator_dpg.Aggregators.{
  BecknContact, Aggregator, CreateAggregatorInput, UpdateAggregatorPatch, StoreErrorCode, not_found,
  duplicate_slug, duplicate_phone, duplicate_email, check_violation, StoreResult, Store,
}

-- `x ?? d`, and `patch.x !== undefined ? patch.x : old`.
abbrev pub or_default {ℓ} : {A : Type ℓ} → Option A → A → A
or_default none d = d
or_default (some x) d = x

unfoldable pub check_invariant : ActorType → Option String → Option StoreErrorCode
check_invariant aggregator role = none
check_invariant seeker role = if option_eq role (some "seeker") then none else some check_violation
check_invariant provider role =
    if option_eq role (some "provider") then none else some check_violation

unfoldable pub index_insert : Aggregator → Store → Store
unfolding JsMap.set
index_insert row s = record {
  by_id = JsMap.set s.by_id row.id row;
  by_slug = JsMap.set s.by_slug row.org_slug row.id;
  by_phone = JsMap.set s.by_phone row.contact_phone row.id;
  by_email = JsMap.set s.by_email row.contact_email row.id;
}

-- `if (prev !== next) { index.delete(prev); index.set(next, id); }`
unfoldable pub rekey : String → String → String → JsMap String → JsMap String
unfolding JsMap.delete JsMap.set
rekey prev new id index = if prev =ₛ new then index else JsMap.set (JsMap.delete index prev) new id

unfoldable pub index_replace : Aggregator → Aggregator → Store → Store
unfolding rekey JsMap.set
index_replace prev new s = record s {
  by_id = JsMap.set s.by_id new.id new;
  by_phone = rekey prev.contact_phone new.contact_phone new.id s.by_phone;
  by_email = rekey prev.contact_email new.contact_email new.id s.by_email;
}

-- `id ? (this.byId.get(id) ?? null) : null`
unfoldable pub follow : JsMap String → String → Store → Option Aggregator
unfolding JsMap.get
follow index key s = elim (JsMap.get index key) [
  | none ↦ none
  | some id ↦ if id =ₛ "" then none else JsMap.get s.by_id id
]

unfoldable pub find_by_id : String → Store → StoreResult (Option Aggregator)
unfolding JsMap.get
find_by_id id s = ok (JsMap.get s.by_id id)

unfoldable pub find_by_slug : String → Store → StoreResult (Option Aggregator)
unfolding follow
find_by_slug slug s = ok (follow s.by_slug slug s)

unfoldable pub find_by_contact_phone : String → Store → StoreResult (Option Aggregator)
unfolding follow
find_by_contact_phone phone s = ok (follow s.by_phone phone s)

unfoldable pub find_by_parent_org_id : String → Store → StoreResult (List Aggregator)
unfolding JsMap.values
find_by_parent_org_id org s =
    ok (keep (λ r. option_eq r.parent_org_id (some org)) (JsMap.values s.by_id))

unfoldable pub update_signalstack_org_id :
    String → String → String → ℕ → Store → StoreResult Aggregator × Store
unfolding JsMap.get JsMap.set
update_signalstack_org_id id org by now s = elim (JsMap.get s.by_id id) [
  | none ↦ (err not_found, s)
  | some existing ↦
      (let row = record existing {
        signalstack_org_id = some org;
        updated_by = by;
        updated_at = now;
      } in
        (ok row, record s { by_id = JsMap.set s.by_id id row }))
]

unfoldable pub delete_by_id : String → Store → StoreResult (Unit {0}) × Store
unfolding JsMap.get JsMap.delete
delete_by_id id s = elim (JsMap.get s.by_id id) [
  | none ↦ (err not_found, s)
  | some row ↦ (
    ok tt,
    record {
      by_id = JsMap.delete s.by_id id;
      by_slug = JsMap.delete s.by_slug row.org_slug;
      by_phone = JsMap.delete s.by_phone row.contact_phone;
      by_email = JsMap.delete s.by_email row.contact_email;
    },
  )
]

abbrev pub taken : String → String → JsMap String → Bool
taken prev new index = not (new =ₛ prev) && JsMap.has index new

-- The status-only patch of `updateStatus`.
abbrev pub status_patch : AggregatorStatus → String → UpdateAggregatorPatch
status_patch status by = record {
  name = none;
  role = none;
  url = none;
  contact = none;
  locations = none;
  status = some status;
  parent_org_id = none;
  rejected_at = none;
  updated_by = by;
}

module _ (platform : Platform) where
  open platform use {to_lower_case}

  unfoldable pub find_by_contact_email : String → Store → StoreResult (Option Aggregator)
  unfolding follow
  find_by_contact_email email s = ok (follow s.by_email (to_lower_case email) s)

  -- `safeContactId`, and the test `!cid` of its result.
  unfoldable pub safe_contact_id : String → String → Option String
  unfolding contact_id
  safe_contact_id email phone = elim (contact_id platform email (some phone)) [
    | none ↦ none
    | some cid ↦ if cid =ₛ "" then none else some cid
  ]

  unfoldable pub new_row : CreateAggregatorInput → String → String → ℕ → Aggregator
  new_row input id cid now = record {
    id = id;
    org_slug = input.org_slug;
    actor_type = input.actor_type;
    name = input.name;
    role = input.role;
    url = input.url;
    contact_id = cid;
    contact = input.contact;
    contact_phone = input.contact.phone;
    contact_email = to_lower_case input.contact.email;
    locations = or_default input.locations [];
    consent = input.consent;
    profile = or_default input.profile (obj end);
    profile_ref = input.profile_ref;
    status = pending;
    created_by = input.created_by;
    updated_by = input.updated_by;
    created_at = now;
    updated_at = now;
    signalstack_org_id = none;
    parent_org_id = input.parent_org_id;
    invite_email = input.invite_email;
    rejected_at = none;
  }

  -- The checks that `create` makes, up to the first that fails.
  unfoldable pub create_check : CreateAggregatorInput → Store → Result StoreErrorCode String
  unfolding check_invariant safe_contact_id JsMap.has
  create_check input s = elim (check_invariant input.actor_type input.role) [
    | some e ↦ err e
    | none ↦
        if JsMap.has s.by_slug input.org_slug
        then err duplicate_slug
        else if JsMap.has s.by_phone input.contact.phone
        then err duplicate_phone
        else if JsMap.has s.by_email (to_lower_case input.contact.email)
        then err duplicate_email
        else (elim (safe_contact_id (to_lower_case input.contact.email) input.contact.phone) [
          | none ↦ err check_violation
          | some cid ↦ ok cid
        ])
  ]

  unfoldable pub create :
      CreateAggregatorInput → String → ℕ → Store → StoreResult Aggregator × Store
  unfolding create_check new_row index_insert
  create input id now s = elim (create_check input s) [
    | err e ↦ (err e, s)
    | ok cid ↦ (let row = new_row input id cid now in (ok row, index_insert row s))
  ]

  -- The contact after a patch, with its phone and its email in lower case.
  unfoldable pub next_contact :
      UpdateAggregatorPatch → Aggregator → BecknContact × (String × String)
  next_contact patch existing = elim patch.contact [
    | none ↦ (existing.contact, (existing.contact_phone, existing.contact_email))
    | some contact ↦ (contact, (contact.phone, to_lower_case contact.email))
  ]

  -- The checks that `update` makes, up to the first that fails.
  unfoldable pub update_check :
      UpdateAggregatorPatch → Aggregator → Store → Result StoreErrorCode String
  unfolding check_invariant safe_contact_id next_contact JsMap.has
  update_check patch existing s =
      let (contact, (phone, email)) = next_contact patch existing in
      elim (check_invariant existing.actor_type (or_default patch.role existing.role)) [
        | some e ↦ err e
        | none ↦
            if taken existing.contact_phone phone s.by_phone
            then err duplicate_phone
            else if taken existing.contact_email email s.by_email
            then err duplicate_email
            else (elim (safe_contact_id email phone) [
              | none ↦ err check_violation
              | some cid ↦ ok cid
            ])
      ]

  unfoldable pub patched : UpdateAggregatorPatch → String → ℕ → Aggregator → Aggregator
  unfolding next_contact
  patched patch cid now existing =
      let (contact, (phone, email)) = next_contact patch existing in
      record existing {
        name = or_default patch.name existing.name;
        role = or_default patch.role existing.role;
        url = or_default patch.url existing.url;
        contact_id = cid;
        contact = contact;
        contact_phone = phone;
        contact_email = email;
        locations = or_default patch.locations existing.locations;
        status = or_default patch.status existing.status;
        parent_org_id = or_default patch.parent_org_id existing.parent_org_id;
        rejected_at = or_default patch.rejected_at existing.rejected_at;
        updated_by = patch.updated_by;
        updated_at = now;
      }

  unfoldable pub update :
      String → UpdateAggregatorPatch → ℕ → Store → StoreResult Aggregator × Store
  unfolding update_check patched index_replace JsMap.get
  update id patch now s = elim (JsMap.get s.by_id id) [
    | none ↦ (err not_found, s)
    | some existing ↦ elim (update_check patch existing s) [
      | err e ↦ (err e, s)
      | ok cid ↦
          (let row = patched patch cid now existing in (ok row, index_replace existing row s))
    ]
  ]

  unfoldable pub update_status :
      String → AggregatorStatus → String → ℕ → Store → StoreResult Aggregator × Store
  unfolding update
  update_status id status by now s = update id (status_patch status by) now s

  -- `await`ing `update` widens its result to one that may be null.
  abbrev pub widen : StoreResult Aggregator × Store → StoreResult (Option Aggregator) × Store
  widen (err e, s) = (err e, s)
  widen (ok row, s) = (ok (some row), s)

  unfoldable pub approve_from_pending :
      String → String → ℕ → Store → StoreResult (Option Aggregator) × Store
  unfolding update JsMap.get
  approve_from_pending id by now s = elim (JsMap.get s.by_id id) [
    | none ↦ (ok none, s)
    | some existing ↦
        if is_pending existing.status
        then widen (update id (status_patch active by) now s)
        else (ok none, s)
  ]
