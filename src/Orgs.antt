-- ===== src/Orgs.antt =====
-- The aggregator-org store:
-- apps/api/src/services/aggregator-org-store/{interface,memory}.ts.
pub mod Unique
pub mod Decide
mod Tests
use aggregator_dpg.Prelude.{
  ℕ, String, Bool, true, false, ◌&&◌, Option, none, some, List, [], ◌∷◌, ltb, leb, ◌=ₛ◌,
  if◌then◌else◌, option_eq, keep, any, find,
}
use aggregator_dpg.Prelude.Json.{Json, obj, end}
use aggregator_dpg.Prelude.JsMap
use aggregator_dpg.Prelude.JsMap.{JsMap}
use aggregator_dpg.Prelude.Result.{Result, ok, err}
use aggregator_dpg.Primitives.Aggregator.{
  AggregatorStatus, pending, active, inactive, is_pending, is_active, is_inactive,
}
use aggregator_dpg.Primitives.Contact.{Platform, contact_id}

-- `NON_TERMINAL.has(status)`
abbrev pub non_terminal : AggregatorStatus → Bool
non_terminal pending = true
non_terminal active = true
non_terminal _ = false

pub record AggregatorOrg : Type 0 where
  pub id : String
  pub slug : String
  pub display_name : String
  pub state : Option String
  pub contact_id : String
  pub owner_email : String
  pub owner_phone : Option String
  pub owner_name : Option String
  pub owner_kc_sub : Option String
  pub kc_group_id : Option String
  pub profile : Json
  pub profile_ref : Option String
  pub status : AggregatorStatus
  pub created_at : ℕ
  pub updated_at : ℕ
  pub rejected_at : Option ℕ

-- A field that may be absent or null is an `Option`, `none` for both where the code joins them.
pub record CreateOrgInput : Type 0 where
  pub slug : String
  pub display_name : String
  pub state : Option String
  pub owner_email : String
  pub owner_phone : Option String
  pub owner_name : Option String
  pub owner_kc_sub : Option String
  pub kc_group_id : Option String
  pub profile : Option Json
  pub profile_ref : Option String

-- `none` is undefined, `some none` is null.
pub record UpdateOrgPatch : Type 0 where
  pub display_name : Option String
  pub state : Option (Option String)
  pub owner_kc_sub : Option (Option String)
  pub kc_group_id : Option (Option String)
  pub status : Option AggregatorStatus
  pub rejected_at : Option (Option ℕ)

pub data OrgErrorCode : Type 0 where
  not_found duplicate_slug duplicate_name duplicate_email duplicate_phone db_unavailable :
      OrgErrorCode

-- Messages are for logs; the code is what callers read.
abbrev pub OrgStoreResult : Type 0 → Type 0
OrgStoreResult A = Result OrgErrorCode A

-- The state of `InMemoryAggregatorOrgStore`.
pub record Store : Type 0 where
  pub by_id : JsMap AggregatorOrg

abbrev pub empty : Store
empty = record { by_id = [] }

-- `x ?? d`, and `patch.x !== undefined ? patch.x : old`.
abbrev pub or_default {ℓ} : {A : Type ℓ} → Option A → A → A
or_default none d = d
or_default (some x) d = x

-- `.sort((a, b) => a.createdAt.getTime() - b.createdAt.getTime())`, which is stable.
unfoldable pub insert_oldest : AggregatorOrg → List AggregatorOrg → List AggregatorOrg
insert_oldest o [] = o ∷ []
insert_oldest o (x ∷ xs) =
    let rest = insert_oldest o xs in if leb o.created_at x.created_at then o ∷ x ∷ xs else x ∷ rest

unfoldable pub sort_oldest : List AggregatorOrg → List AggregatorOrg
unfolding insert_oldest
sort_oldest [] = []
sort_oldest (x ∷ xs) = insert_oldest x (sort_oldest xs)

unfoldable pub find_by_id : String → Store → OrgStoreResult (Option AggregatorOrg)
unfolding JsMap.get
find_by_id id s = ok (JsMap.get s.by_id id)

unfoldable pub find_by_slug : String → Store → OrgStoreResult (Option AggregatorOrg)
unfolding JsMap.values
find_by_slug slug s = ok (find (λ o. o.slug =ₛ slug) (JsMap.values s.by_id))

unfoldable pub find_by_owner_phone : String → Store → OrgStoreResult (Option AggregatorOrg)
unfolding JsMap.values
find_by_owner_phone phone s =
    ok (find (λ o. option_eq o.owner_phone (some phone)) (JsMap.values s.by_id))

unfoldable pub list_active : Store → OrgStoreResult (List AggregatorOrg)
unfolding sort_oldest JsMap.values
list_active s = ok (sort_oldest (keep (λ o. is_active o.status) (JsMap.values s.by_id)))

abbrev pub updated_before : Option ℕ → AggregatorOrg → Bool
updated_before none o = true
updated_before (some before) o = ltb o.updated_at before

unfoldable pub list_pending : Option ℕ → Store → OrgStoreResult (List AggregatorOrg)
unfolding sort_oldest JsMap.values
list_pending before s = ok (
    sort_oldest
      (keep (updated_before before) (keep (λ o. is_pending o.status) (JsMap.values s.by_id))))

unfoldable pub delete_by_id : String → Store → OrgStoreResult (Unit {0}) × Store
unfolding JsMap.delete
delete_by_id id s = (ok tt, record { by_id = JsMap.delete s.by_id id })

unfoldable pub patched : UpdateOrgPatch → ℕ → AggregatorOrg → AggregatorOrg
patched patch now existing = record existing {
  display_name = or_default patch.display_name existing.display_name;
  state = or_default patch.state existing.state;
  owner_kc_sub = or_default patch.owner_kc_sub existing.owner_kc_sub;
  kc_group_id = or_default patch.kc_group_id existing.kc_group_id;
  status = or_default patch.status existing.status;
  rejected_at = or_default patch.rejected_at existing.rejected_at;
  updated_at = now;
}

unfoldable pub update : String → UpdateOrgPatch → ℕ → Store → OrgStoreResult AggregatorOrg × Store
unfolding patched JsMap.get JsMap.set
update id patch now s = elim (JsMap.get s.by_id id) [
  | none ↦ (err not_found, s)
  | some existing ↦
      (let row = patched patch now existing in
        (ok row, record { by_id = JsMap.set s.by_id id row }))
]

-- The row that `casFromPending` writes: `rejected_at` is stamped on a rejection only.
unfoldable pub decided : AggregatorStatus → ℕ → AggregatorOrg → AggregatorOrg
decided next now existing = record existing {
  status = next;
  updated_at = now;
  rejected_at = if is_inactive next then some now else existing.rejected_at;
}

unfoldable pub cas_from_pending :
    String → AggregatorStatus → ℕ → Store → OrgStoreResult (Option AggregatorOrg) × Store
unfolding decided JsMap.get JsMap.set
cas_from_pending id next now s = elim (JsMap.get s.by_id id) [
  | none ↦ (err not_found, s)
  | some existing ↦
      if is_pending existing.status
      then (let row = decided next now existing in
          (ok (some row), record { by_id = JsMap.set s.by_id id row }))
      else (ok none, s)
]

unfoldable pub approve : String → ℕ → Store → OrgStoreResult (Option AggregatorOrg) × Store
unfolding cas_from_pending
approve id now s = cas_from_pending id active now s

unfoldable pub reject : String → ℕ → Store → OrgStoreResult (Option AggregatorOrg) × Store
unfolding cas_from_pending
reject id now s = cas_from_pending id inactive now s

module _ (platform : Platform) where
  open platform use {trim, to_lower_case}

  abbrev pub name_key : String → String
  name_key name = to_lower_case (trim name)

  unfoldable pub find_by_owner_email : String → Store → OrgStoreResult (Option AggregatorOrg)
  unfolding JsMap.values
  find_by_owner_email email s =
      ok (find (λ o. o.owner_email =ₛ to_lower_case email) (JsMap.values s.by_id))

  -- `input.ownerName?.trim() ? input.ownerName : null`
  abbrev pub named : Option String → Option String
  named none = none
  named (some name) = if trim name =ₛ "" then none else some name

  unfoldable pub new_org : CreateOrgInput → String → String → ℕ → AggregatorOrg
  new_org input id contact now = record {
    id = id;
    slug = input.slug;
    display_name = input.display_name;
    state = input.state;
    contact_id = contact;
    owner_email = to_lower_case input.owner_email;
    owner_phone = input.owner_phone;
    owner_name = named input.owner_name;
    owner_kc_sub = input.owner_kc_sub;
    kc_group_id = input.kc_group_id;
    profile = or_default input.profile (obj end);
    profile_ref = input.profile_ref;
    status = pending;
    created_at = now;
    updated_at = now;
    rejected_at = none;
  }

  abbrev pub takes_slug : String → AggregatorOrg → Bool
  takes_slug slug o = o.slug =ₛ slug && non_terminal o.status

  abbrev pub takes_name : String → AggregatorOrg → Bool
  takes_name key o = name_key o.display_name =ₛ key && non_terminal o.status

  unfoldable pub create : CreateOrgInput → String → ℕ → Store → OrgStoreResult AggregatorOrg × Store
  unfolding new_org contact_id JsMap.set JsMap.values
  create input id now s =
      if any (takes_slug input.slug) (JsMap.values s.by_id)
      then (err duplicate_slug, s)
      else if any (takes_name (name_key input.display_name)) (JsMap.values s.by_id)
      then (err duplicate_name, s)
      else (elim (contact_id platform input.owner_email input.owner_phone) [
        | none ↦ (err db_unavailable, s)
        | some contact ↦
            (let row = new_org input id contact now in
              (ok row, record { by_id = JsMap.set s.by_id id row }))
      ])
