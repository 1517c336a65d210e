-- ===== src/Invites.antt =====
-- The registration-invites store:
-- apps/api/src/services/registration-invites-store/{interface,memory}.ts.
pub mod Unique
pub mod Lifecycle
pub mod Moves
mod Tests
use aggregator_dpg.Prelude.{
  ℕ, suc, String, Bool, true, false, ◌&&◌, Option, none, some, [], ◌++◌, ◌=ₛ◌, if◌then◌else◌, any,
  find,
}
use Prim.Native.String.{◌++◌ as ◌+ₛ◌}
use aggregator_dpg.Prelude.Decimal.{decimal}
use aggregator_dpg.Prelude.JsMap
use aggregator_dpg.Prelude.JsMap.{JsMap}
use aggregator_dpg.Prelude.Result.{Result, ok, err}

pub data RegistrationInviteStatus : Type 0 where
  pending consumed revoked expired : RegistrationInviteStatus

abbrev pub is_pending : RegistrationInviteStatus → Bool
is_pending pending = true
is_pending _ = false

abbrev pub is_consumed : RegistrationInviteStatus → Bool
is_consumed consumed = true
is_consumed _ = false

pub record RegistrationInvite : Type 0 where
  pub jti : String
  pub role : String
  pub parent_org_id : String
  pub email : String
  pub status : RegistrationInviteStatus
  pub expires_at : ℕ
  pub created_by : String
  pub created_at : ℕ
  pub consumed_at : Option ℕ

pub record CreateInviteInput : Type 0 where
  pub parent_org_id : String
  pub email : String
  pub expires_at : ℕ
  pub created_by : String
  pub role : Option String

pub record RefreshInviteInput : Type 0 where
  pub expires_at : ℕ
  pub created_by : String

pub data InviteErrorCode : Type 0 where
  not_found duplicate_pending db_unavailable : InviteErrorCode

pub record InviteStoreError : Type 0 where
  pub code : InviteErrorCode
  pub message : String

abbrev pub InviteStoreResult : Type 0 → Type 0
InviteStoreResult A = Result InviteStoreError A

-- The state of `InMemoryRegistrationInvitesStore`.
pub record Store : Type 0 where
  pub store : JsMap RegistrationInvite
  pub seq : ℕ

abbrev pub empty : Store
empty = record { store = []; seq = 0 }

-- The condition of the duplicate check and of `findPendingByOrgAndEmail`.
abbrev pub is_live : String → String → RegistrationInvite → Bool
is_live org email inv = inv.parent_org_id =ₛ org && inv.email =ₛ email && is_pending inv.status

abbrev or_coordinator : Option String → String
or_coordinator none = "coordinator"
or_coordinator (some role) = role

-- `invite-${++this.seq}`
unfoldable pub invite_jti : ℕ → String
unfolding decimal
invite_jti n = "invite-" +ₛ decimal n

unfoldable pub new_invite : CreateInviteInput → ℕ → ℕ → RegistrationInvite
unfolding invite_jti
new_invite input now seq = record {
  jti = invite_jti seq;
  role = or_coordinator input.role;
  parent_org_id = input.parent_org_id;
  email = input.email;
  status = pending;
  expires_at = input.expires_at;
  created_by = input.created_by;
  created_at = now;
  consumed_at = none;
}

unfoldable pub create : CreateInviteInput → ℕ → Store → InviteStoreResult RegistrationInvite × Store
unfolding new_invite JsMap.set JsMap.values
create input now s =
    if any (is_live input.parent_org_id input.email) (JsMap.values s.store)
    then (err (record { code = duplicate_pending; message = "a live invite already exists" }), s)
    else (let row = new_invite input now (suc s.seq) in
        (ok row, record { store = JsMap.set s.store row.jti row; seq = suc s.seq }))

unfoldable pub find_by_jti : String → Store → InviteStoreResult (Option RegistrationInvite)
unfolding JsMap.get
find_by_jti jti s = ok (JsMap.get s.store jti)

unfoldable pub find_pending_by_org_and_email :
    String → String → Store → InviteStoreResult (Option RegistrationInvite)
unfolding JsMap.values
find_pending_by_org_and_email org email s = ok (find (is_live org email) (JsMap.values s.store))

-- A write to the row of `jti`, where the row has the status that is asked for.
unfoldable pub swap :
    (RegistrationInviteStatus → Bool)
    → (RegistrationInvite → RegistrationInvite)
    → String
    → Store
    → Option RegistrationInvite × Store
unfolding JsMap.get JsMap.set
swap asked f jti s = elim (JsMap.get s.store jti) [
  | none ↦ (none, s)
  | some row ↦
      if asked row.status
      then (some (f row), record s { store = JsMap.set s.store jti (f row) })
      else (none, s)
]

abbrev pub renew : RefreshInviteInput → RegistrationInvite → RegistrationInvite
renew input row = record row { expires_at = input.expires_at; created_by = input.created_by }

unfoldable pub refresh :
    String → RefreshInviteInput → Store → InviteStoreResult RegistrationInvite × Store
unfolding swap
refresh jti input s =
    let (found, s') = swap is_pending (renew input) jti s in
    elim found [
      | none ↦ (err (record { code = not_found; message = jti }), s')
      | some row ↦ (ok row, s')
    ]

abbrev pub give_back : RegistrationInvite → RegistrationInvite
give_back row = record row { status = pending; consumed_at = none }

unfoldable pub consume : String → ℕ → Store → InviteStoreResult (Option RegistrationInvite) × Store
unfolding swap
consume jti now s =
    let (found, s') =
      swap is_pending (λ row. record row { status = consumed; consumed_at = some now }) jti s in
    (ok found, s')

unfoldable pub revoke : String → Store → InviteStoreResult (Option RegistrationInvite) × Store
unfolding swap
revoke jti s =
    let (found, s') = swap is_pending (λ row. record row { status = revoked }) jti s in
    (ok found, s')

unfoldable pub release : String → Store → InviteStoreResult (Option RegistrationInvite) × Store
unfolding swap
release jti s = let (found, s') = swap is_consumed give_back jti s in (ok found, s')
