-- ===== src/Aggregators.antt =====
-- The aggregator store: apps/api/src/services/aggregator-store/{interface,memory}.ts. The clock
-- and the id that `randomUUID` makes are arguments of the calls.
pub mod Methods
pub mod Indices
pub mod Find
pub mod Listing
pub mod Approval
mod Tests
use aggregator_dpg.Prelude.{ℕ, String, Option, List, []}
use aggregator_dpg.Prelude.Json.{Json}
use aggregator_dpg.Prelude.JsMap.{JsMap}
use aggregator_dpg.Prelude.Result.{Result}
use aggregator_dpg.Primitives.Aggregator.{AggregatorStatus, ActorType}

-- `BecknContact` of packages/shared-primitives/src/beckn/index.ts.
pub record BecknContact : Type 0 where
  pub name : String
  pub phone : String
  pub email : String
  pub alternate_phone : Option String
  pub company : Option String
  pub gst_number : Option String

-- `type` is a keyword: the role is `role`.
pub record Aggregator : Type 0 where
  pub id : String
  pub org_slug : String
  pub actor_type : ActorType
  pub name : String
  pub role : Option String
  pub url : Option String
  pub contact_id : String
  pub contact : BecknContact
  pub contact_phone : String
  pub contact_email : String
  pub locations : List Json
  pub consent : Json
  pub profile : Json
  pub profile_ref : Option String
  pub status : AggregatorStatus
  pub created_by : String
  pub updated_by : String
  pub created_at : ℕ
  pub updated_at : ℕ
  pub signalstack_org_id : Option String
  pub parent_org_id : Option String
  pub invite_email : Option String
  pub rejected_at : Option ℕ

pub record CreateAggregatorInput : Type 0 where
  pub org_slug : String
  pub actor_type : ActorType
  pub name : String
  pub role : Option String
  pub url : Option String
  pub contact : BecknContact
  pub locations : Option (List Json)
  pub consent : Json
  pub created_by : String
  pub updated_by : String
  pub parent_org_id : Option String
  pub invite_email : Option String
  pub profile : Option Json
  pub profile_ref : Option String

-- In a field of two options, `none` is undefined and `some none` is null.
pub record UpdateAggregatorPatch : Type 0 where
  pub name : Option String
  pub role : Option (Option String)
  pub url : Option (Option String)
  pub contact : Option BecknContact
  pub locations : Option (List Json)
  pub status : Option AggregatorStatus
  pub parent_org_id : Option (Option String)
  pub rejected_at : Option (Option ℕ)
  pub updated_by : String

-- An integer, as a caller may pass for a limit or an offset.
pub data ℤ : Type 0 where
  pos : ℕ → ℤ
  negsuc : ℕ → ℤ

pub record ListAggregatorsFilter : Type 0 where
  pub limit : Option ℤ
  pub offset : Option ℤ
  pub status : Option AggregatorStatus
  pub actor_type : Option ActorType
  pub updated_before : Option ℕ

pub record ListAggregatorsPage : Type 0 where
  pub rows : List Aggregator
  pub total : ℕ

pub data StoreErrorCode : Type 0 where
  not_found duplicate_slug duplicate_phone duplicate_email duplicate check_violation
        db_unavailable :
      StoreErrorCode

-- The message of an error is for logs; callers read the code.
abbrev pub StoreResult : Type 0 → Type 0
StoreResult A = Result StoreErrorCode A

-- The four maps of `InMemoryAggregatorStore`.
pub record Store : Type 0 where
  pub by_id : JsMap Aggregator
  pub by_slug : JsMap String
  pub by_phone : JsMap String
  pub by_email : JsMap String

abbrev pub empty : Store
empty = record { by_id = []; by_slug = []; by_phone = []; by_email = [] }
