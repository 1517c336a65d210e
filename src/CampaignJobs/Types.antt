-- ===== src/CampaignJobs/Types.antt =====
-- The data model of the campaign job store: apps/api/src/services/campaign-job-store/interface.ts
-- and the two row types of memory.ts. A `Date` is a number of milliseconds.
use aggregator_dpg.Prelude.{ℕ, String, Bool, Option, List, [], ◌∷◌, ◌++◌, ◌==◌, any}
use aggregator_dpg.Prelude.Json.{Json}
use aggregator_dpg.Prelude.JsMap.{JsMap}

pub data CampaignChannel : Type 0 where
  export email voice : CampaignChannel

pub data CampaignJobStatus : Type 0 where
  queued processing partial completed failed : CampaignJobStatus

pub data CampaignJobItemStatus : Type 0 where
  pending resolved submitted sent : CampaignJobItemStatus
  skipped_not_owned skipped_no_contact duplicate_active failed : CampaignJobItemStatus

-- `===` on the string unions, by the position in the union.
abbrev channel_code : CampaignChannel → ℕ
channel_code export = 0
channel_code email = 1
channel_code voice = 2

abbrev pub channel_eq : CampaignChannel → CampaignChannel → Bool
channel_eq a b = channel_code a == channel_code b

abbrev job_status_code : CampaignJobStatus → ℕ
job_status_code queued = 0
job_status_code processing = 1
job_status_code partial = 2
job_status_code completed = 3
job_status_code CampaignJobStatus.failed = 4

abbrev pub job_status_eq : CampaignJobStatus → CampaignJobStatus → Bool
job_status_eq a b = job_status_code a == job_status_code b

abbrev item_status_code : CampaignJobItemStatus → ℕ
item_status_code pending = 0
item_status_code resolved = 1
item_status_code submitted = 2
item_status_code sent = 3
item_status_code skipped_not_owned = 4
item_status_code skipped_no_contact = 5
item_status_code duplicate_active = 6
item_status_code CampaignJobItemStatus.failed = 7

abbrev pub item_status_eq : CampaignJobItemStatus → CampaignJobItemStatus → Bool
item_status_eq a b = item_status_code a == item_status_code b

abbrev pub success_item_statuses : List CampaignJobItemStatus
success_item_statuses = resolved ∷ submitted ∷ sent ∷ []

abbrev pub skipped_item_statuses : List CampaignJobItemStatus
skipped_item_statuses = skipped_not_owned ∷ skipped_no_contact ∷ duplicate_active ∷ []

-- The statuses that a retried job never acts on again: `resolved` is not one of them.
abbrev pub terminal_item_statuses : List CampaignJobItemStatus
terminal_item_statuses =
    submitted ∷ sent ∷ (skipped_item_statuses ++ CampaignJobItemStatus.failed ∷ [])

abbrev pub active_dedup_item_statuses : List CampaignJobItemStatus
active_dedup_item_statuses = pending ∷ resolved ∷ submitted ∷ []

abbrev pub active_job_statuses : List CampaignJobStatus
active_job_statuses = queued ∷ processing ∷ []

abbrev pub terminal_job_statuses : List CampaignJobStatus
terminal_job_statuses = partial ∷ completed ∷ CampaignJobStatus.failed ∷ []

-- `statuses.includes(s)`, and `has` of the set made from the list.
abbrev pub includes_item : List CampaignJobItemStatus → CampaignJobItemStatus → Bool
includes_item statuses s = any (λ t. item_status_eq t s) statuses

abbrev pub includes_job : List CampaignJobStatus → CampaignJobStatus → Bool
includes_job statuses s = any (λ t. job_status_eq t s) statuses

pub record CampaignMetadataPair : Type 0 where
  pub key : String
  pub value : String

-- `action` is null for export.
pub record CreateJobItemInput : Type 0 where
  pub item_id : String
  pub action : Option String

pub record CreateJobInput : Type 0 where
  pub aggregator_id : String
  pub signalstack_org_id : String
  pub channel : CampaignChannel
  pub metadata : List CampaignMetadataPair
  pub content : Json
  pub requested_by : String
  pub request_id : Option String
  pub idempotency_key : Option String
  pub items : List CreateJobItemInput

pub record JobRecord : Type 0 where
  pub id : String
  pub channel : CampaignChannel
  pub status : CampaignJobStatus
  pub signalstack_org_id : String

pub record JobStatusCounts : Type 0 where
  pub total : ℕ
  pub pending : ℕ
  pub resolved : ℕ
  pub submitted : ℕ
  pub sent : ℕ
  pub skipped_not_owned : ℕ
  pub skipped_no_contact : ℕ
  pub duplicate_active : ℕ
  pub failed : ℕ

-- `JobItemView`; the `ItemRow` of memory.ts has the same fields, and a view is a copy of it.
pub record ItemRow : Type 0 where
  pub item_id : String
  pub action : Option String
  pub status : CampaignJobItemStatus
  pub provider_ref : Option String
  pub provider_batch_ref : Option String
  pub skip_reason : Option String
  pub error_reason : Option String

pub record JobRow : Type 0 where
  pub id : String
  pub seq : ℕ
  pub aggregator_id : String
  pub signalstack_org_id : String
  pub channel : CampaignChannel
  pub status : CampaignJobStatus
  pub idempotency_key : Option String
  pub metadata : List CampaignMetadataPair
  pub content : Json
  pub requested_by : String
  pub request_id : Option String
  pub error_reason : Option String
  pub last_progress_at : Option ℕ
  pub created_at : ℕ
  pub updated_at : ℕ
  pub provider_response : Json

pub record JobView : Type 0 where
  pub id : String
  pub channel : CampaignChannel
  pub status : CampaignJobStatus
  pub metadata : List CampaignMetadataPair
  pub content : Json
  pub error_reason : Option String
  pub created_at : ℕ
  pub updated_at : ℕ
  pub counts : JobStatusCounts
  pub provider_response : Json

pub record ProcessingJobView : Type 0 where
  pub id : String
  pub channel : CampaignChannel
  pub status : CampaignJobStatus
  pub signalstack_org_id : String
  pub metadata : List CampaignMetadataPair
  pub content : Json
  pub requested_by : String
  pub request_id : Option String
  pub notified_at : Option ℕ
  pub items : List ItemRow

-- What `Number(options.cursor)` gives: a sequence number, or NaN for a text that is none. An absent
-- or empty cursor is `none`.
pub data Cursor : Type 0 where
  at : ℕ → Cursor
  not_a_number : Cursor

pub record ListJobsOptions : Type 0 where
  pub channel : Option CampaignChannel
  pub limit : Option ℕ
  pub cursor : Option Cursor

pub record ListJobsResult : Type 0 where
  pub jobs : List JobView
  pub next_cursor : Option Cursor

pub data StoreErrorCode : Type 0 where
  not_found db_unavailable : StoreErrorCode

pub record StoreError : Type 0 where
  pub code : StoreErrorCode
  pub message : String

-- `StoreResult`, with a promise that a `TypeError` rejects beside it.
pub data StoreResult {ℓ} (A : Type ℓ) : Type ℓ where
  ok : A → StoreResult A
  error : StoreError → StoreResult A
  rejected : StoreResult A

-- The state of `InMemoryCampaignJobStore`.
pub record Store : Type 0 where
  pub jobs : JsMap JobRow
  pub items : JsMap (List ItemRow)
  pub by_idempotency_key : JsMap String
  pub seq : ℕ

abbrev pub empty : Store
empty = record { jobs = []; items = []; by_idempotency_key = []; seq = 0 }
