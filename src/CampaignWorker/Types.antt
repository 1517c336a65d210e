-- ===== src/CampaignWorker/Types.antt =====
-- The data of the campaign worker: the rows of the two tables, what campaign-job-client.ts reads of
-- them, and the values that pass between campaign-process and its collaborators. A `Date` is a
-- number of milliseconds, and `none` stands for null and for undefined.
use aggregator_dpg.Prelude.{ℕ, String, Bool, Option, none, some, List}
use aggregator_dpg.Prelude.Json.{Json, Fields}
use aggregator_dpg.ProfileCsv.{ContactValue, ProfileRow}
use aggregator_dpg.CampaignJobs.Types.{
  CampaignChannel, CampaignJobStatus, CampaignJobItemStatus, CampaignMetadataPair,
}

-- A row of `campaign_job`: the columns that the worker reads or writes.
pub record CampaignJob : Type 0 where
  pub id : String
  pub channel : CampaignChannel
  pub status : CampaignJobStatus
  pub signalstack_org_id : String
  pub metadata : List CampaignMetadataPair
  pub content : Json
  pub requested_by : String
  pub request_id : Option String
  pub error_reason : Option String
  pub notified_at : Option ℕ
  pub last_progress_at : Option ℕ
  pub provider_response : Json
  pub updated_at : ℕ
  pub completed_at : Option ℕ

-- A row of `campaign_job_item`.
pub record CampaignJobItem : Type 0 where
  pub job_id : String
  pub item_id : String
  pub action : Option String
  pub status : CampaignJobItemStatus
  pub provider_ref : Option String
  pub provider_batch_ref : Option String
  pub skip_reason : Option String
  pub error_reason : Option String
  pub updated_at : ℕ
  pub completed_at : Option ℕ

pub record Tables : Type 0 where
  pub jobs : List CampaignJob
  pub items : List CampaignJobItem

pub record ProcessingJobItem : Type 0 where
  pub item_id : String
  pub action : Option String
  pub status : CampaignJobItemStatus
  pub provider_batch_ref : Option String

pub record ProcessingJob : Type 0 where
  pub id : String
  pub channel : CampaignChannel
  pub status : CampaignJobStatus
  pub signalstack_org_id : String
  pub metadata : List CampaignMetadataPair
  pub content : Json
  pub requested_by : String
  pub request_id : Option String
  pub notified_at : Option ℕ
  pub items : List ProcessingJobItem

pub record AuditCounts : Type 0 where
  pub resolved_count : ℕ
  pub skipped_count : ℕ
  pub failed_count : ℕ
  pub sent_count : ℕ

-- `SignalStackFetchDecryptedProfilesQuery`; `fields` and `contact` are projections.
pub record DecryptQuery : Type 0 where
  pub acting_org_id : String
  pub item_ids : List String
  pub fields : Option (List String)
  pub contact : Option (List String)
  pub request_id : Option String

pub record ContactBlock : Type 0 where
  pub name : Option ContactValue
  pub email : Option ContactValue
  pub phone : Option ContactValue

-- `SignalStackDecryptedProfileRow`, less the columns that nobody reads.
pub record DecryptedProfile : Type 0 where
  pub item_id : String
  pub item_state : Fields
  pub contact : Option ContactBlock

pub record DecryptedProfiles : Type 0 where
  pub profiles : List DecryptedProfile
  pub skipped : List String

-- An `Error`: its message and the name of its constructor.
pub record Failure : Type 0 where
  pub message : String
  pub error_type : String

-- The classes of errors that the voice channel tells apart.
pub data ErrorKind : Type 0 where
  auth_error validation_error other_error : ErrorKind

-- `BaseError`, and the error of a mail that was refused: `details.body` where it is a text.
pub record BaseError : Type 0 where
  pub kind : ErrorKind
  pub code : String
  pub message : String
  pub body : Option String

pub record SignedUrl : Type 0 where
  pub url : String
  pub expires_at : String

pub record SendInput : Type 0 where
  pub to : String
  pub subject : String
  pub html : String
  pub text : String
  pub reply_to : Option String

pub record VoiceContact : Type 0 where
  pub ref : String
  pub name : String
  pub phone : String
  pub variables : List (String × String)

pub record VoiceDispatch : Type 0 where
  pub agent_ref : String
  pub batch_name : String
  pub contacts : List VoiceContact
  pub start_options : List (String × Json)
  pub reuse_existing : Bool

pub record VoiceRejection : Type 0 where
  pub ref : String
  pub error : String

pub record VoiceDispatched : Type 0 where
  pub provider_batch_ref : String
  pub accepted : List String
  pub rejected : List VoiceRejection
  pub provider_response : Json

pub data AuditOutcome : Type 0 where
  succeeded partial failed : AuditOutcome

-- The `completed` row of the audit.
pub record CompletedAudit : Type 0 where
  pub correlation_id : String
  pub channel : CampaignChannel
  pub actor_org_id : String
  pub outcome : AuditOutcome
  pub completed_at : ℕ
  pub error_code : Option String
  pub counts : AuditCounts
  pub recipient_ref : Option String
  pub destination : Option String

pub data FieldSet : Type 0 where
  contact full : FieldSet

pub data RecipientMode : Type 0 where
  requester network_admin : RecipientMode

pub record CampaignJobConfig : Type 0 where
  pub decrypt_chunk : ℕ
  pub email_send_concurrency : ℕ
  pub field_set : FieldSet
  pub recipient_mode : RecipientMode
  pub network_admin_email : Option String

-- Which of the optional collaborators are there.
pub record Wiring : Type 0 where
  pub voice : Bool
  pub email : Bool
  pub audit : Bool

-- The position of a run among the retries of the queue.
pub record Attempt : Type 0 where
  pub attempt : ℕ
  pub max_attempts : ℕ

-- What the contact export reads of a row.
abbrev pub contact_row : DecryptedProfile → ProfileRow
contact_row p = elim p.contact [
  | none ↦ record { item_id = p.item_id; name = none; email = none; phone = none }
  | some c ↦ record { item_id = p.item_id; name = c.name; email = c.email; phone = c.phone }
]
