-- ===== src/CampaignWorker/Voice.antt =====
-- The voice channel: apps/worker/src/services/campaign-process/voice.ts. The open items are
-- decrypted and dispatched as one batch, unless an item shows that a batch is there already.
pub mod Handles
use aggregator_dpg.CampaignWorker.VoiceContent.{
  fields_of, text_value, variables_of, voice_start_options, flatten_variables,
  describe_dispatch_failure,
}
use aggregator_dpg.Prelude.{
  ℕ, zero, suc, ◌+◌, ◌-◌, ◌*◌, ◌/◌, ◌%◌, ◌≤◌, ◌<◌, String, ◌≡◌, refl, sym, ap, ◌∙◌, ◌≢◌, ◌↔◌, ◌⊎◌,
  inl, inr, Bool, true, false, not, ◌&&◌, ◌||◌, Option, none, some, List, [], ◌∷◌, ◌++◌, map, arith,
  eq_iff, eq_refl, ltb, leb, ◌==◌, ◌=ₛ◌, if◌then◌else◌, Bool-cases, Option-cases, option_eq,
  option_eq→eq, &&→left, &&→right, length, take, take_all, drop, keep, any, find, last?, All,
  All-append, has_text, text_ne, Ascending,
}
use aggregator_dpg.Prelude.Json.{Json, Fields, Items}
use aggregator_dpg.Prelude.Result.{Result, ok, err}
use Prim.Native.String.{◌++◌ as ◌+ₛ◌}
use aggregator_dpg.Prelude.Texts.{is_blank}
use aggregator_dpg.ProfileCsv.{text_of}
use aggregator_dpg.ProfileCsv.Profiles.{lookup_field}
use aggregator_dpg.CampaignJobs.Types.{
  CampaignJobItemStatus, resolved, skipped_no_contact, terminal_item_statuses, includes_item,
  item_status_eq,
}
use aggregator_dpg.CampaignWorker.Types.{
  ProcessingJob, ProcessingJobItem, DecryptQuery, DecryptedProfile, ErrorKind, auth_error,
  validation_error, other_error, BaseError, VoiceContact, VoiceDispatch, VoiceDispatched,
  VoiceRejection, CampaignJobConfig, Attempt, Wiring,
}
use aggregator_dpg.CampaignWorker.Client.{mark_submitted, heartbeat, set_provider_response}
use aggregator_dpg.CampaignWorker.Chunks.{chunk_array}
use aggregator_dpg.CampaignWorker.Messages.{truncate_reason}
use aggregator_dpg.CampaignWorker.Export.{
  Runtime, plain_error, upstream_error, given, mark, mark_resolved, mark_skipped, fetch,
}
use aggregator_dpg.CampaignWorker.Effects.{
  Outcome, done, threw, Event, dispatched, Outside, State, Action, pure, throw, ◌>>=◌, ◌>>◌,
  for_each, call, write,
}

-- `job.items.find((i) => i.providerBatchRef)?.providerBatchRef`
unfoldable pub existing_batch : List ProcessingJobItem → Option String
existing_batch [] = none
existing_batch (i ∷ items) =
    let rest = existing_batch items in
    elim (given i.provider_batch_ref) [ none ↦ rest | some b ↦ some b ]

-- The items that a retry acts on, for the voice and the email channel.
abbrev pub open_items : List ProcessingJobItem → List ProcessingJobItem
open_items items = keep (λ i. not (includes_item terminal_item_statuses i.status)) items

abbrev pub is_retry : Option Attempt → Bool
is_retry none = false
is_retry (some a) = ltb 1 a.attempt

module _ {W : Type 0} (o : Outside W) (runtime : Runtime) (job : ProcessingJob) where
  unfoldable pub submit_item : String → String → Action W (Unit {0})
  submit_item batch item_id = write o (mark_submitted job.id item_id batch none)

  -- The items that were decrypted and not yet recorded are recorded under the known batch.
  unfoldable pub resume : String → Action W (Unit {0})
  unfolding submit_item
  resume batch =
      for_each (keep (λ i. item_status_eq i.status resolved) job.items)
        (λ i. submit_item batch i.item_id)

  abbrev pub voice_query : Option (List String) → List String → DecryptQuery
  voice_query fields chunk = record {
    acting_org_id = job.signalstack_org_id;
    item_ids = chunk;
    fields = fields;
    contact = some ("name" ∷ "phone" ∷ []);
    request_id = given job.request_id;
  }

  unfoldable pub decrypt_voice_chunk :
      Option (List String) → List String → Action W (List DecryptedProfile)
  unfolding fetch mark_resolved mark_skipped
  decrypt_voice_chunk fields chunk = do
    answer ← fetch o "campaign voice decrypt failed" job.id (voice_query fields chunk)
    mark_resolved o job.id answer.profiles
    mark_skipped o job.id answer.skipped
    write o (heartbeat job.id)
    pure answer.profiles

  unfoldable pub decrypt_voice_chunks :
      Option (List String) → List (List String) → Action W (List DecryptedProfile)
  unfolding decrypt_voice_chunk
  decrypt_voice_chunks fields [] = pure []
  decrypt_voice_chunks fields (chunk ∷ chunks) = do
    rows ← decrypt_voice_chunk fields chunk
    more ← decrypt_voice_chunks fields chunks
    pure (rows ++ more)

  abbrev pub phone_of : DecryptedProfile → Option String
  phone_of row = elim row.contact [
    | none ↦ none
    | some c ↦ elim c.phone [ none ↦ none | some p ↦ p.value ]
  ]

  abbrev pub name_of : DecryptedProfile → String
  name_of row = elim row.contact [ none ↦ "" | some c ↦ text_of c.name ]

  -- A phone that is neither absent nor blank.
  unfoldable pub usable_phone : DecryptedProfile → Option String
  unfolding is_blank
  usable_phone row = elim (phone_of row) [
    | none ↦ none
    | some phone ↦ if is_blank phone then none else some phone
  ]

  unfoldable pub voice_contact : DecryptedProfile → String → VoiceContact
  unfolding flatten_variables
  voice_contact row phone = record {
    ref = row.item_id;
    name = name_of row;
    phone = phone;
    variables = flatten_variables runtime row.item_state;
  }

  -- One row: a contact, or a skip.
  unfoldable pub add_contact :
      DecryptedProfile → Option String → List VoiceContact → Action W (List VoiceContact)
  unfolding voice_contact
  add_contact row none contacts = do
    mark o job.id row.item_id skipped_no_contact (some "no_phone") none
    pure contacts
  add_contact row (some phone) contacts = pure (contacts ++ voice_contact row phone ∷ [])

  unfoldable pub build_contacts :
      List DecryptedProfile → List VoiceContact → Action W (List VoiceContact)
  unfolding add_contact usable_phone
  build_contacts [] contacts = pure contacts
  build_contacts (row ∷ rows) contacts = do
    contacts' ← add_contact row (usable_phone row) contacts
    build_contacts rows contacts'

  -- A rejection of the request fails the contacts for good; any other error is thrown.
  unfoldable pub handle_dispatch_failure :
      List VoiceContact → BaseError → ErrorKind → Action W (Unit {0})
  unfolding describe_dispatch_failure
  handle_dispatch_failure contacts e other_error =
      throw (upstream_error "campaign voice dispatch failed" e)
  handle_dispatch_failure contacts e _ = for_each contacts (λ c.
      mark o job.id c.ref CampaignJobItemStatus.failed (some (describe_dispatch_failure runtime e))
        none)

  unfoldable pub record_dispatch : VoiceDispatched → Action W (Unit {0})
  unfolding submit_item
  record_dispatch answer = do
    for_each answer.accepted (λ ref. submit_item answer.provider_batch_ref ref)
    for_each answer.rejected
        (λ r. mark o job.id r.ref CampaignJobItemStatus.failed (some r.error) none)
    write o (set_provider_response job.id answer.provider_response)

  unfoldable pub settle_dispatch :
      List VoiceContact → Result BaseError VoiceDispatched → Action W (Unit {0})
  unfolding handle_dispatch_failure record_dispatch
  settle_dispatch contacts (ok answer) = record_dispatch answer
  settle_dispatch contacts (err e) = handle_dispatch_failure contacts e e.kind

  abbrev pub was_accepted : Outcome (Result BaseError VoiceDispatched) → Bool
  was_accepted (done (ok answer)) = true
  was_accepted _ = false

  module _ (config : CampaignJobConfig) (attempt : Option Attempt) where
    abbrev pub dispatch_input : String → Fields → List VoiceContact → VoiceDispatch
    dispatch_input agent content contacts = record {
      agent_ref = agent;
      batch_name = elim (text_value (lookup_field "batch_name" content)) [
        | none ↦ "campaign-" +ₛ job.id
        | some n ↦ n
      ];
      contacts = contacts;
      start_options = voice_start_options content;
      reuse_existing = is_retry attempt;
    }

    unfoldable pub dispatch_contacts : String → Fields → List VoiceContact → Action W (Unit {0})
    unfolding settle_dispatch voice_start_options lookup_field
    dispatch_contacts agent content contacts = do
      result ←
          call (λ r. dispatched job.id (map (λ c. c.ref) contacts) (was_accepted r))
            (o.dispatch (dispatch_input agent content contacts))
      settle_dispatch contacts result

    -- The path of a job with no batch yet; `agent` is the `agent_id` of the content.
    unfoldable pub start_batch : Option String → Fields → Action W (Unit {0})
    unfolding decrypt_voice_chunks build_contacts dispatch_contacts chunk_array lookup_field
    start_batch none content = throw (plain_error "campaign voice job content missing agent_id")
    start_batch (some agent) content = do
      rows ←
          decrypt_voice_chunks (variables_of (lookup_field "variables" content))
            (chunk_array (map (λ i. i.item_id) (open_items job.items)) config.decrypt_chunk)
      contacts ← build_contacts rows []
      if length contacts == 0 then pure tt else dispatch_contacts agent content contacts

    unfoldable pub run_voice_from : Option String → Action W (Unit {0})
    unfolding resume start_batch lookup_field
    run_voice_from (some batch) = resume batch
    run_voice_from none =
        start_batch (given (text_value (lookup_field "agent_id" (fields_of job.content))))
          (fields_of job.content)

    unfoldable pub run_voice_for_job : Bool → Action W (Unit {0})
    unfolding run_voice_from existing_batch
    run_voice_for_job wired =
        if wired
        then run_voice_from (existing_batch job.items)
        else throw (plain_error "campaign voice channel requires voice collaborators (deps.voice)")
