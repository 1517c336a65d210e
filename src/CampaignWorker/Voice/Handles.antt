-- ===== src/CampaignWorker/Voice/Handles.antt =====
-- Whatever the collaborators answer, the voice handler writes to open items of its job alone, and
-- leaves the status of the job.
use aggregator_dpg.Prelude.{String, Bool, Option, none, some, List, [], ◌∷◌, ◌++◌, ◌==◌, length}
use aggregator_dpg.Prelude.Json.{Fields}
use aggregator_dpg.Prelude.Result.{Result, ok, err}
use aggregator_dpg.CampaignWorker.Types.{
  ProcessingJob, CampaignJobConfig, Attempt, DecryptedProfile, ErrorKind, other_error, BaseError,
  VoiceContact, VoiceDispatched,
}
use aggregator_dpg.CampaignWorker.Client.Writes.{
  mark_submitted-Handles, set_provider_response-Handles,
}
use aggregator_dpg.CampaignWorker.Effects.{Outside}
use aggregator_dpg.CampaignWorker.Effects.Rules.{for_each-Keeps}
use aggregator_dpg.CampaignWorker.Effects.OnTables.{Within-Order, call-Within, write-Within}
use aggregator_dpg.CampaignWorker.Export.{Runtime}
use aggregator_dpg.CampaignWorker.Export.Handles.{
  IsHandler, pure-IsHandler, throw-IsHandler, bind-IsHandler, then-IsHandler, if-IsHandler,
  mark-IsHandler, heartbeat-IsHandler, mark_resolved-IsHandler, mark_skipped-IsHandler,
  fetch-IsHandler,
}
use aggregator_dpg.CampaignWorker.Voice.{
  submit_item, resume, decrypt_voice_chunk, decrypt_voice_chunks, add_contact, build_contacts,
  handle_dispatch_failure, record_dispatch, settle_dispatch, dispatch_contacts, start_batch,
  run_voice_from, run_voice_for_job,
}

module _ {W : Type 0} (o : Outside W) (runtime : Runtime) (job : ProcessingJob) where
  submit_item-IsHandler :
      (batch item_id : String) → IsHandler job.id (submit_item o runtime job batch item_id)
  unfolding submit_item
  submit_item-IsHandler batch item_id =
      write-Within job.id o _ (mark_submitted-Handles job.id item_id batch none)

  resume-IsHandler : (batch : String) → IsHandler job.id (resume o runtime job batch)
  unfolding resume
  resume-IsHandler batch =
      for_each-Keeps (Within-Order job.id) _ (λ i. submit_item-IsHandler batch i.item_id)

  decrypt_voice_chunk-IsHandler :
      (fields : Option (List String)) (chunk : List String)
      → IsHandler job.id (decrypt_voice_chunk o runtime job fields chunk)
  unfolding decrypt_voice_chunk
  decrypt_voice_chunk-IsHandler fields chunk =
      bind-IsHandler job.id (fetch-IsHandler o job.id _ _) λ answer.
        then-IsHandler job.id (mark_resolved-IsHandler o job.id answer.profiles) (
          then-IsHandler job.id (mark_skipped-IsHandler o job.id answer.skipped) (
            then-IsHandler job.id (heartbeat-IsHandler o job.id)
              (pure-IsHandler job.id answer.profiles)))

  decrypt_voice_chunks-IsHandler :
      (fields : Option (List String)) (chunks : List (List String))
      → IsHandler job.id (decrypt_voice_chunks o runtime job fields chunks)
  unfolding decrypt_voice_chunks
  decrypt_voice_chunks-IsHandler fields [] = pure-IsHandler job.id []
  decrypt_voice_chunks-IsHandler fields (chunk ∷ chunks) =
      bind-IsHandler job.id (decrypt_voice_chunk-IsHandler fields chunk) λ rows.
        bind-IsHandler job.id (decrypt_voice_chunks-IsHandler fields chunks)
          λ more. pure-IsHandler job.id (rows ++ more)

  add_contact-IsHandler :
      (row : DecryptedProfile) (phone : Option String) (contacts : List VoiceContact)
      → IsHandler job.id (add_contact o runtime job row phone contacts)
  unfolding add_contact
  add_contact-IsHandler row none contacts =
      then-IsHandler job.id (mark-IsHandler o job.id _ _ _ _) (pure-IsHandler job.id contacts)
  add_contact-IsHandler row (some phone) contacts = pure-IsHandler job.id _

  build_contacts-IsHandler :
      (rows : List DecryptedProfile) (contacts : List VoiceContact)
      → IsHandler job.id (build_contacts o runtime job rows contacts)
  unfolding build_contacts
  build_contacts-IsHandler [] contacts = pure-IsHandler job.id contacts
  build_contacts-IsHandler (row ∷ rows) contacts =
      bind-IsHandler job.id (add_contact-IsHandler row _ contacts) (build_contacts-IsHandler rows)

  handle_dispatch_failure-IsHandler :
      (contacts : List VoiceContact) (e : BaseError) (kind : ErrorKind)
      → IsHandler job.id (handle_dispatch_failure o runtime job contacts e kind)
  unfolding handle_dispatch_failure
  handle_dispatch_failure-IsHandler contacts e other_error = throw-IsHandler job.id _
  handle_dispatch_failure-IsHandler contacts e _ =
      for_each-Keeps (Within-Order job.id) contacts (λ c. mark-IsHandler o job.id _ _ _ _)

  record_dispatch-IsHandler :
      (answer : VoiceDispatched) → IsHandler job.id (record_dispatch o runtime job answer)
  unfolding record_dispatch
  record_dispatch-IsHandler answer =
      then-IsHandler job.id
        (for_each-Keeps (Within-Order job.id) answer.accepted (submit_item-IsHandler _))
        (then-IsHandler job.id
          (for_each-Keeps (Within-Order job.id) answer.rejected
            (λ r. mark-IsHandler o job.id _ _ _ _))
          (write-Within job.id o _ (set_provider_response-Handles job.id _)))

  settle_dispatch-IsHandler :
      (contacts : List VoiceContact) (r : Result BaseError VoiceDispatched)
      → IsHandler job.id (settle_dispatch o runtime job contacts r)
  unfolding settle_dispatch
  settle_dispatch-IsHandler contacts (ok answer) = record_dispatch-IsHandler answer
  settle_dispatch-IsHandler contacts (err e) = handle_dispatch_failure-IsHandler contacts e e.kind

  module _ (config : CampaignJobConfig) (attempt : Option Attempt) where
    dispatch_contacts-IsHandler :
        (agent : String) (content : Fields) (contacts : List VoiceContact)
        → IsHandler job.id (dispatch_contacts o runtime job config attempt agent content contacts)
    unfolding dispatch_contacts
    dispatch_contacts-IsHandler agent content contacts =
        bind-IsHandler job.id (call-Within job.id _ (o.dispatch _))
          (settle_dispatch-IsHandler contacts)

    start_batch-IsHandler :
        (agent : Option String) (content : Fields)
        → IsHandler job.id (start_batch o runtime job config attempt agent content)
    unfolding start_batch
    start_batch-IsHandler none content = throw-IsHandler job.id _
    start_batch-IsHandler (some agent) content =
        bind-IsHandler job.id (decrypt_voice_chunks-IsHandler _ _) λ rows.
          bind-IsHandler job.id (build_contacts-IsHandler rows []) λ contacts.
            if-IsHandler job.id (length contacts == 0) (pure-IsHandler job.id tt)
              (dispatch_contacts-IsHandler agent content contacts)

    run_voice_from-IsHandler :
        (batch : Option String)
        → IsHandler job.id (run_voice_from o runtime job config attempt batch)
    unfolding run_voice_from
    run_voice_from-IsHandler (some batch) = resume-IsHandler batch
    run_voice_from-IsHandler none = start_batch-IsHandler _ _

    pub run_voice_for_job-IsHandler :
        (wired : Bool) → IsHandler job.id (run_voice_for_job o runtime job config attempt wired)
    unfolding run_voice_for_job
    run_voice_for_job-IsHandler wired =
        if-IsHandler job.id wired (run_voice_from-IsHandler _) (throw-IsHandler job.id _)
