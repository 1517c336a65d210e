-- ===== src/CampaignWorker/Email/Handles.antt =====
-- Whatever the collaborators answer, the email handler writes to open items of its job alone, and
-- leaves the status of the job.
use aggregator_dpg.Prelude.{String, Bool, Option, none, some, List, [], ◌∷◌, ◌++◌, ◌==◌, length}
use aggregator_dpg.CampaignTemplate.Mail.{EmailContent, MailLibraries}
use aggregator_dpg.CampaignWorker.Types.{
  ProcessingJob, CampaignJobConfig, Attempt, DecryptedProfile, DecryptedProfiles,
}
use aggregator_dpg.CampaignWorker.Effects.{Outside}
use aggregator_dpg.CampaignWorker.Effects.Rules.{for_each-Keeps}
use aggregator_dpg.CampaignWorker.Effects.OnTables.{Within-Order}
use aggregator_dpg.CampaignWorker.Export.Handles.{
  IsHandler, pure-IsHandler, throw-IsHandler, bind-IsHandler, then-IsHandler, if-IsHandler,
  throw_if-IsHandler, mark-IsHandler, heartbeat-IsHandler, mark_skipped-IsHandler, fetch-IsHandler,
}
use aggregator_dpg.CampaignWorker.Recipients.{Transient}
use aggregator_dpg.CampaignWorker.Recipients.Handles.{send_campaign_emails-IsHandler}
use aggregator_dpg.CampaignWorker.Email.{
  fail_open_items, mark_missing, decrypt_email_chunk, decrypt_email_chunks,
  settle_transient_failures, send_and_settle, email_open_items, run_email_with, run_email_for_job,
  is_last,
}

module _ {W : Type 0} (o : Outside W) (libraries : MailLibraries) (job : ProcessingJob) where
  fail_open_items-IsHandler : IsHandler job.id (fail_open_items o libraries job)
  unfolding fail_open_items
  fail_open_items-IsHandler =
      for_each-Keeps (Within-Order job.id) _ (λ i. mark-IsHandler o job.id _ _ _ _)

  mark_missing-IsHandler :
      (chunk : List String) (answer : DecryptedProfiles)
      → IsHandler job.id (mark_missing o libraries job chunk answer)
  unfolding mark_missing
  mark_missing-IsHandler chunk answer =
      for_each-Keeps (Within-Order job.id) _ (λ id. mark-IsHandler o job.id _ _ _ _)

  decrypt_email_chunk-IsHandler :
      (content : EmailContent) (chunk : List String)
      → IsHandler job.id (decrypt_email_chunk o libraries job content chunk)
  unfolding decrypt_email_chunk
  decrypt_email_chunk-IsHandler content chunk =
      bind-IsHandler job.id (fetch-IsHandler o job.id _ _) λ answer.
        then-IsHandler job.id (throw_if-IsHandler job.id _ _) (
          then-IsHandler job.id (mark_skipped-IsHandler o job.id answer.skipped) (
            then-IsHandler job.id (mark_missing-IsHandler chunk answer) (
              then-IsHandler job.id (heartbeat-IsHandler o job.id)
                (pure-IsHandler job.id answer.profiles))))

  decrypt_email_chunks-IsHandler :
      (content : EmailContent) (chunks : List (List String))
      → IsHandler job.id (decrypt_email_chunks o libraries job content chunks)
  unfolding decrypt_email_chunks
  decrypt_email_chunks-IsHandler content [] = pure-IsHandler job.id []
  decrypt_email_chunks-IsHandler content (chunk ∷ chunks) =
      bind-IsHandler job.id (decrypt_email_chunk-IsHandler content chunk) λ rows.
        bind-IsHandler job.id (decrypt_email_chunks-IsHandler content chunks)
          λ more. pure-IsHandler job.id (rows ++ more)

  module _ (config : CampaignJobConfig) (attempt : Option Attempt) where
    settle_transient_failures-IsHandler :
        (transient : List Transient)
        → IsHandler job.id (settle_transient_failures o libraries job config attempt transient)
    unfolding settle_transient_failures
    settle_transient_failures-IsHandler transient =
        if-IsHandler job.id (length transient == 0) (pure-IsHandler job.id tt) (
          if-IsHandler job.id (is_last attempt)
            (for_each-Keeps (Within-Order job.id) transient (λ t. mark-IsHandler o job.id _ _ _ _))
            (throw-IsHandler job.id _))

    send_and_settle-IsHandler :
        (content : EmailContent) (rows : List DecryptedProfile)
        → IsHandler job.id (send_and_settle o libraries job config attempt content rows)
    unfolding send_and_settle
    send_and_settle-IsHandler content rows =
        bind-IsHandler job.id
          (send_campaign_emails-IsHandler o libraries job content config.email_send_concurrency
            rows)
          λ transient.
            then-IsHandler job.id (heartbeat-IsHandler o job.id)
              (settle_transient_failures-IsHandler transient)

    email_open_items-IsHandler :
        (content : EmailContent)
        → IsHandler job.id (email_open_items o libraries job config attempt content)
    unfolding email_open_items
    email_open_items-IsHandler content =
        bind-IsHandler job.id (decrypt_email_chunks-IsHandler content _) λ rows.
          if-IsHandler job.id (length rows == 0) (pure-IsHandler job.id tt)
            (send_and_settle-IsHandler content rows)

    run_email_with-IsHandler :
        (content : Option EmailContent)
        → IsHandler job.id (run_email_with o libraries job config attempt content)
    unfolding run_email_with
    run_email_with-IsHandler none = fail_open_items-IsHandler
    run_email_with-IsHandler (some content) =
        if-IsHandler job.id _ (pure-IsHandler job.id tt) (email_open_items-IsHandler content)

    pub run_email_for_job-IsHandler :
        (wired : Bool) → IsHandler job.id (run_email_for_job o libraries job config attempt wired)
    unfolding run_email_for_job
    run_email_for_job-IsHandler wired =
        if-IsHandler job.id wired (run_email_with-IsHandler _) (throw-IsHandler job.id _)
