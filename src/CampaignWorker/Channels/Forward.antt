-- ===== src/CampaignWorker/Channels/Forward.antt =====
-- What a run of a job may write, whatever the collaborators answer and however the run ends.
use aggregator_dpg.Prelude.{ℕ, String, ◌≡◌, refl, Bool, Option, none, some}
use aggregator_dpg.CampaignJobs.Types.{
  CampaignChannel, export, email, voice, CampaignJobStatus, processing, JobStatusCounts,
}
use aggregator_dpg.CampaignWorker.Types.{
  Attempt, CampaignJobConfig, ProcessingJob, Failure, CompletedAudit, AuditOutcome,
}
use aggregator_dpg.CampaignWorker.Client.{
  count_items, get_job_for_processing, set_job_status, fail_pending_items, derive_job_status,
}
use aggregator_dpg.CampaignWorker.Client.Forward.{Forward, Forward-refl, Handles→Forward}
use aggregator_dpg.CampaignWorker.Client.Writes.{set_job_status-Forward, fail_pending_items-Handles}
use aggregator_dpg.CampaignWorker.Effects.{
  Outside, State, Action, Access, answered, rejected, settled, noted, and_then, read, write,
}
use aggregator_dpg.CampaignWorker.Effects.Rules.{
  Keeps, pure-Keeps, throw-Keeps, bind-Keeps, then-Keeps, try_catch-Keeps, if-Keeps,
}
use aggregator_dpg.CampaignWorker.Effects.OnTables.{
  OnTables, Forward-Order, Keeps→Forward, write-Forward, read-Forward,
}
use aggregator_dpg.CampaignWorker.Export.Handles.{IsHandler, run_export_for_job-IsHandler}
use aggregator_dpg.CampaignWorker.Voice.Handles.{run_voice_for_job-IsHandler}
use aggregator_dpg.CampaignWorker.Email.Handles.{run_email_for_job-IsHandler}
use aggregator_dpg.CampaignWorker.Run.{
  run_loaded, run_campaign_job, run_found, is_terminal_job, fail_run, roll_up_status,
  finalize_failed_job, is_final, run_and_roll_up, safe_audit, record_success_path_audit,
  completed_row, derive_audit_outcome,
}
use aggregator_dpg.CampaignWorker.Run.Lifecycle.{get_job_for_processing-id}
use aggregator_dpg.CampaignWorker.Run.Settle.{safe_audit-tables}
use mathlib.Core.Path.{subst}
use aggregator_dpg.CampaignWorker.Channels.{Deps, run_channel, process_campaign_job}
use aggregator_dpg.CampaignWorker.Messages.{truncate_reason}

-- The action writes within `Forward`, however it ends.
abbrev IsForward : {W A : Type 0} → String → Action W A → Type 0
IsForward job_id m = Keeps (OnTables (Forward job_id)) m

module _ {W : Type 0} (o : Outside W) (config : CampaignJobConfig) (attempt : Option Attempt)
    (has_writer : Bool) (run_channel : ProcessingJob → Action W (Unit {0}))
    (handles : (job : ProcessingJob) → IsHandler job.id (run_channel job)) where
  module _ (job_id : String) where
    set_job_status-IsForward :
        (status : CampaignJobStatus) (reason : Option String)
        → IsForward job_id (write o (set_job_status job_id status reason))
    set_job_status-IsForward status reason =
        write-Forward job_id o _ (set_job_status-Forward job_id status reason)

    fail_pending_items-IsForward :
        (reason : String) → IsForward job_id (write o (fail_pending_items job_id reason))
    fail_pending_items-IsForward reason =
        write-Forward job_id o _
          (λ now t. Handles→Forward job_id _ _ (fail_pending_items-Handles job_id reason now t))

    safe_audit-IsForward :
        (row : ℕ → CompletedAudit) → IsForward job_id (safe_audit o config attempt has_writer row)
    safe_audit-IsForward row = record {
      keeps = λ s.
          rw (safe_audit-tables o config attempt has_writer run_channel row s)
            ((Forward-Order job_id).same s);
    }

    roll_up_status-IsForward : IsForward job_id (roll_up_status o config attempt job_id)
    unfolding roll_up_status
    roll_up_status-IsForward =
        bind-Keeps (Forward-Order job_id) (read-Forward job_id o (count_items job_id)) λ counts.
          then-Keeps (Forward-Order job_id)
            (set_job_status-IsForward (derive_job_status counts) none)
            (pure-Keeps (Forward-Order job_id) (derive_job_status counts, counts))

    record_success-IsForward :
        (job : ProcessingJob) (status : CampaignJobStatus) (counts : JobStatusCounts)
        → IsForward job_id (record_success_path_audit o config attempt has_writer job status counts)
    unfolding record_success_path_audit
    record_success-IsForward job status counts =
        if-Keeps (Forward-Order job_id) (is_terminal_job status)
          (safe_audit-IsForward
            (completed_row o config attempt job (derive_audit_outcome status) none counts))
          (pure-Keeps (Forward-Order job_id) tt)

  module _ (job : ProcessingJob) where
    finalize-IsForward :
        (e : Failure) → IsForward job.id (finalize_failed_job o config attempt has_writer job e)
    unfolding finalize_failed_job
    finalize-IsForward e =
        then-Keeps (Forward-Order job.id) (fail_pending_items-IsForward job.id "job_failed") (
          then-Keeps (Forward-Order job.id)
            (set_job_status-IsForward job.id CampaignJobStatus.failed
              (some (truncate_reason e.message)))
            (bind-Keeps (Forward-Order job.id) (read-Forward job.id o (count_items job.id))
              λ counts. safe_audit-IsForward job.id (
                completed_row o config attempt job AuditOutcome.failed (some e.error_type) counts)))

    fail_run-IsForward :
        (e : Failure) → IsForward job.id (fail_run o config attempt has_writer run_channel job e)
    unfolding fail_run
    fail_run-IsForward e =
        then-Keeps (Forward-Order job.id)
          (if-Keeps (Forward-Order job.id) (is_final attempt) (finalize-IsForward e)
            (pure-Keeps (Forward-Order job.id) tt))
          (throw-Keeps (Forward-Order job.id) e)

    run_and_roll_up-IsForward :
        IsForward job.id (run_and_roll_up o config attempt has_writer run_channel job.id job)
    unfolding run_and_roll_up
    run_and_roll_up-IsForward =
        then-Keeps (Forward-Order job.id) (Keeps→Forward job.id (run_channel job) (handles job)) (
          bind-Keeps (Forward-Order job.id) (roll_up_status-IsForward job.id)
            λ rolled. record_success-IsForward job.id job rolled.0 rolled.1)

    run_found-IsForward :
        IsForward job.id (run_found o config attempt has_writer run_channel job.id job)
    unfolding run_found
    run_found-IsForward =
        if-Keeps (Forward-Order job.id) (is_terminal_job job.status)
          (pure-Keeps (Forward-Order job.id) tt)
          (then-Keeps (Forward-Order job.id) (set_job_status-IsForward job.id processing none)
            (try_catch-Keeps (Forward-Order job.id) run_and_roll_up-IsForward fail_run-IsForward))

  run_loaded-Forward :
      (job_id : String) (found : Option ProcessingJob)
      → ((job : ProcessingJob) → found ≡ some job → job.id ≡ job_id)
      → IsForward job_id (run_loaded o config attempt has_writer run_channel job_id found)
  unfolding run_loaded
  run_loaded-Forward job_id none named = pure-Keeps (Forward-Order job_id) tt
  run_loaded-Forward job_id (some job) named =
      subst (λ k. IsForward k (run_found o config attempt has_writer run_channel k job))
        (named job refl) (run_found-IsForward job)

  -- The run after its read of the job, by how the read settled.
  from_read-Forward :
      (job_id : String) (s : State W) (a : Access) (w : W)
      → Forward job_id s.tables
          (and_then
            (settled a (get_job_for_processing job_id s.tables))
            (run_loaded o config attempt has_writer run_channel job_id)
            (record s { world = w; trace = noted a s.trace })).1.tables
  from_read-Forward job_id s (rejected committed e) w = Forward-refl job_id s.tables
  from_read-Forward job_id s answered w =
      (run_loaded-Forward job_id (get_job_for_processing job_id s.tables)
          (get_job_for_processing-id job_id s.tables)).keeps
        (record s { world = w; trace = s.trace })

  pub run_campaign_job-Forward :
      (job_id : String) (s : State W)
      → Forward job_id s.tables
          (run_campaign_job o config attempt has_writer run_channel job_id s).1.tables
  unfolding run_campaign_job read
  run_campaign_job-Forward job_id s =
      from_read-Forward job_id s (o.access s.world).0 (o.access s.world).1

module _ {W : Type 0} (o : Outside W) (deps : Deps) (attempt : Option Attempt) where
  pub run_channel-IsHandler :
      (channel : CampaignChannel) (job : ProcessingJob)
      → IsHandler job.id (run_channel o deps attempt channel job)
  unfolding run_channel
  run_channel-IsHandler export job = run_export_for_job-IsHandler o job deps.config deps.runtime
  run_channel-IsHandler voice job =
      run_voice_for_job-IsHandler o deps.runtime job deps.config attempt deps.wiring.voice
  run_channel-IsHandler email job =
      run_email_for_job-IsHandler o deps.libraries job deps.config attempt deps.wiring.email

  -- Whatever the collaborators answer, whichever accesses of the tables are rejected, and however
  -- the run ends, a run of a job neither adds nor
  -- removes rows, changes no other job and no item of another job, and leaves every item that was
  -- in a terminal status as it was; a batch reference and a notification stamp, once written, stay.
  pub process_campaign_job-Forward :
      (job_id : String) (s : State W)
      → Forward job_id s.tables (process_campaign_job o deps attempt job_id s).1.tables
  unfolding process_campaign_job
  process_campaign_job-Forward job_id s =
      run_campaign_job-Forward o deps.config attempt deps.wiring.audit
        (λ job. run_channel o deps attempt job.channel job)
        (λ job. run_channel-IsHandler job.channel job) job_id s
