-- ===== src/CampaignWorker/Run.antt =====
-- `runCampaignJob` of apps/worker/src/services/campaign-process/index.ts and the audit row of a
-- finished job. The handler of the job's channel is a parameter here; Channels puts the three in.
pub mod Settle
pub mod Lifecycle
use aggregator_dpg.Prelude.{
  ℕ, zero, suc, ◌+◌, ◌-◌, ◌*◌, ◌/◌, ◌%◌, ◌≤◌, ◌<◌, String, ◌≡◌, refl, sym, ap, ◌∙◌, ◌≢◌, ◌↔◌, ◌⊎◌,
  inl, inr, Bool, true, false, not, ◌&&◌, ◌||◌, Option, none, some, List, [], ◌∷◌, ◌++◌, map, arith,
  eq_iff, eq_refl, ltb, leb, ◌==◌, ◌=ₛ◌, if◌then◌else◌, Bool-cases, Option-cases, option_eq,
  option_eq→eq, &&→left, &&→right, length, take, take_all, drop, keep, any, find, last?, All,
  All-append, has_text, text_ne, Ascending,
}
use aggregator_dpg.CampaignJobs.Types.{
  CampaignChannel, CampaignJobStatus, CampaignJobItemStatus, processing, terminal_job_statuses,
  includes_job, JobStatusCounts, export, channel_eq,
}
use aggregator_dpg.CampaignWorker.Types.{
  Tables, ProcessingJob, Failure, AuditOutcome, succeeded, CompletedAudit, Attempt,
  CampaignJobConfig,
}
use aggregator_dpg.CampaignWorker.Client.{
  get_job_for_processing, derive_job_status, count_items, set_job_status, fail_pending_items,
  to_audit_counts,
}
use aggregator_dpg.CampaignWorker.Messages.{truncate_reason, export_object_key}
use aggregator_dpg.CampaignWorker.Export.{resolve_export_recipient}
use aggregator_dpg.CampaignWorker.Effects.{
  pure, ◌>>◌, write, threw, Event, Action, call, done, State, Outside, audited, Outcome, read,
  ◌>>=◌, throw, try_catch,
}

-- `TERMINAL_JOB.has(status)`
abbrev pub is_terminal_job : CampaignJobStatus → Bool
is_terminal_job status = includes_job terminal_job_statuses status

unfoldable pub derive_audit_outcome : CampaignJobStatus → AuditOutcome
derive_audit_outcome CampaignJobStatus.partial = AuditOutcome.partial
derive_audit_outcome CampaignJobStatus.failed = AuditOutcome.failed
derive_audit_outcome _ = succeeded

-- The recipient and the destination of an export; nothing for the other channels.
unfoldable pub export_audit_extras :
    ProcessingJob → CampaignJobConfig → Option String × Option String
unfolding resolve_export_recipient export_object_key
export_audit_extras job config =
    if channel_eq job.channel export
    then (
      resolve_export_recipient job.requested_by config,
      some (export_object_key job.signalstack_org_id job.id),
    )
    else (none, none)

abbrev pub is_final : Option Attempt → Bool
is_final none = false
is_final (some a) = leb a.max_attempts a.attempt

module _ {W : Type 0} (o : Outside W) (config : CampaignJobConfig) (attempt : Option Attempt) where
  -- An audit write that fails, or throws, is logged and nothing more; without a writer it is not
  -- made.
  unfoldable pub safe_audit : Bool → (ℕ → CompletedAudit) → Action W (Unit {0})
  safe_audit has_writer row s =
      let entry = row (o.clock s.world) in
      if has_writer
      then (done tt, (call (λ r. audited entry) (o.record_completed entry) s).1)
      else (done tt, s)

  abbrev pub completed_row :
      ProcessingJob → AuditOutcome → Option String → JobStatusCounts → ℕ → CompletedAudit
  completed_row job outcome error_code counts now = record {
    correlation_id = job.id;
    channel = job.channel;
    actor_org_id = job.signalstack_org_id;
    outcome = outcome;
    completed_at = now;
    error_code = error_code;
    counts = to_audit_counts counts;
    recipient_ref = (export_audit_extras job config).0;
    destination = (export_audit_extras job config).1;
  }

  unfoldable pub roll_up_status : String → Action W (CampaignJobStatus × JobStatusCounts)
  unfolding count_items derive_job_status set_job_status
  roll_up_status job_id = do
    counts ← read o (count_items job_id)
    write o (set_job_status job_id (derive_job_status counts) none)
    pure (derive_job_status counts, counts)

  module _ (has_writer : Bool) where
    unfoldable pub record_success_path_audit :
        ProcessingJob → CampaignJobStatus → JobStatusCounts → Action W (Unit {0})
    unfolding safe_audit derive_audit_outcome export_audit_extras to_audit_counts
    record_success_path_audit job status counts =
        if is_terminal_job status
        then safe_audit has_writer (completed_row job (derive_audit_outcome status) none counts)
        else pure tt

    unfoldable pub finalize_failed_job : ProcessingJob → Failure → Action W (Unit {0})
    unfolding safe_audit fail_pending_items set_job_status truncate_reason count_items
        export_audit_extras to_audit_counts
    finalize_failed_job job e = do
      write o (fail_pending_items job.id "job_failed")
      write o (set_job_status job.id CampaignJobStatus.failed (some (truncate_reason e.message)))
      counts ← read o (count_items job.id)
      safe_audit has_writer (completed_row job AuditOutcome.failed (some e.error_type) counts)

    module _ (run_channel : ProcessingJob → Action W (Unit {0})) where
      unfoldable pub run_and_roll_up : String → ProcessingJob → Action W (Unit {0})
      unfolding roll_up_status record_success_path_audit
      run_and_roll_up job_id job = do
        run_channel job
        rolled ← roll_up_status job_id
        record_success_path_audit job rolled.0 rolled.1

      unfoldable pub fail_run : ProcessingJob → Failure → Action W (Unit {0})
      unfolding finalize_failed_job
      fail_run job e = do if is_final attempt then finalize_failed_job job e else pure tt; throw e

      unfoldable pub run_found : String → ProcessingJob → Action W (Unit {0})
      unfolding run_and_roll_up fail_run set_job_status
      run_found job_id job = if is_terminal_job job.status then pure tt else (do
        write o (set_job_status job_id processing none)
        try_catch (run_and_roll_up job_id job) (fail_run job))

      unfoldable pub run_loaded : String → Option ProcessingJob → Action W (Unit {0})
      unfolding run_found
      run_loaded job_id none = pure tt
      run_loaded job_id (some job) = run_found job_id job

      unfoldable pub run_campaign_job : String → Action W (Unit {0})
      unfolding get_job_for_processing run_loaded
      run_campaign_job job_id = do
        found ← read o (get_job_for_processing job_id)
        run_loaded job_id found
