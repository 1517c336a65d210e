-- ===== src/CampaignWorker/Run/Lifecycle.antt =====
-- How a run of a job ends, for any handler that writes within `Handles`.
use aggregator_dpg.Prelude.{
  String, ◌≡◌, refl, ap, ◌∙◌, inl, inr, Bool, false, Option, none, some, eq_iff, Option-cases,
  arith, [], ◌∷◌,
}
use mathlib.Core.Path.{subst}
use aggregator_dpg.CampaignJobs.Types.{processing}
use aggregator_dpg.CampaignWorker.Types.{
  CampaignJob, Tables, ProcessingJob, Attempt, CampaignJobConfig,
}
use aggregator_dpg.CampaignWorker.Client.{
  job_row, rows_of, processing_job, get_job_for_processing, set_job_status,
}
use aggregator_dpg.CampaignWorker.Client.Rows.{find-some, find-HandlerStep, job_row-set_job_status}
use aggregator_dpg.CampaignWorker.Effects.{
  Action, read, write, State, Outside, Outcome, Access, answered, rejected, table_rejected, settled,
  noted, written, and_then, try_catch,
}
use aggregator_dpg.CampaignWorker.Effects.OnTables.{rejections-append}
use aggregator_dpg.CampaignWorker.Export.Handles.{IsHandler}
use aggregator_dpg.CampaignWorker.Run.{
  is_terminal_job, is_final, fail_run, run_and_roll_up, run_found, run_loaded, run_campaign_job,
}
use aggregator_dpg.CampaignWorker.Run.Settle.{Ends, after-Ends}

module _ {W : Type 0} (o : Outside W) (config : CampaignJobConfig) (attempt : Option Attempt)
    (has_writer : Bool) (run_channel : ProcessingJob → Action W (Unit {0})) where
  get_job_for_processing-found :
      (job_id : String) (t : Tables) (row : CampaignJob)
      → job_row job_id t ≡ some row
      → get_job_for_processing job_id t ≡ some (processing_job row (rows_of job_id t))
  unfolding get_job_for_processing
  get_job_for_processing-found job_id t row found = rw (found, get_job_for_processing) refl

  -- What a run does after its read of the job, by how the read settled.
  abbrev pub from_read : String → CampaignJob → State W → Access → W → Outcome (Unit {0}) × State W
  from_read job_id row s a w =
      and_then (settled a (some (processing_job row (rows_of job_id s.tables))))
        (run_loaded o config attempt has_writer run_channel job_id)
        (record s { world = w; trace = noted a s.trace })

  pub run_campaign_job-found :
      (job_id : String) (s : State W) (row : CampaignJob)
      → job_row job_id s.tables ≡ some row
      → run_campaign_job o config attempt has_writer run_channel job_id s
        ≡ from_read job_id row s (o.access s.world).0 (o.access s.world).1
  unfolding run_campaign_job read
  run_campaign_job-found job_id s row found =
      ap
        (λ f.
          and_then (settled (o.access s.world).0 f)
            (run_loaded o config attempt has_writer run_channel job_id)
            (record s { world = (o.access s.world).1; trace = noted (o.access s.world).0 s.trace }))
        (get_job_for_processing-found job_id s.tables row found)

  pub job_row-id :
      (job_id : String) (t : Tables) (row : CampaignJob)
      → job_row job_id t ≡ some row
      → (processing_job row (rows_of job_id t)).id ≡ job_id
  unfolding processing_job
  job_row-id job_id t row found = (eq_iff row.id job_id).0 (find-some _ t.jobs found)

  module _ (handles : (job : ProcessingJob) → IsHandler job.id (run_channel job)) where
    -- A run from the first write on, by how that write settled.
    abbrev from_write : ProcessingJob → State W → Access → W → Outcome (Unit {0}) × State W
    from_write job s a w =
        and_then (settled a tt)
          (λ _.
            try_catch (run_and_roll_up o config attempt has_writer run_channel job.id job)
              (fail_run o config attempt has_writer run_channel job))
          (record s {
            tables =
                written a s.tables
                  (set_job_status job.id processing none (o.clock s.world) s.tables);
            world = w;
            trace = noted a s.trace;
          })

    from_write-Ends :
        (job : ProcessingJob) (s : State W) (a : Access) (w : W) {row : CampaignJob}
        → job_row job.id s.tables ≡ some row
        → Ends job.id (is_final attempt) s (from_write job s a w)
    unfolding run_and_roll_up
    from_write-Ends job s (rejected committed e) w found =
        inl (omega (arith, rejections-append s.trace (table_rejected ∷ [])))
    from_write-Ends job s answered w found =
        let (row₁, found₁, status₁, _) =
          job_row-set_job_status job.id processing none (o.clock s.world) s.tables found in
        let s₁ : State W = record s {
          tables = set_job_status job.id processing none (o.clock s.world) s.tables;
          world = w;
          trace = s.trace;
        } in
        let kept = (handles job).keeps s₁ in
        let (row₂, found₂, step) =
          find-HandlerStep job.id job.id s₁.tables.jobs (run_channel job s₁).1.tables.jobs
            kept.0.jobs found₁ in
        after-Ends o config attempt has_writer run_channel job s (run_channel job s₁).0
          (run_channel job s₁).1 kept.1 (row₂, found₂, step.same_status ∙ status₁)

    -- A run of a job that is not in a terminal status.
    run_found-Ends :
        (job : ProcessingJob) (s : State W) {row : CampaignJob}
        → job_row job.id s.tables ≡ some row
        → is_terminal_job job.status ≡ false
        → Ends job.id
            (is_final attempt)
            s
            (run_found o config attempt has_writer run_channel job.id job s)
    unfolding run_found write
    run_found-Ends job s found open_job =
        rw (open_job, run_found, write)
          (from_write-Ends job s (o.access s.world).0 (o.access s.world).1 found)

    run_found-Ends_at :
        (job_id : String) (job : ProcessingJob) (s : State W) (row : CampaignJob)
        → job.id ≡ job_id
        → job_row job_id s.tables ≡ some row
        → is_terminal_job job.status ≡ false
        → Ends job_id
            (is_final attempt)
            s
            (run_found o config attempt has_writer run_channel job_id job s)
    run_found-Ends_at job_id job s row same =
        subst
          (λ k.
            job_row k s.tables ≡ some row
            → is_terminal_job job.status ≡ false
            → Ends k (is_final attempt) s
                (run_found o config attempt has_writer run_channel k job s))
          same (run_found-Ends job s)

    from_read-Ends :
        (job_id : String) (s : State W) (row : CampaignJob) (a : Access) (w : W)
        → job_row job_id s.tables ≡ some row
        → is_terminal_job row.status ≡ false
        → Ends job_id (is_final attempt) s (from_read job_id row s a w)
    unfolding run_loaded processing_job
    from_read-Ends job_id s row (rejected committed e) w found open_job =
        inl (omega (arith, rejections-append s.trace (table_rejected ∷ [])))
    from_read-Ends job_id s row answered w found open_job =
        run_found-Ends_at job_id (processing_job row (rows_of job_id s.tables))
          (record s { world = w; trace = s.trace }) row (job_row-id job_id s.tables row found) found
          open_job

    -- A run of a job that is found and is not in a terminal status.
    pub run_campaign_job-Ends :
        (job_id : String) (s : State W) (row : CampaignJob)
        → job_row job_id s.tables ≡ some row
        → is_terminal_job row.status ≡ false
        → Ends job_id
            (is_final attempt)
            s
            (run_campaign_job o config attempt has_writer run_channel job_id s)
    run_campaign_job-Ends job_id s row found open_job =
        rw (run_campaign_job-found job_id s row found)
          (from_read-Ends job_id s row (o.access s.world).0 (o.access s.world).1 found open_job)

-- A job that is loaded has the id that was asked for.
pub get_job_for_processing-id :
    (job_id : String) (t : Tables) (job : ProcessingJob)
    → get_job_for_processing job_id t ≡ some job
    → job.id ≡ job_id
unfolding get_job_for_processing processing_job
get_job_for_processing-id job_id t job e = elim (Option-cases (job_row job_id t)) [
  | inl missing ↦ (let e' : none ≡ some job = rw (missing, get_job_for_processing) at e in cc)
  | inr (row, found) ↦
      let e' : some (processing_job row (rows_of job_id t)) ≡ some job =
        rw (found, get_job_for_processing) at e in
      let same : processing_job row (rows_of job_id t) ≡ job = cc in
      rw (← same) ((eq_iff row.id job_id).0 (find-some _ t.jobs found))
]
