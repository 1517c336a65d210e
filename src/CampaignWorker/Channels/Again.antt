-- ===== src/CampaignWorker/Channels/Again.antt =====
-- How a run of a job ends, and that a job which has ended is not run again.
use aggregator_dpg.Prelude.{
  String, ◌≡◌, refl, ◌∙◌, inl, inr, true, false, Option, some, List, [], ◌∷◌, ◌++◌, map, arith, any,
}
use aggregator_dpg.CampaignJobs.Types.{pending, item_status_eq, JobStatusCounts}
use aggregator_dpg.CampaignJobs.Status.Derive.{count_items as count_rows}
use aggregator_dpg.CampaignWorker.Types.{Attempt, Failure, Tables, CampaignJob, CampaignJobItem}
use aggregator_dpg.CampaignWorker.Client.{
  job_row, rows_of, processing_job, derive_job_status, count_items,
}
use aggregator_dpg.CampaignWorker.Client.Rows.{is_pending_row}
use aggregator_dpg.CampaignWorker.Client.Counts.{item_row, bucket-count_items}
use aggregator_dpg.CampaignWorker.Effects.{
  Outcome, done, threw, Outside, State, Access, answered, rejected, table_rejected,
}
use aggregator_dpg.CampaignWorker.Effects.OnTables.{rejections}
use aggregator_dpg.CampaignWorker.Run.{is_terminal_job, is_final, run_loaded, run_found}
use aggregator_dpg.CampaignWorker.Run.Settle.{Ends}
use aggregator_dpg.CampaignWorker.Run.Lifecycle.{
  from_read, run_campaign_job-Ends, run_campaign_job-found,
}
use aggregator_dpg.CampaignWorker.Channels.{Deps, run_channel, process_campaign_job}
use aggregator_dpg.CampaignWorker.Channels.Forward.{run_channel-IsHandler}

count_pending :
    (items : List CampaignJobItem)
    → any is_pending_row items ≡ false
    → count_rows (λ t. item_status_eq t pending) (map item_row items) ≡ 0
count_pending [] h = refl
count_pending (i ∷ items) h = ground (arith, count_pending items)

derive-terminal :
    (c : JobStatusCounts) → c.pending ≡ 0 → is_terminal_job (derive_job_status c) ≡ true
unfolding derive_job_status
derive-terminal c h = ground arith

settled-terminal :
    (job_id : String) (t : Tables)
    → any is_pending_row (rows_of job_id t) ≡ false
    → is_terminal_job (derive_job_status (count_items job_id t)) ≡ true
settled-terminal job_id t h =
    derive-terminal (count_items job_id t)
      (bucket-count_items job_id t pending ∙ count_pending (rows_of job_id t) h)

-- A job that ended on the last attempt with no access rejected and no item pending is in a terminal
-- status.
Ends-terminal :
    {W : Type 0} (job_id : String) (s : State W) (m : Outcome (Unit {0}) × State W)
    → Ends job_id true s m
    → rejections m.1.trace ≡ rejections s.trace
    → any is_pending_row (rows_of job_id m.1.tables) ≡ false
    → (row : CampaignJob) × (job_row job_id m.1.tables ≡ some row)
      × (is_terminal_job row.status ≡ true)
Ends-terminal job_id s (done a, t) (row, found, status) calm h =
    (row, found, rw status (settled-terminal job_id t.tables h))
Ends-terminal job_id s (threw e, t) (inl less) calm h = absurd (omega (arith, less, calm))
Ends-terminal job_id s (threw e, t) (inr f) calm h = (f.row, f.found, rw f.status refl)

-- What a run does that only reads the job: the read is answered and the run returns, or it is
-- rejected and the run throws.
pub data OnlyReads {W : Type 0} (o : Outside W) (s : State W) (m : Outcome (Unit {0}) × State W)
    : Type 0 where
  read_answered :
      m ≡ (done tt, record s { world = (o.access s.world).1; trace = s.trace }) → OnlyReads o s m
  read_rejected :
      (e : Failure)
      → m ≡ (
        threw e,
        record s { world = (o.access s.world).1; trace = s.trace ++ table_rejected ∷ [] },
      )
      → OnlyReads o s m

module _ {W : Type 0} (o : Outside W) (deps : Deps) where
  from_read-OnlyReads :
      (attempt : Option Attempt) (job_id : String) (s : State W) (row : CampaignJob) (a : Access)
      → is_terminal_job row.status ≡ true
      → OnlyReads o s (
          from_read o deps.config attempt deps.wiring.audit
            (λ job. run_channel o deps attempt job.channel job)
            job_id
            row
            s
            a
            (o.access s.world).1)
  unfolding run_loaded run_found processing_job
  from_read-OnlyReads attempt job_id s row (rejected committed e) terminal = read_rejected e refl
  from_read-OnlyReads attempt job_id s row answered terminal =
      read_answered (rw (terminal, run_loaded, run_found) refl)

  -- A job in a terminal status is not run.
  process-terminal :
      (attempt : Option Attempt) (job_id : String) (s : State W) (row : CampaignJob)
      → job_row job_id s.tables ≡ some row
      → is_terminal_job row.status ≡ true
      → OnlyReads o s (process_campaign_job o deps attempt job_id s)
  unfolding process_campaign_job
  process-terminal attempt job_id s row found terminal =
      rw
        (run_campaign_job-found o deps.config attempt deps.wiring.audit
          (λ job. run_channel o deps attempt job.channel job) job_id s row found)
        (from_read-OnlyReads attempt job_id s row (o.access s.world).0 terminal)

  -- A run of a job that is found and is not in a terminal status: if it returns, the job has the
  -- status that its items give. If it throws, then either an access of the tables was rejected
  -- while it ran, or the following holds: on the last attempt, the job is failed with the reason,
  -- cut to at most 500 UTF-16 units, and no item of it is pending; on an earlier one, the job is
  -- left processing.
  pub process_campaign_job-Ends :
      (attempt : Option Attempt) (job_id : String) (s : State W) (row : CampaignJob)
      → job_row job_id s.tables ≡ some row
      → is_terminal_job row.status ≡ false
      → Ends job_id (is_final attempt) s (process_campaign_job o deps attempt job_id s)
  unfolding process_campaign_job
  process_campaign_job-Ends attempt =
      run_campaign_job-Ends o deps.config attempt deps.wiring.audit
        (λ job. run_channel o deps attempt job.channel job)
        (λ job. run_channel-IsHandler o deps attempt job.channel job)

  -- Once the last attempt of a job has ended, whether it returned or threw, with no item pending
  -- and no access of the tables rejected while it ran, any further run of the job only reads the
  -- job: it writes nothing, calls no collaborator, and returns unless that read is rejected.
  pub process_campaign_job_once :
      (attempt again : Option Attempt) (job_id : String) (s : State W) (row : CampaignJob)
      → job_row job_id s.tables ≡ some row
      → is_terminal_job row.status ≡ false
      → is_final attempt ≡ true
      → rejections (process_campaign_job o deps attempt job_id s).1.trace ≡ rejections s.trace
      → any is_pending_row (rows_of job_id (process_campaign_job o deps attempt job_id s).1.tables)
        ≡ false
      → let u = (process_campaign_job o deps attempt job_id s).1 in
        OnlyReads o u (process_campaign_job o deps again job_id u)
  process_campaign_job_once attempt again job_id s row found open_job last calm settled =
      let m = process_campaign_job o deps attempt job_id s in
      let ends = process_campaign_job-Ends attempt job_id s row found open_job in
      let (row', found', terminal) = Ends-terminal job_id s m (rw last at ends) calm settled in
      process-terminal again job_id m.1 row' found' terminal
