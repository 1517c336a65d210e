-- ===== src/CampaignWorker/Run/Settle.antt =====
-- What a run of a job leaves behind once its handler has ended.
use aggregator_dpg.Prelude.{
  ℕ, ◌≤◌, ◌<◌, String, ◌≡◌, refl, ◌⊎◌, inl, inr, Bool, true, false, Option, none, some, arith,
  Bool-cases, any, [], ◌∷◌,
}
use aggregator_dpg.CampaignJobs.Types.{CampaignJobStatus, processing, JobStatusCounts}
use aggregator_dpg.CampaignWorker.Types.{
  CampaignJob, Tables, ProcessingJob, Failure, Attempt, CampaignJobConfig, CompletedAudit,
  AuditOutcome,
}
use aggregator_dpg.CampaignWorker.Client.{
  job_row, rows_of, derive_job_status, count_items, set_job_status, fail_pending_items,
}
use aggregator_dpg.CampaignWorker.Client.Rows.{job_row-set_job_status, is_pending_row, none_pending}
use aggregator_dpg.CampaignWorker.Messages.{truncate_reason}
use aggregator_dpg.CampaignWorker.Effects.{
  call, State, threw, and_then, Outside, Outcome, Action, ◌>>=◌, done, throw, audited,
}
use aggregator_dpg.CampaignWorker.Effects.OnTables.{rejections, rejections-append}
use aggregator_dpg.CampaignWorker.Effects.Ensures.{
  Ensured, Ensured-le, Ensures, bind-Ensures, pure-Ensures, write-Ensures, read-Ensures,
}
use aggregator_dpg.CampaignWorker.Run.{
  is_final, safe_audit, roll_up_status, record_success_path_audit, finalize_failed_job,
  completed_row, fail_run, derive_audit_outcome, is_terminal_job,
}
use aggregator_dpg.CampaignWorker.Messages.Bounds.{truncate_reason-le}
use aggregator_dpg.Prelude.Texts.{utf16_length}

-- The job is in the table.
abbrev pub HasRow : String → Tables → Type 0
HasRow job_id t = (row : CampaignJob) × (job_row job_id t ≡ some row)

-- The job is in the table, with this status.
abbrev pub HasStatus : String → CampaignJobStatus → Tables → Type 0
HasStatus job_id status t =
    (row : CampaignJob) × (job_row job_id t ≡ some row) × (row.status ≡ status)

-- The job has the status that its items give.
abbrev pub IsRolledUp : String → Tables → Type 0
IsRolledUp job_id t = HasStatus job_id (derive_job_status (count_items job_id t)) t

-- The state of a job whose last attempt failed with `e`.
pub record IsFailed (job_id : String) (e : Failure) (t : Tables) : Type 0 where
  pub row : CampaignJob
  pub found : job_row job_id t ≡ some row
  pub status : row.status ≡ CampaignJobStatus.failed
  pub reason : row.error_reason ≡ some (truncate_reason e.message)
  pub short : utf16_length (truncate_reason e.message) ≤ 500
  pub settled : any is_pending_row (rows_of job_id t) ≡ false

-- What a run that threw `e` leaves behind.
abbrev pub Leaves : String → Bool → Failure → Tables → Type 0
Leaves job_id true e t = IsFailed job_id e t
Leaves job_id false e t = HasStatus job_id processing t

-- How a run from the state `s` ends. A run that threw has left the job as `Leaves` says, or an
-- access of the tables was rejected while it ran.
abbrev pub Ends : {W : Type 0} → String → Bool → State W → Outcome (Unit {0}) × State W → Type 0
Ends job_id last s (done _, t) = IsRolledUp job_id t.tables
Ends job_id last s (threw e, t) =
    (rejections s.trace < rejections t.trace) ⊎ Leaves job_id last e t.tables

module _ {W : Type 0} (o : Outside W) (config : CampaignJobConfig) (attempt : Option Attempt)
    (has_writer : Bool) (run_channel : ProcessingJob → Action W (Unit {0})) where
  pub safe_audit-tables :
      (row : ℕ → CompletedAudit) (s : State W)
      → (safe_audit o config attempt has_writer row s).1.tables ≡ s.tables
  unfolding safe_audit call
  safe_audit-tables row s = ground arith

  -- The audit returns, and leaves the tables.
  safe_audit-Ensures :
      (P : Tables → Type 0) (row : ℕ → CompletedAudit)
      → Ensures P (λ _. P) (safe_audit o config attempt has_writer row)
  unfolding safe_audit call
  safe_audit-Ensures P row = record {
    ensures = λ s p. elim (Bool-cases has_writer) [
      | inl h ↦
          rw (h, safe_audit)
            (p, omega (arith, rejections-append s.trace (audited (row (o.clock s.world)) ∷ [])))
      | inr h ↦ rw (h, safe_audit) (p, omega arith)
    ];
  }

  record_success-Ensures :
      (P : Tables → Type 0) (job : ProcessingJob) (status : CampaignJobStatus)
      (counts : JobStatusCounts)
      → Ensures P (λ _. P) (record_success_path_audit o config attempt has_writer job status counts)
  unfolding record_success_path_audit
  record_success-Ensures P job status counts = elim (Bool-cases (is_terminal_job status)) [
    | inl h ↦
        rw (h, record_success_path_audit)
          (safe_audit-Ensures P
            (completed_row o config attempt job (derive_audit_outcome status) none counts))
    | inr h ↦ rw (h, record_success_path_audit) (pure-Ensures P (λ _. P) tt (λ t p. p))
  ]

  count_items-set_job_status :
      (job_id : String) (status : CampaignJobStatus) (reason : Option String) (now : ℕ) (t : Tables)
      → count_items job_id (set_job_status job_id status reason now t) ≡ count_items job_id t
  unfolding count_items set_job_status
  count_items-set_job_status job_id status reason now t = refl

  set_job_status-IsRolledUp :
      (job_id : String) (counts : JobStatusCounts) (now : ℕ) (t : Tables)
      → HasRow job_id t × (counts ≡ count_items job_id t)
      → IsRolledUp job_id (set_job_status job_id (derive_job_status counts) none now t)
  set_job_status-IsRolledUp job_id counts now t ((row, found), same) =
      let (row', found', status, _) =
        job_row-set_job_status job_id (derive_job_status counts) none now t found in
      (row', found', rw (count_items-set_job_status, ← same) status)

  roll_up_status-Ensures :
      (job_id : String)
      → Ensures (HasRow job_id) (λ _. IsRolledUp job_id) (roll_up_status o config attempt job_id)
  unfolding roll_up_status
  roll_up_status-Ensures job_id =
      bind-Ensures
        (read-Ensures (HasRow job_id) (λ c t. HasRow job_id t × (c ≡ count_items job_id t)) o
          (count_items job_id) (λ t p. (p, refl)))
        λ counts.
          bind-Ensures
            (write-Ensures (λ t. HasRow job_id t × (counts ≡ count_items job_id t))
              (IsRolledUp job_id) o _ (set_job_status-IsRolledUp job_id counts))
            λ u. pure-Ensures (IsRolledUp job_id) (λ _. IsRolledUp job_id) _ (λ t p. p)

  -- What follows the handler when it returned.
  abbrev pub roll_up_and_audit : ProcessingJob → Action W (Unit {0})
  roll_up_and_audit job = do
    rolled ← roll_up_status o config attempt job.id
    record_success_path_audit o config attempt has_writer job rolled.0 rolled.1

  roll_up_and_audit-Ensures :
      (job : ProcessingJob)
      → Ensures (HasRow job.id) (λ _. IsRolledUp job.id) (roll_up_and_audit job)
  roll_up_and_audit-Ensures job =
      bind-Ensures (roll_up_status-Ensures job.id)
        λ rolled. record_success-Ensures (IsRolledUp job.id) job rolled.0 rolled.1

  module _ (job : ProcessingJob) (e : Failure) where
    abbrev AllFailed : Tables → Type 0
    AllFailed t = HasRow job.id t × (any is_pending_row (rows_of job.id t) ≡ false)

    fail_pending-AllFailed :
        (now : ℕ) (t : Tables)
        → HasRow job.id t
        → AllFailed (fail_pending_items job.id "job_failed" now t)
    unfolding fail_pending_items
    fail_pending-AllFailed now t (row, found) =
        ((row, found), none_pending job.id "job_failed" now t)

    set_job_status-IsFailed :
        (now : ℕ) (t : Tables)
        → AllFailed t
        → IsFailed job.id e (
            set_job_status job.id CampaignJobStatus.failed (some (truncate_reason e.message)) now t)
    unfolding set_job_status
    set_job_status-IsFailed now t ((row, found), settled) =
        let (row', found', status, reason) =
          job_row-set_job_status job.id CampaignJobStatus.failed (some (truncate_reason e.message))
            now t found in
        record {
          row = row';
          found = found';
          status = status;
          reason = reason;
          short = truncate_reason-le e.message;
          settled = settled;
        }

    finalize-Ensures_by :
        (P Q R : Tables → Type 0)
        → ((now : ℕ) (t : Tables) → P t → Q (fail_pending_items job.id "job_failed" now t))
        → ((now : ℕ) (t : Tables)
            → Q t
            → R (
                set_job_status job.id CampaignJobStatus.failed
                  (some (truncate_reason e.message))
                  now
                  t))
        → Ensures P (λ _. R) (finalize_failed_job o config attempt has_writer job e)
    unfolding finalize_failed_job
    finalize-Ensures_by P Q R first second = bind-Ensures (write-Ensures P Q o _ first) λ u.
        bind-Ensures (write-Ensures Q R o _ second) λ v.
          bind-Ensures (read-Ensures R (λ _. R) o (count_items job.id) (λ t p. p)) λ counts.
            safe_audit-Ensures R
              (completed_row o config attempt job AuditOutcome.failed (some e.error_type) counts)

    finalize-IsFailed :
        Ensures
          (HasRow job.id)
          (λ _. IsFailed job.id e)
          (finalize_failed_job o config attempt has_writer job e)
    finalize-IsFailed =
        finalize-Ensures_by (HasRow job.id) AllFailed (IsFailed job.id e) fail_pending-AllFailed
          set_job_status-IsFailed

    finalize-le :
        (t : State W)
        → rejections t.trace
          ≤ rejections (finalize_failed_job o config attempt has_writer job e t).1.trace
    finalize-le t =
        Ensured-le (λ _ _. Unit) t _
          ((finalize-Ensures_by (λ _. Unit) (λ _. Unit) (λ _. Unit) (λ n t p. tt)
              (λ n t p. tt)).ensures
            t tt)

    abbrev rethrown : Outcome (Unit {0}) × State W → Outcome (Unit {0}) × State W
    rethrown m = and_then m.0 (λ _. throw e) m.1

    rethrown-Ends :
        (s t : State W) (m : Outcome (Unit {0}) × State W)
        → rejections s.trace ≤ rejections t.trace
        → Ensured (λ _. IsFailed job.id e) t m
        → Ends job.id true s (rethrown m)
    rethrown-Ends s t (done a, u) le h = inr h.0
    rethrown-Ends s t (threw x, u) le h = inl (omega (arith, le, h))

    -- The handler threw `e`, and the job is processing.
    fail_run-Ends :
        (s t : State W)
        → rejections s.trace ≤ rejections t.trace
        → HasStatus job.id processing t.tables
        → Ends job.id
            (is_final attempt)
            s
            (fail_run o config attempt has_writer run_channel job e t)
    unfolding fail_run
    fail_run-Ends s t le (row, found, status) = elim (Bool-cases (is_final attempt)) [
      | inl last ↦
          rw (last, fail_run)
            (rethrown-Ends s t (finalize_failed_job o config attempt has_writer job e t) le
              (finalize-IsFailed.ensures t (row, found)))
      | inr more ↦ rw (more, fail_run) (inr (row, found, status))
    ]

    rethrown-rejected :
        (last : Bool) (s : State W) (m : Outcome (Unit {0}) × State W)
        → rejections s.trace < rejections m.1.trace
        → Ends job.id last s (rethrown m)
    rethrown-rejected last s (done a, u) h = inl h
    rethrown-rejected last s (threw x, u) h = inl h

    -- An access was rejected before.
    fail_run-rejected :
        (s t : State W)
        → rejections s.trace < rejections t.trace
        → Ends job.id
            (is_final attempt)
            s
            (fail_run o config attempt has_writer run_channel job e t)
    unfolding fail_run
    fail_run-rejected s t less = elim (Bool-cases (is_final attempt)) [
      | inl last ↦
          rw (last, fail_run)
            (rethrown-rejected true s (finalize_failed_job o config attempt has_writer job e t)
              (omega (arith, less, finalize-le t)))
      | inr more ↦ rw (more, fail_run) (inl less)
    ]

  abbrev pub caught : ProcessingJob → Outcome (Unit {0}) × State W → Outcome (Unit {0}) × State W
  caught job m = elim m.0 [
    | done a ↦ (done a, m.1)
    | threw e ↦ fail_run o config attempt has_writer run_channel job e m.1
  ]

  caught-Ends :
      (job : ProcessingJob) (s t : State W) (m : Outcome (Unit {0}) × State W)
      → rejections s.trace ≤ rejections t.trace
      → Ensured (λ _. IsRolledUp job.id) t m
      → Ends job.id (is_final attempt) s (caught job m)
  caught-Ends job s t (done a, u) le h = h.0
  caught-Ends job s t (threw e, u) le h = fail_run-rejected job e s u (omega (arith, le, h))

  -- The run of a job after its handler ended with `r`.
  pub after-Ends :
      (job : ProcessingJob) (s : State W) (r : Outcome (Unit {0})) (t : State W)
      → rejections s.trace ≤ rejections t.trace
      → HasStatus job.id processing t.tables
      → Ends job.id (is_final attempt) s (caught job (and_then r (λ _. roll_up_and_audit job) t))
  after-Ends job s (done a) t le (row, found, status) =
      caught-Ends job s t (roll_up_and_audit job t) le
        ((roll_up_and_audit-Ensures job).ensures t (row, found))
  after-Ends job s (threw e) t le status = fail_run-Ends job e s t le status
