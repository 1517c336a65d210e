-- ===== src/CampaignWorker/Client.antt =====
-- campaign-job-client.ts: each query by what it selects and sets. `now` is `new Date()`.
pub mod Forward
pub mod Writes
pub mod Rows
pub mod Counts
use aggregator_dpg.Prelude.{
  ℕ, ◌+◌, ◌*◌, String, Bool, not, Option, none, some, List, [], ◌∷◌, map, ◌&&◌, ◌=ₛ◌, if◌then◌else◌,
  find, keep, ltb, ◌==◌,
}
use aggregator_dpg.Prelude.Json.{Json}
use aggregator_dpg.CampaignJobs.Types.{
  CampaignJobStatus, processing, partial, completed, CampaignJobItemStatus, pending, resolved,
  submitted, sent, skipped_not_owned, skipped_no_contact, duplicate_active, skipped_item_statuses,
  terminal_item_statuses, terminal_job_statuses, includes_item, includes_job, item_status_eq,
  job_status_eq, JobStatusCounts,
}
use aggregator_dpg.CampaignWorker.Types.{
  CampaignJob, CampaignJobItem, Tables, ProcessingJobItem, ProcessingJob, AuditCounts,
}

-- `update(table).set(f).where(p)`
abbrev pub update_where {ℓ} : {A : Type ℓ} → (A → Bool) → (A → A) → List A → List A
update_where p f rows = map (λ r. if p r then f r else r) rows

abbrev pub item_of : CampaignJobItem → ProcessingJobItem
item_of i = record {
  item_id = i.item_id;
  action = i.action;
  status = i.status;
  provider_batch_ref = i.provider_batch_ref;
}

abbrev pub rows_of : String → Tables → List CampaignJobItem
rows_of job_id t = keep (λ i. i.job_id =ₛ job_id) t.items

abbrev pub job_row : String → Tables → Option CampaignJob
job_row job_id t = find (λ j. j.id =ₛ job_id) t.jobs

unfoldable pub processing_job : CampaignJob → List CampaignJobItem → ProcessingJob
processing_job row items = record {
  id = row.id;
  channel = row.channel;
  status = row.status;
  signalstack_org_id = row.signalstack_org_id;
  metadata = row.metadata;
  content = row.content;
  requested_by = row.requested_by;
  request_id = row.request_id;
  notified_at = row.notified_at;
  items = map item_of items;
}

unfoldable pub get_job_for_processing : String → Tables → Option ProcessingJob
unfolding processing_job
get_job_for_processing job_id t = elim (job_row job_id t) [
  | none ↦ none
  | some row ↦ some (processing_job row (rows_of job_id t))
]

unfoldable pub derive_job_status : JobStatusCounts → CampaignJobStatus
derive_job_status c =
    if ltb 0 c.pending
    then processing
    else if c.total == 0
    then completed
    else (let succeeded = c.resolved + c.submitted + c.sent in
        if c.failed == 0
        then completed
        else if succeeded == 0
        then CampaignJobStatus.failed
        else partial)

-- A row of the grouped count: the status and how many items have it.
abbrev pub Group : Type 0
Group = CampaignJobItemStatus × ℕ

-- `count()` over `groupBy(status)`: one group for each status that occurs, in the order of first
-- occurrence.
unfoldable pub add_to_group : CampaignJobItemStatus → List Group → List Group
add_to_group s [] = (s, 1) ∷ []
add_to_group s (g ∷ gs) =
    let rest = add_to_group s gs in if item_status_eq g.0 s then (g.0, g.1 + 1) ∷ gs else g ∷ rest

unfoldable pub group_by_status : List CampaignJobItem → List Group
unfolding add_to_group
group_by_status [] = []
group_by_status (i ∷ items) = add_to_group i.status (group_by_status items)

abbrev pub no_counts : JobStatusCounts
no_counts = record {
  total = 0;
  pending = 0;
  resolved = 0;
  submitted = 0;
  sent = 0;
  skipped_not_owned = 0;
  skipped_no_contact = 0;
  duplicate_active = 0;
  failed = 0;
}

-- `counts[r.status] += n`
unfoldable pub add_count : CampaignJobItemStatus → ℕ → JobStatusCounts → JobStatusCounts
add_count pending n c = record c { pending = c.pending + n }
add_count resolved n c = record c { resolved = c.resolved + n }
add_count submitted n c = record c { submitted = c.submitted + n }
add_count sent n c = record c { sent = c.sent + n }
add_count skipped_not_owned n c = record c { skipped_not_owned = c.skipped_not_owned + n }
add_count skipped_no_contact n c = record c { skipped_no_contact = c.skipped_no_contact + n }
add_count duplicate_active n c = record c { duplicate_active = c.duplicate_active + n }
add_count CampaignJobItemStatus.failed n c = record c { failed = c.failed + n }

-- The loop over the groups.
unfoldable pub add_groups : JobStatusCounts → List Group → JobStatusCounts
unfolding add_count
add_groups c [] = c
add_groups c (g ∷ gs) =
    let c' = add_count g.0 g.1 c in add_groups (record c' { total = c'.total + g.1 }) gs

unfoldable pub count_items : String → Tables → JobStatusCounts
unfolding add_groups group_by_status
count_items job_id t = add_groups no_counts (group_by_status (rows_of job_id t))

-- The `where` of markItem and markSubmitted: the item, unless it is in a terminal status.
abbrev pub is_open : CampaignJobItem → Bool
is_open i = not (includes_item terminal_item_statuses i.status)

abbrev pub is_open_item : String → String → CampaignJobItem → Bool
is_open_item job_id item_id i = i.job_id =ₛ job_id && i.item_id =ₛ item_id && is_open i

abbrev pub or_keep {ℓ} : {A : Type ℓ} → Option A → Option A → Option A
or_keep none old = old
or_keep (some new) old = some new

unfoldable pub mark :
    CampaignJobItemStatus → Option String → Option String → ℕ → CampaignJobItem → CampaignJobItem
mark status reason provider_ref now i =
    let is_skip = includes_item skipped_item_statuses status in
    record i {
      status = status;
      skip_reason = if is_skip then reason else none;
      error_reason = if is_skip then none else reason;
      provider_ref = or_keep provider_ref i.provider_ref;
      updated_at = now;
      completed_at =
          if includes_item terminal_item_statuses status then some now else i.completed_at;
    }

unfoldable pub mark_item :
    String → String → CampaignJobItemStatus → Option String → Option String → ℕ → Tables → Tables
unfolding mark
mark_item job_id item_id status reason provider_ref now t = record t {
  items = update_where (is_open_item job_id item_id) (mark status reason provider_ref now) t.items;
}

unfoldable pub submit : String → Option String → ℕ → CampaignJobItem → CampaignJobItem
submit provider_batch_ref provider_ref now i = record i {
  status = submitted;
  provider_batch_ref = some provider_batch_ref;
  provider_ref = or_keep provider_ref i.provider_ref;
  updated_at = now;
  completed_at = some now;
}

unfoldable pub mark_submitted : String → String → String → Option String → ℕ → Tables → Tables
unfolding submit
mark_submitted job_id item_id provider_batch_ref provider_ref now t = record t {
  items =
      update_where (is_open_item job_id item_id) (submit provider_batch_ref provider_ref now)
        t.items;
}

-- The updates of a job by its id.
abbrev pub update_job : String → (CampaignJob → CampaignJob) → Tables → Tables
update_job job_id f t = record t { jobs = update_where (λ j. j.id =ₛ job_id) f t.jobs }

unfoldable pub set_provider_response : String → Json → ℕ → Tables → Tables
set_provider_response job_id response now t =
    update_job job_id (λ j. record j { provider_response = response; updated_at = now }) t

unfoldable pub heartbeat : String → ℕ → Tables → Tables
heartbeat job_id now t = update_job job_id (λ j. record j { last_progress_at = some now }) t

unfoldable pub set_job_status : String → CampaignJobStatus → Option String → ℕ → Tables → Tables
set_job_status job_id status error_reason now t =
    update_job job_id
      (λ j. record j {
        status = status;
        error_reason = or_keep error_reason j.error_reason;
        updated_at = now;
        completed_at =
            if includes_job terminal_job_statuses status then some now else j.completed_at;
      })
      t

unfoldable pub set_notified_at : String → ℕ → Tables → Tables
set_notified_at job_id now t =
    update_job job_id (λ j. record j { notified_at = some now; updated_at = now }) t

unfoldable pub fail_pending_items : String → String → ℕ → Tables → Tables
fail_pending_items job_id error_reason now t = record t {
  items =
      update_where (λ i. i.job_id =ₛ job_id && item_status_eq i.status pending)
        (λ i. record i {
          status = CampaignJobItemStatus.failed;
          error_reason = some error_reason;
          updated_at = now;
        })
        t.items;
}

unfoldable pub to_audit_counts : JobStatusCounts → AuditCounts
to_audit_counts c = record {
  resolved_count = c.resolved + c.submitted;
  skipped_count = c.skipped_not_owned + c.skipped_no_contact + c.duplicate_active;
  failed_count = c.failed;
  sent_count = c.sent;
}

-- `lastProgressAt < now() - olderThanSeconds`, with the term moved across; null is not below.
abbrev pub stalled_before : ℕ → ℕ → Option ℕ → Bool
stalled_before seconds now none = Bool.false
stalled_before seconds now (some at) = ltb (at + seconds * 1000) now

unfoldable pub claim_stalled_jobs : ℕ → ℕ → Tables → List String
claim_stalled_jobs seconds now t =
    map (λ j. j.id)
      (keep
        (λ j. job_status_eq j.status processing && stalled_before seconds now j.last_progress_at)
        t.jobs)
