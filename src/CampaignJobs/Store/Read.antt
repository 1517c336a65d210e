-- ===== src/CampaignJobs/Store/Read.antt =====
-- The read methods of memory.ts.
use aggregator_dpg.Prelude.{
  ℕ, ◌+◌, ◌*◌, String, Bool, true, false, Option, none, some, List, [], ◌∷◌, map, ◌&&◌, ◌=ₛ◌, ltb,
  last?, if◌then◌else◌, keep, length, take,
}
use aggregator_dpg.Prelude.JsMap
use aggregator_dpg.CampaignJobs.Types.{
  CampaignChannel, channel_eq, processing, job_status_eq, active_job_statuses, includes_job,
  ItemRow, JobRow, JobView, ProcessingJobView, Cursor, at, not_a_number, ListJobsOptions,
  ListJobsResult, StoreResult, ok, rejected, Store,
}
use aggregator_dpg.CampaignJobs.Status.{tally}
use aggregator_dpg.CampaignJobs.Store.Update.{items_of}

-- `channel === undefined || job.channel === channel`
abbrev pub on_channel : Option CampaignChannel → JobRow → Bool
on_channel none job = true
on_channel (some channel) job = channel_eq job.channel channel

unfoldable pub counts_as_active : String → Option CampaignChannel → JobRow → Bool
counts_as_active org channel job =
    (job.signalstack_org_id =ₛ org)
    && includes_job active_job_statuses job.status
    && on_channel channel job

unfoldable pub count_active_jobs : String → Option CampaignChannel → Store → StoreResult ℕ
unfolding counts_as_active JsMap.values
count_active_jobs org channel s =
    ok (length (keep (counts_as_active org channel) (JsMap.values s.jobs)))

unfoldable pub to_view : Store → JobRow → JobView
unfolding items_of tally
to_view s row = record {
  id = row.id;
  channel = row.channel;
  status = row.status;
  metadata = row.metadata;
  content = row.content;
  error_reason = row.error_reason;
  created_at = row.created_at;
  updated_at = row.updated_at;
  counts = tally (items_of s row.id);
  provider_response = row.provider_response;
}

-- `job?.signalstackOrgId !== signalstackOrgId` over the job that was found.
abbrev pub owned_by : String → Option JobRow → Option JobRow
owned_by org none = none
owned_by org (some job) = if job.signalstack_org_id =ₛ org then some job else none

unfoldable pub get_job : String → String → Store → StoreResult (Option JobView)
unfolding to_view JsMap.get
get_job job_id org s = elim (owned_by org (JsMap.get s.jobs job_id)) [
  | none ↦ ok none
  | some job ↦ ok (some (to_view s job))
]

unfoldable pub get_job_items : String → String → Store → StoreResult (Option (List ItemRow))
unfolding items_of JsMap.get
get_job_items job_id org s = elim (owned_by org (JsMap.get s.jobs job_id)) [
  | none ↦ ok none
  | some job ↦ ok (some (items_of s job_id))
]

unfoldable pub get_job_for_processing : String → Store → StoreResult (Option ProcessingJobView)
unfolding items_of JsMap.get
get_job_for_processing job_id s = elim (JsMap.get s.jobs job_id) [
  | none ↦ ok none
  | some job ↦ ok (
      some (record {
        id = job.id;
        channel = job.channel;
        status = job.status;
        signalstack_org_id = job.signalstack_org_id;
        metadata = job.metadata;
        content = job.content;
        requested_by = job.requested_by;
        request_id = job.request_id;
        notified_at = none;
        items = items_of s job_id;
      }))
]

-- `.sort((a, b) => b.seq - a.seq)`
unfoldable pub insert_desc : JobRow → List JobRow → List JobRow
insert_desc job [] = job ∷ []
insert_desc job (x ∷ xs) =
    let rest = insert_desc job xs in if ltb job.seq x.seq then x ∷ rest else job ∷ x ∷ xs

unfoldable pub sort_desc : List JobRow → List JobRow
unfolding insert_desc
sort_desc [] = []
sort_desc (x ∷ xs) = insert_desc x (sort_desc xs)

-- `j.seq < cursorSeq`, where an absent cursor is infinite and a comparison with NaN is false.
abbrev pub before_cursor : Option Cursor → JobRow → Bool
before_cursor none job = true
before_cursor (some (at n)) job = ltb job.seq n
before_cursor (some not_a_number) job = false

abbrev pub in_list : String → ListJobsOptions → JobRow → Bool
in_list org options job =
    (job.signalstack_org_id =ₛ org)
    && on_channel options.channel job
    && before_cursor options.cursor job

unfoldable pub list_rows : String → ListJobsOptions → Store → List JobRow
unfolding sort_desc JsMap.values
list_rows org options s = sort_desc (keep (in_list org options) (JsMap.values s.jobs))

abbrev pub limit_or_default : Option ℕ → ℕ
limit_or_default none = 20
limit_or_default (some n) = n

-- `page.at(-1)!.seq`: on an empty page the read rejects.
unfoldable pub list_jobs : String → ListJobsOptions → Store → StoreResult ListJobsResult
unfolding list_rows to_view
list_jobs org options s =
    let limit = limit_or_default options.limit in
    let rows = list_rows org options s in
    let page = take limit rows in
    if ltb limit (length rows)
    then (elim (last? page) [
      | none ↦ rejected
      | some job ↦ ok (record { jobs = map (to_view s) page; next_cursor = some (at job.seq) })
    ])
    else ok (record { jobs = map (to_view s) page; next_cursor = none })

-- `lastProgressAt.getTime() < Date.now() - olderThanSeconds * 1000`, with the term moved across.
abbrev pub older_than : ℕ → ℕ → Option ℕ → Bool
older_than seconds now none = false
older_than seconds now (some t) = ltb (t + seconds * 1000) now

unfoldable pub is_stalled : ℕ → ℕ → JobRow → Bool
is_stalled seconds now job =
    job_status_eq job.status processing && older_than seconds now job.last_progress_at

unfoldable pub claim_stalled_jobs : ℕ → ℕ → Store → StoreResult (List String)
unfolding is_stalled JsMap.values
claim_stalled_jobs seconds now s =
    ok (map (λ job. job.id) (keep (is_stalled seconds now) (JsMap.values s.jobs)))
