-- ===== src/CampaignJobs/Store/Update.antt =====
-- The methods of memory.ts that change a job or an item, and `rollUpStatus` of interface.ts.
use aggregator_dpg.Prelude.{
  ℕ, String, Bool, Option, none, some, List, [], ◌∷◌, ◌=ₛ◌, if◌then◌else◌, find,
}
use aggregator_dpg.Prelude.Json.{Json}
use aggregator_dpg.Prelude.JsMap
use aggregator_dpg.CampaignJobs.Types.{
  CampaignJobStatus, CampaignJobItemStatus, submitted, skipped_item_statuses,
  terminal_item_statuses, includes_item, ItemRow, JobRow, JobStatusCounts, not_found, StoreResult,
  ok, error, rejected, Store,
}
use aggregator_dpg.CampaignJobs.Status.{derive_job_status, tally}

abbrev pub missing {ℓ} : {A : Type ℓ} → String → StoreResult A
missing message = error (record { code = not_found; message = message })

-- `this.items.get(jobId) ?? []`
unfoldable pub items_of : Store → String → List ItemRow
unfolding JsMap.get
items_of s job_id = elim (JsMap.get s.items job_id) [ none ↦ [] | some rows ↦ rows ]

abbrev pub is_terminal_item : ItemRow → Bool
is_terminal_item i = includes_item terminal_item_statuses i.status

-- Writes to the first row of the item, as the object that `find` returns is written to.
unfoldable pub update_item : (ItemRow → ItemRow) → String → List ItemRow → List ItemRow
update_item f item_id [] = []
update_item f item_id (i ∷ rows) =
    let rest = update_item f item_id rows in if i.item_id =ₛ item_id then f i ∷ rows else i ∷ rest

-- Writes to the object of a job, where there is one.
unfoldable pub update_job : (JobRow → JobRow) → String → Store → Store
unfolding JsMap.get JsMap.set
update_job f job_id s = elim (JsMap.get s.jobs job_id) [
  | none ↦ s
  | some job ↦ record s { jobs = JsMap.set s.jobs job_id (f job) }
]

unfoldable pub touch : ℕ → String → Store → Store
unfolding update_job
touch now job_id s = update_job (λ job. record job { updated_at = now }) job_id s

-- `find` and the guard that `markItem` and `markSubmitted` share: an item in a terminal status is
-- left as it is.
unfoldable pub write_item :
    (ItemRow → ItemRow) → String → String → ℕ → Store → StoreResult (Unit {0}) × Store
unfolding items_of update_item touch JsMap.set
write_item f job_id item_id now s =
    let rows = items_of s job_id in
    elim (find (λ i. i.item_id =ₛ item_id) rows) [
      | none ↦ (missing "item not found", s)
      | some item ↦ (
        ok tt,
        if is_terminal_item item
            then s
            else touch now job_id
                (record s { items = JsMap.set s.items job_id (update_item f item_id rows) }),
      )
    ]

-- `providerRef` is written only if it is given.
abbrev pub or_keep : Option String → Option String → Option String
or_keep none old = old
or_keep (some new) old = some new

unfoldable pub mark : CampaignJobItemStatus → Option String → Option String → ItemRow → ItemRow
mark status reason provider_ref item =
    let is_skip = includes_item skipped_item_statuses status in
    record item {
      status = status;
      skip_reason = if is_skip then reason else none;
      error_reason = if is_skip then none else reason;
      provider_ref = or_keep provider_ref item.provider_ref;
    }

unfoldable pub mark_item :
    String
    → String
    → CampaignJobItemStatus
    → Option String
    → Option String
    → ℕ
    → Store
    → StoreResult (Unit {0}) × Store
unfolding write_item mark
mark_item job_id item_id status reason provider_ref now s =
    write_item (mark status reason provider_ref) job_id item_id now s

unfoldable pub submit : String → Option String → ItemRow → ItemRow
submit provider_batch_ref provider_ref item = record item {
  status = submitted;
  provider_batch_ref = some provider_batch_ref;
  provider_ref = or_keep provider_ref item.provider_ref;
}

unfoldable pub mark_submitted :
    String → String → String → Option String → ℕ → Store → StoreResult (Unit {0}) × Store
unfolding write_item submit
mark_submitted job_id item_id provider_batch_ref provider_ref now s =
    write_item (submit provider_batch_ref provider_ref) job_id item_id now s

-- The methods that need the job and write to it.
unfoldable pub write_job : (JobRow → JobRow) → String → Store → StoreResult (Unit {0}) × Store
unfolding update_job JsMap.get
write_job f job_id s = elim (JsMap.get s.jobs job_id) [
  | none ↦ (missing "job not found", s)
  | some job ↦ (ok tt, update_job f job_id s)
]

unfoldable pub set_provider_response : String → Json → ℕ → Store → StoreResult (Unit {0}) × Store
unfolding write_job
set_provider_response job_id response now s =
    write_job (λ job. record job { provider_response = response; updated_at = now }) job_id s

unfoldable pub heartbeat : String → ℕ → Store → StoreResult (Unit {0}) × Store
unfolding write_job
heartbeat job_id now s = write_job (λ job. record job { last_progress_at = some now }) job_id s

unfoldable pub set_job_status :
    String → CampaignJobStatus → Option String → ℕ → Store → StoreResult (Unit {0}) × Store
unfolding write_job
set_job_status job_id status error_reason now s =
    write_job
      (λ job. record job {
        status = status;
        error_reason = or_keep error_reason job.error_reason;
        updated_at = now;
      })
      job_id s

unfoldable pub count_items : String → Store → StoreResult JobStatusCounts
unfolding items_of tally
count_items job_id s = ok (tally (items_of s job_id))

-- `rollUpStatus` of the base class, over `countItems` and `setJobStatus`.
unfoldable pub roll_up_status : String → ℕ → Store → StoreResult CampaignJobStatus × Store
unfolding count_items derive_job_status set_job_status
roll_up_status job_id now s = elim (count_items job_id s) [
  | error e ↦ (error e, s)
  | rejected ↦ (rejected, s)
  | ok counts ↦
      (let status = derive_job_status counts in
        let (result, s') = set_job_status job_id status none now s in
        elim result [
          | error e ↦ (error e, s')
          | rejected ↦ (rejected, s')
          | ok done ↦ (ok status, s')
        ])
]
