-- ===== src/CampaignJobs/Store/Steps.antt =====
-- Any interleaving of the methods that change the store, and the invariant along it.
use mathlib.Core.Path.{subst}
use aggregator_dpg.Prelude.{ℕ, String, none, Option, ◌≡◌, ◌≢◌, refl, sym, ◌∙◌, arith}
use aggregator_dpg.Prelude.Json.{Json}
use aggregator_dpg.Prelude.JsMap
use aggregator_dpg.CampaignJobs.Types.{
  CampaignJobStatus, CampaignJobItemStatus, CreateJobInput, ItemRow, JobRow, Store,
}
use aggregator_dpg.CampaignJobs.Status.{derive_job_status, tally}
use aggregator_dpg.CampaignJobs.Store.Create.{create_job}
use aggregator_dpg.CampaignJobs.Store.Update.{
  mark_item, mark_submitted, set_provider_response, heartbeat, set_job_status, roll_up_status,
  write_item, write_job, mark, submit, items_of,
}
use aggregator_dpg.CampaignJobs.Store.Valid.{
  IsValid, KeepsIdentity, write_job-IsValid, write_item-IsValid,
}
use aggregator_dpg.CampaignJobs.Store.Insert.{create_job-IsValid}

-- What is relied on of `randomUUID`: a text that is not empty and names no job yet.
pub record IsFresh (id : String) (s : Store) : Type 0 where
  pub no_job : JsMap.get s.jobs id ≡ none
  pub no_items : JsMap.get s.items id ≡ none
  pub named : id ≢ ""

-- One call of a method that writes.
pub data Step (s u : Store) : Type 0 where
  creates :
      (input : CreateJobInput) (id : String) (now : ℕ)
      → IsFresh id s
      → u ≡ (create_job input id now s).1
      → Step s u
  marks :
      (job_id item_id : String) (status : CampaignJobItemStatus)
      (reason provider_ref : Option String) (now : ℕ)
      → u ≡ (mark_item job_id item_id status reason provider_ref now s).1
      → Step s u
  submits :
      (job_id item_id provider_batch_ref : String) (provider_ref : Option String) (now : ℕ)
      → u ≡ (mark_submitted job_id item_id provider_batch_ref provider_ref now s).1
      → Step s u
  responds :
      (job_id : String) (response : Json) (now : ℕ)
      → u ≡ (set_provider_response job_id response now s).1
      → Step s u
  beats : (job_id : String) (now : ℕ) → u ≡ (heartbeat job_id now s).1 → Step s u
  sets_status :
      (job_id : String) (status : CampaignJobStatus) (error_reason : Option String) (now : ℕ)
      → u ≡ (set_job_status job_id status error_reason now s).1
      → Step s u
  rolls_up : (job_id : String) (now : ℕ) → u ≡ (roll_up_status job_id now s).1 → Step s u

pub data Reach (s : Store) : Store → Type 0 where
  here : Reach s s
  next : {t u : Store} → Reach s t → Step t u → Reach s u

-- Each method but `createJob` writes one item and its job's time, or one job.
pub data Shape (s u : Store) : Type 0 where
  inserts :
      (input : CreateJobInput) (id : String) (now : ℕ)
      → IsFresh id s
      → u ≡ (create_job input id now s).1
      → Shape s u
  on_item :
      (f : ItemRow → ItemRow) (job_id item_id : String) (now : ℕ)
      → ((i : ItemRow) → (f i).item_id ≡ i.item_id)
      → u ≡ (write_item f job_id item_id now s).1
      → Shape s u
  on_job :
      (f : JobRow → JobRow) (job_id : String)
      → KeepsIdentity f
      → u ≡ (write_job f job_id s).1
      → Shape s u

roll_up_status_lem :
    (job_id : String) (now : ℕ) (s : Store)
    → (roll_up_status job_id now s).1
      ≡ (set_job_status job_id (derive_job_status (tally (items_of s job_id))) none now s).1
unfolding roll_up_status
roll_up_status_lem job_id now s = ground arith

set_job_status-Shape :
    (job_id : String) (status : CampaignJobStatus) (error_reason : Option String) (now : ℕ)
    {s u : Store}
    → u ≡ (set_job_status job_id status error_reason now s).1
    → Shape s u
unfolding set_job_status
set_job_status-Shape job_id status error_reason now e =
    on_job _ job_id (record { id = λ job. refl; org = λ job. refl; seq = λ job. refl }) e

pub Step-Shape : {s u : Store} → Step s u → Shape s u
unfolding mark_item mark_submitted set_provider_response heartbeat
Step-Shape (creates input id now fresh e) = inserts input id now fresh e
Step-Shape (marks job_id item_id status reason provider_ref now e) =
    on_item (mark status reason provider_ref) job_id item_id now (λ i. refl) e
Step-Shape (submits job_id item_id batch provider_ref now e) =
    on_item (submit batch provider_ref) job_id item_id now (λ i. refl) e
Step-Shape (responds job_id response now e) =
    on_job _ job_id (record { id = λ job. refl; org = λ job. refl; seq = λ job. refl }) e
Step-Shape (beats job_id now e) =
    on_job _ job_id (record { id = λ job. refl; org = λ job. refl; seq = λ job. refl }) e
Step-Shape (sets_status job_id status error_reason now e) =
    set_job_status-Shape job_id status error_reason now e
Step-Shape {s} (rolls_up job_id now e) =
    set_job_status-Shape job_id (derive_job_status (tally (items_of s job_id))) none now
      (e ∙ roll_up_status_lem job_id now s)

Shape-IsValid : {s u : Store} → Shape s u → IsValid s → IsValid u
Shape-IsValid {s} (inserts input id now fresh e) v =
    subst IsValid (sym e) (create_job-IsValid input id now s v fresh.no_job fresh.named)
Shape-IsValid {s} (on_item f job_id item_id now keeps e) v =
    subst IsValid (sym e) (write_item-IsValid f job_id item_id now s v)
Shape-IsValid {s} (on_job f job_id keeps e) v =
    subst IsValid (sym e) (write_job-IsValid f keeps job_id s v)

-- Whatever calls are made in whatever order, the store stays valid: the map of jobs is keyed by
-- their ids, every idempotency key names a job of its own org, and the sequence numbers ascend.
pub Reach-IsValid : {s u : Store} → IsValid s → Reach s u → IsValid u
Reach-IsValid v here = v
Reach-IsValid v (next r st) = Shape-IsValid (Step-Shape st) (Reach-IsValid v r)
