-- ===== src/CampaignWorker/Client/Writes.antt =====
-- Each write of the client within the relations of Forward.
use aggregator_dpg.Prelude.{
  ℕ, String, ◌≡◌, refl, inr, Bool, true, not, ◌&&◌, Option, arith, ◌=ₛ◌, &&→left, &&→right,
}
use aggregator_dpg.Prelude.Pointwise.{Pointwise-refl}
use aggregator_dpg.CampaignWorker.Client.Forward.{
  update_where-Pointwise, is_some, ItemStep, JobStep, HandlerStep, Forward, Handles, ItemStep-refl,
  JobStep-refl, HandlerStep-refl,
}
use aggregator_dpg.CampaignWorker.Types.{CampaignJob, CampaignJobItem, Tables}
use aggregator_dpg.CampaignWorker.Client.{
  update_where, is_open, is_open_item, mark, mark_item, submit, mark_submitted, update_job,
  set_provider_response, heartbeat, set_job_status, set_notified_at, fail_pending_items,
}
use aggregator_dpg.CampaignJobs.Types.{
  CampaignJobStatus, CampaignJobItemStatus, pending, includes_item, terminal_item_statuses,
  item_status_eq,
}
use aggregator_dpg.Prelude.Json.{Json}

module _ (job_id : String) where
  -- An update of open items of the job that keeps their names.
  items-Handles :
      (p : CampaignJobItem → Bool) (f : CampaignJobItem → CampaignJobItem)
      → ((i : CampaignJobItem) → p i ≡ true → ItemStep job_id i (f i))
      → (t : Tables) → Handles job_id t (record t { items = update_where p f t.items })
  items-Handles p f h t = record {
    items = update_where-Pointwise (ItemStep job_id) p f (ItemStep-refl job_id) h t.items;
    jobs = Pointwise-refl (HandlerStep job_id) (HandlerStep-refl job_id) t.jobs;
  }

  open_item :
      (item_id : String) (i : CampaignJobItem)
      → is_open_item job_id item_id i ≡ true
      → ((i.job_id =ₛ job_id) ≡ true) × (is_open i ≡ true)
  open_item item_id i h = ground arith

  pub mark_item-Handles :
      (item_id : String) (status : CampaignJobItemStatus) (reason ref : Option String) (now : ℕ)
      (t : Tables)
      → Handles job_id t (mark_item job_id item_id status reason ref now t)
  unfolding mark_item
  mark_item-Handles item_id status reason ref now t =
      items-Handles (is_open_item job_id item_id) (mark status reason ref now)
        (λ i h. record {
          same_job = refl;
          same_item = refl;
          change = inr (open_item item_id i h);
          batch = λ e. e;
        })
        t

  pub mark_submitted-Handles :
      (item_id batch : String) (ref : Option String) (now : ℕ) (t : Tables)
      → Handles job_id t (mark_submitted job_id item_id batch ref now t)
  unfolding mark_submitted
  mark_submitted-Handles item_id batch ref now t =
      items-Handles (is_open_item job_id item_id) (submit batch ref now)
        (λ i h. record {
          same_job = refl;
          same_item = refl;
          change = inr (open_item item_id i h);
          batch = λ e. refl;
        })
        t

  pending-open :
      (i : CampaignJobItem)
      → (i.job_id =ₛ job_id && item_status_eq i.status pending) ≡ true
      → ((i.job_id =ₛ job_id) ≡ true) × (is_open i ≡ true)
  pending-open i h = (&&→left _ _ h, pending_is_open i.status (&&→right _ _ h))
    where
      pending_is_open :
          (s : CampaignJobItemStatus)
          → item_status_eq s pending ≡ true
          → not (includes_item terminal_item_statuses s) ≡ true
      pending_is_open s e = ground arith

  pub fail_pending_items-Handles :
      (reason : String) (now : ℕ) (t : Tables)
      → Handles job_id t (fail_pending_items job_id reason now t)
  unfolding fail_pending_items
  fail_pending_items-Handles reason now t =
      items-Handles _ _
        (λ i h. record {
          same_job = refl;
          same_item = refl;
          change = inr (pending-open i h);
          batch = λ e. e;
        })
        t

  -- What an update of a job leaves: the id, the channel, the org, and a stamp that is there.
  abbrev LeavesNames : (CampaignJob → CampaignJob) → Type 0
  LeavesNames f =
      (a : CampaignJob)
      → ((f a).id ≡ a.id)
        × ((f a).channel ≡ a.channel)
        × ((f a).signalstack_org_id ≡ a.signalstack_org_id)
        × (is_some a.notified_at ≡ true → is_some (f a).notified_at ≡ true)

  JobStep-update :
      (f : CampaignJob → CampaignJob)
      → LeavesNames f
      → (a : CampaignJob) → (a.id =ₛ job_id) ≡ true
      → JobStep job_id a (f a)
  JobStep-update f h a own = record {
    same_id = (h a).0;
    same_channel = (h a).1;
    same_org = (h a).2;
    change = inr own;
    stamp = (h a).3;
  }

  job-Handles :
      (f : CampaignJob → CampaignJob)
      → LeavesNames f
      → ((a : CampaignJob) → (f a).status ≡ a.status)
      → (t : Tables) → Handles job_id t (update_job job_id f t)
  job-Handles f h status t = record {
    items = Pointwise-refl (ItemStep job_id) (ItemStep-refl job_id) t.items;
    jobs =
        update_where-Pointwise (HandlerStep job_id) (λ j. j.id =ₛ job_id) f
          (HandlerStep-refl job_id)
          (λ a own. record { step = JobStep-update f h a own; same_status = status a }) t.jobs;
  }

  pub heartbeat-Handles : (now : ℕ) (t : Tables) → Handles job_id t (heartbeat job_id now t)
  unfolding heartbeat
  heartbeat-Handles now t = job-Handles _ (λ a. (refl, refl, refl, λ e. e)) (λ a. refl) t

  pub set_provider_response-Handles :
      (response : Json) (now : ℕ) (t : Tables)
      → Handles job_id t (set_provider_response job_id response now t)
  unfolding set_provider_response
  set_provider_response-Handles response now t =
      job-Handles _ (λ a. (refl, refl, refl, λ e. e)) (λ a. refl) t

  pub set_notified_at-Handles :
      (now : ℕ) (t : Tables) → Handles job_id t (set_notified_at job_id now t)
  unfolding set_notified_at
  set_notified_at-Handles now t = job-Handles _ (λ a. (refl, refl, refl, λ e. refl)) (λ a. refl) t

  pub set_job_status-Forward :
      (status : CampaignJobStatus) (reason : Option String) (now : ℕ) (t : Tables)
      → Forward job_id t (set_job_status job_id status reason now t)
  unfolding set_job_status
  set_job_status-Forward status reason now t = record {
    items = Pointwise-refl (ItemStep job_id) (ItemStep-refl job_id) t.items;
    jobs =
        update_where-Pointwise (JobStep job_id) (λ j. j.id =ₛ job_id) _ (JobStep-refl job_id)
          (JobStep-update _ (λ a. (refl, refl, refl, λ e. e))) t.jobs;
  }
