-- ===== src/CampaignWorker/Client/Forward.antt =====
-- What the client's writes can change, as relations between the tables before and after.
use aggregator_dpg.Prelude.{
  String, ◌≡◌, refl, ◌∙◌, ◌⊎◌, inl, inr, Bool, true, false, Option, none, some, List, [], ◌∷◌, ◌=ₛ◌,
  Bool-cases,
}
use aggregator_dpg.Prelude.Pointwise.{Pointwise, Pointwise-refl, Pointwise-trans, Pointwise-mono}
use aggregator_dpg.CampaignWorker.Types.{CampaignJob, CampaignJobItem, Tables}
use aggregator_dpg.CampaignWorker.Client.{update_where, is_open}

module _ {ℓ} {A : Type ℓ} where
  -- An update relates the rows if it relates those that it writes.
  pub update_where-Pointwise :
      (R : A → A → Type 0) (p : A → Bool) (f : A → A)
      → ((x : A) → R x x)
      → ((x : A) → p x ≡ true → R x (f x))
      → (xs : List A) → Pointwise R xs (update_where p f xs)
  update_where-Pointwise R p f same h [] = tt
  update_where-Pointwise R p f same h (x ∷ xs) = elim (Bool-cases (p x)) [
    | inl e ↦ (rw e (h x e), update_where-Pointwise R p f same h xs)
    | inr e ↦ (rw e (same x), update_where-Pointwise R p f same h xs)
  ]

abbrev pub is_some {ℓ} : {A : Type ℓ} → Option A → Bool
is_some none = false
is_some (some a) = true

-- A row of an item keeps its name, and its contents unless it is an open item of the job; a batch
-- reference, once written, stays.
pub record ItemStep (job_id : String) (i j : CampaignJobItem) : Type 0 where
  pub same_job : j.job_id ≡ i.job_id
  pub same_item : j.item_id ≡ i.item_id
  pub change : (j ≡ i) ⊎ ((i.job_id =ₛ job_id) ≡ true) × (is_open i ≡ true)
  pub batch : is_some i.provider_batch_ref ≡ true → is_some j.provider_batch_ref ≡ true

-- A row of a job keeps its id, channel and org, and its contents unless it is the job; the stamp of
-- the notification, once written, stays.
pub record JobStep (job_id : String) (a b : CampaignJob) : Type 0 where
  pub same_id : b.id ≡ a.id
  pub same_channel : b.channel ≡ a.channel
  pub same_org : b.signalstack_org_id ≡ a.signalstack_org_id
  pub change : (b ≡ a) ⊎ ((a.id =ₛ job_id) ≡ true)
  pub stamp : is_some a.notified_at ≡ true → is_some b.notified_at ≡ true

-- What a channel handler does to a job: it leaves the status.
pub record HandlerStep (job_id : String) (a b : CampaignJob) : Type 0 where
  pub step : JobStep job_id a b
  pub same_status : b.status ≡ a.status

pub record Forward (job_id : String) (t u : Tables) : Type 0 where
  pub items : Pointwise (ItemStep job_id) t.items u.items
  pub jobs : Pointwise (JobStep job_id) t.jobs u.jobs

pub record Handles (job_id : String) (t u : Tables) : Type 0 where
  pub items : Pointwise (ItemStep job_id) t.items u.items
  pub jobs : Pointwise (HandlerStep job_id) t.jobs u.jobs

module _ (job_id : String) where
  pub ItemStep-refl : (i : CampaignJobItem) → ItemStep job_id i i
  ItemStep-refl i = record { same_job = refl; same_item = refl; change = inl refl; batch = λ h. h }

  pub JobStep-refl : (a : CampaignJob) → JobStep job_id a a
  JobStep-refl a = record {
    same_id = refl;
    same_channel = refl;
    same_org = refl;
    change = inl refl;
    stamp = λ h. h;
  }

  pub HandlerStep-refl : (a : CampaignJob) → HandlerStep job_id a a
  HandlerStep-refl a = record { step = JobStep-refl a; same_status = refl }

  ItemStep-change_trans :
      (i j k : CampaignJobItem)
      → ItemStep job_id i j
      → ItemStep job_id j k
      → (k ≡ i) ⊎ ((i.job_id =ₛ job_id) ≡ true) × (is_open i ≡ true)
  ItemStep-change_trans i j k p q = elim p.change [
    | inr c ↦ inr c
    | inl e ↦ elim q.change [ inl e' ↦ inl (e' ∙ e) | inr c ↦ inr (rw (← e) c) ]
  ]

  ItemStep-trans :
      (i j k : CampaignJobItem) → ItemStep job_id i j → ItemStep job_id j k → ItemStep job_id i k
  ItemStep-trans i j k p q = record {
    same_job = q.same_job ∙ p.same_job;
    same_item = q.same_item ∙ p.same_item;
    change = ItemStep-change_trans i j k p q;
    batch = λ h. q.batch (p.batch h);
  }

  JobStep-change_trans :
      (a b c : CampaignJob)
      → JobStep job_id a b
      → JobStep job_id b c
      → (c ≡ a) ⊎ ((a.id =ₛ job_id) ≡ true)
  JobStep-change_trans a b c p q = elim p.change [
    | inr h ↦ inr h
    | inl e ↦ elim q.change [ inl e' ↦ inl (e' ∙ e) | inr h ↦ inr (rw (← e) h) ]
  ]

  JobStep-trans :
      (a b c : CampaignJob) → JobStep job_id a b → JobStep job_id b c → JobStep job_id a c
  JobStep-trans a b c p q = record {
    same_id = q.same_id ∙ p.same_id;
    same_channel = q.same_channel ∙ p.same_channel;
    same_org = q.same_org ∙ p.same_org;
    change = JobStep-change_trans a b c p q;
    stamp = λ h. q.stamp (p.stamp h);
  }

  HandlerStep-trans :
      (a b c : CampaignJob)
      → HandlerStep job_id a b
      → HandlerStep job_id b c
      → HandlerStep job_id a c
  HandlerStep-trans a b c p q = record {
    step = JobStep-trans a b c p.step q.step;
    same_status = q.same_status ∙ p.same_status;
  }

  pub Forward-refl : (t : Tables) → Forward job_id t t
  Forward-refl t = record {
    items = Pointwise-refl (ItemStep job_id) ItemStep-refl t.items;
    jobs = Pointwise-refl (JobStep job_id) JobStep-refl t.jobs;
  }

  pub Handles-refl : (t : Tables) → Handles job_id t t
  Handles-refl t = record {
    items = Pointwise-refl (ItemStep job_id) ItemStep-refl t.items;
    jobs = Pointwise-refl (HandlerStep job_id) HandlerStep-refl t.jobs;
  }

  pub Forward-trans :
      (t u v : Tables) → Forward job_id t u → Forward job_id u v → Forward job_id t v
  Forward-trans t u v p q = record {
    items =
        Pointwise-trans (ItemStep job_id) ItemStep-trans t.items u.items v.items p.items q.items;
    jobs = Pointwise-trans (JobStep job_id) JobStep-trans t.jobs u.jobs v.jobs p.jobs q.jobs;
  }

  pub Handles-trans :
      (t u v : Tables) → Handles job_id t u → Handles job_id u v → Handles job_id t v
  Handles-trans t u v p q = record {
    items =
        Pointwise-trans (ItemStep job_id) ItemStep-trans t.items u.items v.items p.items q.items;
    jobs =
        Pointwise-trans (HandlerStep job_id) HandlerStep-trans t.jobs u.jobs v.jobs p.jobs q.jobs;
  }

  pub Handles→Forward : (t u : Tables) → Handles job_id t u → Forward job_id t u
  Handles→Forward t u h = record {
    items = h.items;
    jobs =
        Pointwise-mono (HandlerStep job_id) (JobStep job_id) (λ a b s. s.step) t.jobs u.jobs h.jobs;
  }
