-- ===== src/CampaignWorker/Client/Rows.antt =====
-- The row of a job and the rows of its items after the client's writes.
use aggregator_dpg.Prelude.{
  ℕ, String, ◌≡◌, refl, ap, inl, inr, Bool, true, false, Option, some, List, [], ◌∷◌, arith, ◌=ₛ◌,
  Bool-cases, keep, any, find,
}
use aggregator_dpg.CampaignJobs.Types.{CampaignJobStatus, pending, item_status_eq}
use aggregator_dpg.CampaignWorker.Types.{CampaignJob, CampaignJobItem, Tables}
use aggregator_dpg.CampaignWorker.Client.{
  update_where, job_row, rows_of, set_job_status, fail_pending_items, or_keep,
}
use aggregator_dpg.Prelude.Pointwise.{Pointwise}
use aggregator_dpg.CampaignWorker.Client.Forward.{HandlerStep}

pub find-update_where {ℓ} :
    {A : Type ℓ} (p : A → Bool) (f : A → A) (xs : List A) {x : A}
    → ((a : A) → p (f a) ≡ p a)
    → find p xs ≡ some x
    → find p (update_where p f xs) ≡ some (f x)
find-update_where p f [] same h = cc
find-update_where p f (a ∷ xs) same h = elim (Bool-cases (p a)) [
  | inl e ↦ rw (e, same a, e) (ap some (ap f (let h' : some a ≡ some _ = rw e at h in cc)))
  | inr e ↦ rw (e, e) (find-update_where p f xs same (rw e at h))
]

pub find-some {ℓ} :
    {A : Type ℓ} (p : A → Bool) (xs : List A) {x : A} → find p xs ≡ some x → p x ≡ true
find-some p [] h = cc
find-some p (a ∷ xs) h = elim (Bool-cases (p a)) [
  | inl e ↦ (let h' : some a ≡ some _ = rw e at h in cc)
  | inr e ↦ find-some p xs (rw e at h)
]

-- The row of a job after a handler: its id and status are those before.
pub find-HandlerStep :
    (job_id key : String) (xs ys : List CampaignJob) {a : CampaignJob}
    → Pointwise (HandlerStep job_id) xs ys
    → find (λ j. j.id =ₛ key) xs ≡ some a
    → (b : CampaignJob) × (find (λ j. j.id =ₛ key) ys ≡ some b) × HandlerStep job_id a b
find-HandlerStep job_id key [] ys r h = cc
find-HandlerStep job_id key (x ∷ xs) [] r h = elim r [ ]
find-HandlerStep job_id key (x ∷ xs) (y ∷ ys) {a} r h = elim (Bool-cases (x.id =ₛ key)) [
  | inl e ↦ (
    y,
    rw (r.0.step.same_id, e) refl,
    let same : x ≡ a = (let h' : some x ≡ some a = rw e at h in cc) in rw (← same) r.0,
  )
  | inr e ↦
      let (b, found, step) = find-HandlerStep job_id key xs ys r.1 (rw e at h) in
      (b, rw (r.0.step.same_id, e) found, step)
]

-- The row of the job after `setJobStatus`.
pub job_row-set_job_status :
    (job_id : String) (status : CampaignJobStatus) (reason : Option String) (now : ℕ) (t : Tables)
    {row : CampaignJob}
    → job_row job_id t ≡ some row
    → (row' : CampaignJob) × (job_row job_id (set_job_status job_id status reason now t)
        ≡ some row')
      × (row'.status ≡ status)
      × (row'.error_reason ≡ or_keep reason row.error_reason)
unfolding set_job_status
job_row-set_job_status job_id status reason now t h =
    (_, find-update_where (λ j. j.id =ₛ job_id) _ t.jobs (λ a. refl) h, refl, refl)

abbrev pub is_pending_row : CampaignJobItem → Bool
is_pending_row i = item_status_eq i.status pending

-- No item of the job is pending after `failPendingItems`.
pub none_pending :
    (job_id reason : String) (now : ℕ) (t : Tables)
    → any is_pending_row (rows_of job_id (fail_pending_items job_id reason now t)) ≡ false
unfolding fail_pending_items
none_pending job_id reason now t = of_items t.items
  where
    of_items :
        (items : List CampaignJobItem)
        → any is_pending_row (
            keep
              (λ i. i.job_id =ₛ job_id)
              (fail_pending_items job_id reason now (record t { items = items })).items)
          ≡ false
    of_items [] = refl
    of_items (i ∷ items) = ground (arith, of_items items)
