-- ===== src/CampaignWorker/Client/Counts.antt =====
-- The counts of campaign-job-client.ts against those of the API's job store, its twin: a grouped
-- count of the rows and a loop over the rows give the same tally.
use aggregator_dpg.Prelude.{
  ℕ, ◌+◌, String, ◌≡◌, refl, sym, ap, ◌∙◌, List, [], ◌∷◌, map, arith, if◌then◌else◌, length,
}
use aggregator_dpg.CampaignJobs.Types.{
  CampaignJobItemStatus, pending, resolved, submitted, sent, skipped_not_owned, skipped_no_contact,
  duplicate_active, item_status_eq, JobStatusCounts, ItemRow,
}
use aggregator_dpg.CampaignJobs.Status.{tally, derive_job_status as api_derive_job_status}
use aggregator_dpg.CampaignJobs.Status.Derive.{
  bucket, bucket-tally, total-tally, count_items as count_rows,
}
use aggregator_dpg.CampaignWorker.Types.{CampaignJobItem, Tables}
use aggregator_dpg.CampaignWorker.Client.{
  rows_of, derive_job_status, Group, add_to_group, group_by_status, no_counts, add_count,
  add_groups, count_items,
}

-- The row of an item as the API's store has it.
abbrev pub item_row : CampaignJobItem → ItemRow
item_row i = record {
  item_id = i.item_id;
  action = i.action;
  status = i.status;
  provider_ref = i.provider_ref;
  provider_batch_ref = i.provider_batch_ref;
  skip_reason = i.skip_reason;
  error_reason = i.error_reason;
}

abbrev in_group : CampaignJobItemStatus → List Group → ℕ
in_group s [] = 0
in_group s (g ∷ gs) = (if item_status_eq g.0 s then g.1 else 0) + in_group s gs

abbrev in_all : List Group → ℕ
in_all [] = 0
in_all (g ∷ gs) = g.1 + in_all gs

in_group-add_to_group :
    (s t : CampaignJobItemStatus) (gs : List Group)
    → in_group s (add_to_group t gs) ≡ in_group s gs + (if item_status_eq t s then 1 else 0)
unfolding add_to_group
in_group-add_to_group s t [] = ground arith
in_group-add_to_group s t (g ∷ gs) = ground (arith, in_group-add_to_group s t gs)

in_all-add_to_group :
    (t : CampaignJobItemStatus) (gs : List Group) → in_all (add_to_group t gs) ≡ in_all gs + 1
unfolding add_to_group
in_all-add_to_group t [] = omega arith
in_all-add_to_group t (g ∷ gs) = ground (arith, in_all-add_to_group t gs)

in_group-group_by_status :
    (s : CampaignJobItemStatus) (items : List CampaignJobItem)
    → in_group s (group_by_status items) ≡ count_rows (λ t. item_status_eq t s) (map item_row items)
unfolding group_by_status
in_group-group_by_status s [] = refl
in_group-group_by_status s (i ∷ items) = ground (
  arith,
  in_group-add_to_group s i.status (group_by_status items),
  in_group-group_by_status s items,
)

in_all-group_by_status :
    (items : List CampaignJobItem) → in_all (group_by_status items) ≡ length (map item_row items)
unfolding group_by_status
in_all-group_by_status [] = refl
in_all-group_by_status (i ∷ items) =
    omega
      (arith, in_all-add_to_group i.status (group_by_status items), in_all-group_by_status items)

bucket-add_count :
    (c : JobStatusCounts) (s t : CampaignJobItemStatus) (n k : ℕ)
    → bucket (record (add_count t n c) { total = k }) s
      ≡ bucket c s + (if item_status_eq t s then n else 0)
unfolding add_count
bucket-add_count c s t n k = ground arith

total-add_count :
    (c : JobStatusCounts) (t : CampaignJobItemStatus) (n : ℕ) → (add_count t n c).total ≡ c.total
unfolding add_count
total-add_count c t n = ground arith

bucket-add_groups :
    (c : JobStatusCounts) (s : CampaignJobItemStatus) (gs : List Group)
    → bucket (add_groups c gs) s ≡ bucket c s + in_group s gs
unfolding add_groups
bucket-add_groups c s [] = omega arith
bucket-add_groups c s (g ∷ gs) =
    let c' = add_count g.0 g.1 c in
    omega (
      arith,
      bucket-add_groups (record c' { total = c'.total + g.1 }) s gs,
      bucket-add_count c s g.0 g.1 (c'.total + g.1),
    )

total-add_groups :
    (c : JobStatusCounts) (gs : List Group) → (add_groups c gs).total ≡ c.total + in_all gs
unfolding add_groups
total-add_groups c [] = omega arith
total-add_groups c (g ∷ gs) =
    let c' = add_count g.0 g.1 c in
    omega
      (arith, total-add_groups (record c' { total = c'.total + g.1 }) gs, total-add_count c g.0 g.1)

counts_eq :
    (c d : JobStatusCounts)
    → c.total ≡ d.total
    → ((s : CampaignJobItemStatus) → bucket c s ≡ bucket d s)
    → c ≡ d
counts_eq c d total same = ground (
  arith,
  same pending,
  same resolved,
  same submitted,
  same sent,
  same skipped_not_owned,
  same skipped_no_contact,
  same duplicate_active,
  same CampaignJobItemStatus.failed,
)

bucket-no_counts : (s : CampaignJobItemStatus) → bucket no_counts s ≡ 0
bucket-no_counts s = ground arith

pub bucket-count_items :
    (job_id : String) (t : Tables) (s : CampaignJobItemStatus)
    → bucket (count_items job_id t) s
      ≡ count_rows (λ u. item_status_eq u s) (map item_row (rows_of job_id t))
unfolding count_items
bucket-count_items job_id t s = omega (
  arith,
  bucket-add_groups no_counts s (group_by_status (rows_of job_id t)),
  bucket-no_counts s,
  in_group-group_by_status s (rows_of job_id t),
)

total-count_items :
    (job_id : String) (t : Tables)
    → (count_items job_id t).total ≡ (tally (map item_row (rows_of job_id t))).total
unfolding count_items
total-count_items job_id t = omega (
  arith,
  total-add_groups no_counts (group_by_status (rows_of job_id t)),
  in_all-group_by_status (rows_of job_id t),
  total-tally (map item_row (rows_of job_id t)),
)

count_items-tally :
    (job_id : String) (t : Tables) → count_items job_id t ≡ tally (map item_row (rows_of job_id t))
count_items-tally job_id t =
    counts_eq (count_items job_id t) (tally (map item_row (rows_of job_id t)))
      (total-count_items job_id t)
      (λ s. bucket-count_items job_id t s ∙ sym (bucket-tally s (map item_row (rows_of job_id t))))

derive-twin : (c : JobStatusCounts) → derive_job_status c ≡ api_derive_job_status c
unfolding derive_job_status api_derive_job_status
derive-twin c = refl

-- On the same rows the worker counts the items of a job, and derives its status, as the API's store
-- does: a count by groups in SQL, added up, is the tally of a loop over the items.
pub roll_up_twin :
    (job_id : String) (t : Tables)
    → let rows = map item_row (rows_of job_id t) in
      (count_items job_id t ≡ tally rows)
      × (derive_job_status (count_items job_id t) ≡ api_derive_job_status (tally rows))
roll_up_twin job_id t = (
  count_items-tally job_id t,
  derive-twin (count_items job_id t) ∙ ap api_derive_job_status (count_items-tally job_id t),
)
