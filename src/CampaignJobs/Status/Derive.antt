-- ===== src/CampaignJobs/Status/Derive.antt =====
-- What the roll-up status says of the counts, and of the items.
use aggregator_dpg.Prelude.{
  ℕ, suc, ◌+◌, ◌<◌, ◌≡◌, ◌↔◌, ◌≤◌, ◌∙◌, List, [], ◌∷◌, length, arith, Bool, if◌then◌else◌,
}
use aggregator_dpg.CampaignJobs.Types.{
  CampaignJobStatus, processing, partial, completed, CampaignJobItemStatus, pending, resolved,
  submitted, sent, skipped_not_owned, skipped_no_contact, duplicate_active, JobStatusCounts,
  ItemRow, item_status_eq, includes_item, success_item_statuses,
}
use aggregator_dpg.CampaignJobs.Status.{derive_job_status, no_items, bump, tally_from, tally}

-- How many items have a status that `p` accepts.
abbrev pub count_items : (CampaignJobItemStatus → Bool) → List ItemRow → ℕ
count_items p [] = 0
count_items p (i ∷ items) = let rest = count_items p items in if p i.status then suc rest else rest

-- The bucket of a status.
abbrev pub bucket : JobStatusCounts → CampaignJobItemStatus → ℕ
bucket c pending = c.pending
bucket c resolved = c.resolved
bucket c submitted = c.submitted
bucket c sent = c.sent
bucket c skipped_not_owned = c.skipped_not_owned
bucket c skipped_no_contact = c.skipped_no_contact
bucket c duplicate_active = c.duplicate_active
bucket c CampaignJobItemStatus.failed = c.failed

bucket-bump :
    (c : JobStatusCounts) (s t : CampaignJobItemStatus)
    → bucket (bump t (record c { total = c.total + 1 })) s
      ≡ bucket c s + (if item_status_eq t s then 1 else 0)
unfolding bump
bucket-bump c s t = ground arith

bucket-tally_from :
    (c : JobStatusCounts) (s : CampaignJobItemStatus) (items : List ItemRow)
    → bucket (tally_from c items) s ≡ bucket c s + count_items (λ t. item_status_eq t s) items
unfolding tally_from
bucket-tally_from c s [] = omega arith
bucket-tally_from c s (i ∷ items) = ground (
  arith,
  bucket-bump c s i.status,
  bucket-tally_from (bump i.status (record c { total = c.total + 1 })) s items,
)

total-bump : (c : JobStatusCounts) (t : CampaignJobItemStatus) → (bump t c).total ≡ c.total
unfolding bump
total-bump c t = ground arith

total-tally_from :
    (c : JobStatusCounts) (items : List ItemRow)
    → (tally_from c items).total ≡ c.total + length items
unfolding tally_from
total-tally_from c [] = omega arith
total-tally_from c (i ∷ items) = omega (
  arith,
  total-bump (record c { total = c.total + 1 }) i.status,
  total-tally_from (bump i.status (record c { total = c.total + 1 })) items,
)

pub bucket-tally :
    (s : CampaignJobItemStatus) (items : List ItemRow)
    → bucket (tally items) s ≡ count_items (λ t. item_status_eq t s) items
unfolding tally
bucket-tally pending items = bucket-tally_from no_items pending items ∙ omega arith
bucket-tally s items = bucket-tally_from no_items s items ∙ ground arith

pub total-tally : (items : List ItemRow) → (tally items).total ≡ length items
unfolding tally
total-tally items = total-tally_from no_items items ∙ omega arith

abbrev pub is_pending : CampaignJobItemStatus → Bool
is_pending s = item_status_eq s pending

abbrev pub is_failed : CampaignJobItemStatus → Bool
is_failed s = item_status_eq s CampaignJobItemStatus.failed

abbrev pub is_success : CampaignJobItemStatus → Bool
is_success s = includes_item success_item_statuses s

-- The three success buckets add up to the items that the success list names.
count-success :
    (items : List ItemRow)
    → count_items is_success items
      ≡ count_items (λ t. item_status_eq t resolved) items
        + count_items (λ t. item_status_eq t submitted) items
        + count_items (λ t. item_status_eq t sent) items
count-success [] = omega arith
count-success (i ∷ items) = ground (arith, count-success items)

count_items-le :
    (p : CampaignJobItemStatus → Bool) (items : List ItemRow) → count_items p items ≤ length items
count_items-le p [] = omega arith
count_items-le p (i ∷ items) = ground (arith, count_items-le p items)

-- What each roll-up status means of the items.
pub record RollUp (items : List ItemRow) (status : CampaignJobStatus) : Type 0 where
  pub processing_iff : (status ≡ processing) ↔ (0 < count_items is_pending items)
  pub completed_iff :
      (status ≡ completed)
      ↔ ((count_items is_pending items ≡ 0) × (count_items is_failed items ≡ 0))
  pub failed_iff : (status ≡ CampaignJobStatus.failed) ↔ (
      (count_items is_pending items ≡ 0)
      × (0 < count_items is_failed items)
      × (count_items is_success items ≡ 0))
  pub partial_iff : (status ≡ partial) ↔ (
      (count_items is_pending items ≡ 0)
      × (0 < count_items is_failed items)
      × (0 < count_items is_success items))

module _ (c : JobStatusCounts) (fits : c.failed ≤ c.total) where
  derive-processing : (derive_job_status c ≡ processing) ↔ (0 < c.pending)
  unfolding derive_job_status
  derive-processing = (ground arith, ground arith)

  derive-completed : (derive_job_status c ≡ completed) ↔ ((c.pending ≡ 0) × (c.failed ≡ 0))
  unfolding derive_job_status
  derive-completed = (ground arith, ground arith)

  derive-failed :
      (derive_job_status c ≡ CampaignJobStatus.failed)
      ↔ ((c.pending ≡ 0) × (0 < c.failed) × (c.resolved + c.submitted + c.sent ≡ 0))
  unfolding derive_job_status
  derive-failed = (ground arith, ground arith)

  derive-partial :
      (derive_job_status c ≡ partial)
      ↔ ((c.pending ≡ 0) × (0 < c.failed) × (0 < c.resolved + c.submitted + c.sent))
  unfolding derive_job_status
  derive-partial = (ground arith, ground arith)

tally_fits : (items : List ItemRow) → (tally items).failed ≤ (tally items).total
tally_fits items = omega (
  arith,
  bucket-tally CampaignJobItemStatus.failed items,
  total-tally items,
  count_items-le is_failed items,
)

tally_success :
    (items : List ItemRow)
    → (tally items).resolved + (tally items).submitted + (tally items).sent
      ≡ count_items is_success items
tally_success items = omega (
  arith,
  count-success items,
  bucket-tally resolved items,
  bucket-tally submitted items,
  bucket-tally sent items,
)

-- The derived status of any list of items: `processing` exactly while an item is pending, and
-- otherwise `completed`, `failed` or `partial` by whether an item failed and one succeeded. Skips
-- count for nothing.
pub derive_job_status-RollUp :
    (items : List ItemRow) → RollUp items (derive_job_status (tally items))
derive_job_status-RollUp items = record {
  processing_iff =
      rw (← bucket-tally pending items) (derive-processing (tally items) (tally_fits items));
  completed_iff =
      rw (← bucket-tally pending items, ← bucket-tally CampaignJobItemStatus.failed items)
        (derive-completed (tally items) (tally_fits items));
  failed_iff =
      rw
        (
          ← bucket-tally pending items,
          ← bucket-tally CampaignJobItemStatus.failed items,
          ← tally_success items,
        )
        (derive-failed (tally items) (tally_fits items));
  partial_iff =
      rw
        (
          ← bucket-tally pending items,
          ← bucket-tally CampaignJobItemStatus.failed items,
          ← tally_success items,
        )
        (derive-partial (tally items) (tally_fits items));
}
