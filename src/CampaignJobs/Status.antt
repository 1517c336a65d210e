-- ===== src/CampaignJobs/Status.antt =====
-- `deriveJobStatus` of interface.ts and `tally` of memory.ts.
pub mod Derive
use aggregator_dpg.Prelude.{◌+◌, ltb, ◌==◌, List, [], ◌∷◌, if◌then◌else◌}
use aggregator_dpg.CampaignJobs.Types.{
  CampaignJobStatus, processing, partial, completed, CampaignJobItemStatus, pending, resolved,
  submitted, sent, skipped_not_owned, skipped_no_contact, duplicate_active, JobStatusCounts,
  ItemRow,
}

unfoldable pub derive_job_status : JobStatusCounts → CampaignJobStatus
derive_job_status counts =
    if ltb 0 counts.pending
    then processing
    else if counts.total == 0
    then completed
    else (let succeeded = counts.resolved + counts.submitted + counts.sent in
        if counts.failed == 0
        then completed
        else if succeeded == 0
        then CampaignJobStatus.failed
        else partial)

abbrev pub no_items : JobStatusCounts
no_items = record {
  total = 0;
  pending = 0;
  resolved = 0;
  submitted = 0;
  sent = 0;
  skipped_not_owned = 0;
  skipped_no_contact = 0;
  duplicate_active = 0;
  failed = 0;
}

-- `counts[status]++`
unfoldable pub bump : CampaignJobItemStatus → JobStatusCounts → JobStatusCounts
bump pending c = record c { pending = c.pending + 1 }
bump resolved c = record c { resolved = c.resolved + 1 }
bump submitted c = record c { submitted = c.submitted + 1 }
bump sent c = record c { sent = c.sent + 1 }
bump skipped_not_owned c = record c { skipped_not_owned = c.skipped_not_owned + 1 }
bump skipped_no_contact c = record c { skipped_no_contact = c.skipped_no_contact + 1 }
bump duplicate_active c = record c { duplicate_active = c.duplicate_active + 1 }
bump CampaignJobItemStatus.failed c = record c { failed = c.failed + 1 }

-- The loop of `tally`.
unfoldable pub tally_from : JobStatusCounts → List ItemRow → JobStatusCounts
unfolding bump
tally_from counts [] = counts
tally_from counts (i ∷ items) =
    tally_from (bump i.status (record counts { total = counts.total + 1 })) items

unfoldable pub tally : List ItemRow → JobStatusCounts
unfolding tally_from
tally items = tally_from no_items items
