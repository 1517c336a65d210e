-- ===== src/CampaignWorker/Email.antt =====
-- The email channel: apps/worker/src/services/campaign-process/email.ts. The sends are in
-- Recipients.
pub mod Handles
use aggregator_dpg.Prelude.{
  ℕ, zero, suc, ◌+◌, ◌-◌, ◌*◌, ◌/◌, ◌%◌, ◌≤◌, ◌<◌, String, ◌≡◌, refl, sym, ap, ◌∙◌, ◌≢◌, ◌↔◌, ◌⊎◌,
  inl, inr, Bool, true, false, not, ◌&&◌, ◌||◌, Option, none, some, List, [], ◌∷◌, ◌++◌, map, arith,
  eq_iff, eq_refl, ltb, leb, ◌==◌, ◌=ₛ◌, if◌then◌else◌, Bool-cases, Option-cases, option_eq,
  option_eq→eq, &&→left, &&→right, length, take, take_all, drop, keep, any, find, last?, All,
  All-append, has_text, text_ne, Ascending,
}
use aggregator_dpg.Prelude.Json.{Json}
use aggregator_dpg.Prelude.Result.{Result, ok, err}
use Prim.Native.String.{◌++◌ as ◌+ₛ◌}
use aggregator_dpg.Prelude.Decimal.{decimal}
use aggregator_dpg.ProfileCsv.{ContactValue}
use aggregator_dpg.CampaignTemplate.{
  unknown_placeholders, required_contact_fields, placeholder_values, PlaceholderValues,
}
use aggregator_dpg.CampaignTemplate.Mail.{
  EmailContent, RenderedEmail, MailLibraries, parse_email_content, render_email,
}
use aggregator_dpg.CampaignJobs.Types.{
  CampaignJobItemStatus, sent, skipped_no_contact, skipped_not_owned,
}
use aggregator_dpg.CampaignWorker.Types.{
  Failure, ProcessingJob, ProcessingJobItem, DecryptQuery, DecryptedProfile, DecryptedProfiles,
  BaseError, SendInput, CampaignJobConfig, Attempt,
}
use aggregator_dpg.CampaignWorker.Client.{heartbeat}
use aggregator_dpg.CampaignWorker.Chunks.{chunk_array}
use aggregator_dpg.CampaignWorker.Export.{
  plain_error, upstream_error, given, contact_missing, throw_if, mark, mark_skipped, fetch,
}
use aggregator_dpg.CampaignWorker.Voice.{open_items}
use aggregator_dpg.CampaignWorker.Recipients.{Transient, send_campaign_emails}
use aggregator_dpg.CampaignWorker.Effects.{
  Outcome, done, threw, Event, campaign_mailed, Outside, State, Action, pure, throw, ◌>>=◌, ◌>>◌,
  for_each, call, write,
}

-- `attempt === undefined || attempt.attempt >= attempt.maxAttempts`
abbrev pub is_last : Option Attempt → Bool
is_last none = true
is_last (some a) = leb a.max_attempts a.attempt

-- The content, if it parses and has no unknown placeholder.
unfoldable pub valid_content : MailLibraries → Json → Option EmailContent
unfolding parse_email_content unknown_placeholders
valid_content libraries content = elim (parse_email_content libraries content) [
  | none ↦ none
  | some c ↦
      if length (unknown_placeholders (c.subject ∷ c.body_markdown ∷ [])) == 0 then some c else none
]

module _ {W : Type 0} (o : Outside W) (libraries : MailLibraries) (job : ProcessingJob) where
  -- A content that no retry can mend: the open items are failed.
  unfoldable pub fail_open_items : Action W (Unit {0})
  fail_open_items = for_each (open_items job.items) (λ i.
      mark o job.id i.item_id CampaignJobItemStatus.failed (some "invalid_email_content") none)

  -- `[...new Set(['email', ...requiredContactFields(…)])]`
  unfoldable pub contact_projection : EmailContent → List String
  unfolding required_contact_fields
  contact_projection content =
      "email"
      ∷ keep (λ f. not (f =ₛ "email"))
          (required_contact_fields (content.subject ∷ content.body_markdown ∷ []))

  abbrev pub email_query : EmailContent → List String → DecryptQuery
  email_query content chunk = record {
    acting_org_id = job.signalstack_org_id;
    item_ids = chunk;
    fields = some [];
    contact = some (contact_projection content);
    request_id = given job.request_id;
  }

  -- The ids of the chunk that came back in neither list are failed.
  unfoldable pub mark_missing : List String → DecryptedProfiles → Action W (Unit {0})
  mark_missing chunk answer =
      let accounted = map (λ p. p.item_id) answer.profiles ++ answer.skipped in
      for_each (keep (λ id. not (has_text id accounted)) chunk)
        (λ id. mark o job.id id CampaignJobItemStatus.failed (some "decrypt_missing") none)

  unfoldable pub decrypt_email_chunk : EmailContent → List String → Action W (List DecryptedProfile)
  unfolding fetch mark_skipped mark_missing contact_projection
  decrypt_email_chunk content chunk = do
    answer ← fetch o "campaign email decrypt failed" job.id (email_query content chunk)
    throw_if (contact_missing answer.profiles) (
        plain_error
          "campaign email decrypt returned no contact block — Signals participant/decrypt predates #521")
    mark_skipped o job.id answer.skipped
    mark_missing chunk answer
    write o (heartbeat job.id)
    pure answer.profiles

  unfoldable pub decrypt_email_chunks :
      EmailContent → List (List String) → Action W (List DecryptedProfile)
  unfolding decrypt_email_chunk
  decrypt_email_chunks content [] = pure []
  decrypt_email_chunks content (chunk ∷ chunks) = do
    rows ← decrypt_email_chunk content chunk
    more ← decrypt_email_chunks content chunks
    pure (rows ++ more)

  module _ (config : CampaignJobConfig) (attempt : Option Attempt) where
    abbrev retry_error : List Transient → Failure
    retry_error transient = plain_error (
        "campaign email: "
        +ₛ (decimal (length transient) +ₛ " recipient(s) failed transiently, retrying the job"))

    unfoldable pub settle_transient_failures : List Transient → Action W (Unit {0})
    settle_transient_failures transient =
        if length transient == 0
        then pure tt
        else if is_last attempt
        then for_each transient
            (λ t. mark o job.id t.item_id CampaignJobItemStatus.failed (some t.code) none)
        else throw (retry_error transient)

    unfoldable pub send_and_settle : EmailContent → List DecryptedProfile → Action W (Unit {0})
    unfolding send_campaign_emails settle_transient_failures
    send_and_settle content rows = do
      transient ← send_campaign_emails o libraries job content config.email_send_concurrency rows
      write o (heartbeat job.id)
      settle_transient_failures transient

    unfoldable pub email_open_items : EmailContent → Action W (Unit {0})
    unfolding decrypt_email_chunks chunk_array send_and_settle
    email_open_items content = do
      rows ←
          decrypt_email_chunks content
            (chunk_array (map (λ i. i.item_id) (open_items job.items)) config.decrypt_chunk)
      if length rows == 0 then pure tt else send_and_settle content rows

    unfoldable pub run_email_with : Option EmailContent → Action W (Unit {0})
    unfolding fail_open_items email_open_items
    run_email_with none = fail_open_items
    run_email_with (some content) =
        if length (open_items job.items) == 0 then pure tt else email_open_items content

    unfoldable pub run_email_for_job : Bool → Action W (Unit {0})
    unfolding run_email_with valid_content
    run_email_for_job wired =
        if wired
        then run_email_with (valid_content libraries job.content)
        else throw (plain_error "campaign email collaborators not wired")
