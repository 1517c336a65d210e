-- ===== src/CampaignWorker/Export.antt =====
-- The export channel of apps/worker/src/services/campaign-process/index.ts: the items are decrypted
-- in chunks and marked, the CSV is stored, and a link to it is mailed unless the job was notified.
pub mod Handles
use aggregator_dpg.Prelude.{
  ℕ, zero, suc, ◌+◌, ◌-◌, ◌*◌, ◌/◌, ◌%◌, ◌≤◌, ◌<◌, String, ◌≡◌, refl, sym, ap, ◌∙◌, ◌≢◌, ◌↔◌, ◌⊎◌,
  inl, inr, Bool, true, false, not, ◌&&◌, ◌||◌, Option, none, some, List, [], ◌∷◌, ◌++◌, map, arith,
  eq_iff, eq_refl, ltb, leb, ◌==◌, ◌=ₛ◌, if◌then◌else◌, Bool-cases, Option-cases, option_eq,
  option_eq→eq, &&→left, &&→right, length, take, take_all, drop, keep, any, find, last?, All,
  All-append, has_text, text_ne, Ascending,
}
use Prim.Native.Char.{Char, code}
use Prim.Native.String.{◌++◌ as ◌+ₛ◌}
use aggregator_dpg.Prelude.Json.{Json}
use aggregator_dpg.Prelude.Texts.{is_blank}
use aggregator_dpg.Prelude.Result.{Result, ok, err}
use aggregator_dpg.ProfileCsv.{build_contact_export_csv}
use aggregator_dpg.ProfileCsv.Profiles.{build_decrypted_profiles_csv}
use aggregator_dpg.CampaignJobs.Types.{
  CampaignChannel, CampaignJobItemStatus, CampaignMetadataPair, resolved, skipped_not_owned,
}
use aggregator_dpg.CampaignWorker.Types.{
  ProcessingJob, DecryptQuery, DecryptedProfile, DecryptedProfiles, contact_row, Failure, BaseError,
  SignedUrl, SendInput, FieldSet, contact, full, RecipientMode, requester, network_admin,
  CampaignJobConfig,
}
use aggregator_dpg.CampaignWorker.Client.{mark_item, heartbeat, set_notified_at}
use aggregator_dpg.CampaignWorker.Chunks.{chunk_array}
use aggregator_dpg.CampaignWorker.Messages.{export_object_key, minus, render_export_email}
use aggregator_dpg.CampaignWorker.Effects.{
  Outcome, done, threw, Event, decrypted, stored, link_mailed, Outside, State, Action, pure, throw,
  ◌>>=◌, ◌>>◌, for_each, call, ask, write,
}

-- Functions of the runtime: `JSON.stringify`, `JSON.parse` (nothing where it throws),
-- `localeCompare`, and the formatting of a date.
pub record Runtime : Type 0 where
  pub stringify : Json → String
  pub parse_json : String → Option Json
  pub locale_le : String → String → Bool
  pub format_date : String → Option String

unfoldable pub resolve_export_recipient : String → CampaignJobConfig → Option String
resolve_export_recipient requested_by config = elim config.recipient_mode [
  | network_admin ↦ config.network_admin_email
  | requester ↦ some requested_by
]

unfoldable pub purpose_of : List CampaignMetadataPair → Option String
unfolding is_blank
purpose_of metadata = elim (find (λ m. m.key =ₛ "purpose") metadata) [
  | none ↦ none
  | some p ↦ if is_blank p.value then none else some p.value
]

abbrev pub plain_error : String → Failure
plain_error message = record { message = message; error_type = "Error" }

-- `campaign export decrypt failed: code: message`
abbrev pub upstream_error : String → BaseError → Failure
upstream_error what e = plain_error (what +ₛ (": " +ₛ (e.code +ₛ (": " +ₛ e.message))))

abbrev pub contact_missing : List DecryptedProfile → Bool
contact_missing profiles =
    ltb 0 (length profiles)
    && not (any (λ p. elim p.contact [ none ↦ false | some c ↦ true ]) profiles)

-- `...(job.requestId ? { requestId } : {})`: an empty id is dropped.
abbrev pub given : Option String → Option String
given none = none
given (some s) = if s =ₛ "" then none else some s

abbrev pub throw_if : {W : Type 0} → Bool → Failure → Action W (Unit {0})
throw_if c e = if c then throw e else pure tt

module _ {W : Type 0} (o : Outside W) where
  abbrev pub mark :
      String → String → CampaignJobItemStatus → Option String → Option String → Action W (Unit {0})
  mark job_id item_id status reason provider_ref =
      write o (mark_item job_id item_id status reason provider_ref)

  -- The marks of one chunk: `resolved` for the profiles, a skip for each id that is not owned.
  unfoldable pub mark_resolved : String → List DecryptedProfile → Action W (Unit {0})
  mark_resolved job_id profiles = for_each profiles (λ p. mark job_id p.item_id resolved none none)

  unfoldable pub mark_skipped : String → List String → Action W (Unit {0})
  mark_skipped job_id skipped =
      for_each skipped (λ id. mark job_id id skipped_not_owned (some "not_owned_by_org") none)

  -- A decrypt call that must answer: an error of the upstream is thrown.
  unfoldable pub fetch : String → String → DecryptQuery → Action W DecryptedProfiles
  fetch what job_id query = do
    result ← call (λ r. decrypted job_id query.item_ids) (o.fetch_decrypted_profiles query)
    elim result [ ok answer ↦ pure answer | err e ↦ throw (upstream_error what e) ]

  module _ (job : ProcessingJob) (config : CampaignJobConfig) where
    abbrev contact_only : Bool
    contact_only = elim config.field_set [ contact ↦ true | full ↦ false ]

    abbrev pub export_query : List String → DecryptQuery
    export_query chunk = record {
      acting_org_id = job.signalstack_org_id;
      item_ids = chunk;
      fields = if contact_only then some [] else none;
      contact = if contact_only then some ("name" ∷ "email" ∷ "phone" ∷ []) else none;
      request_id = given job.request_id;
    }

    -- One round of the loop over the chunks.
    unfoldable pub decrypt_chunk : List String → Action W (List DecryptedProfile)
    unfolding fetch mark_resolved mark_skipped
    decrypt_chunk chunk = do
      answer ← fetch "campaign export decrypt failed" job.id (export_query chunk)
      throw_if (contact_only && contact_missing answer.profiles) (
          plain_error
            "campaign export decrypt returned no contact block — Signals participant/decrypt predates #521")
      mark_resolved job.id answer.profiles
      mark_skipped job.id answer.skipped
      write o (heartbeat job.id)
      pure answer.profiles

    unfoldable pub decrypt_chunks : List (List String) → Action W (List DecryptedProfile)
    unfolding decrypt_chunk
    decrypt_chunks [] = pure []
    decrypt_chunks (chunk ∷ chunks) = do
      rows ← decrypt_chunk chunk
      more ← decrypt_chunks chunks
      pure (rows ++ more)

    unfoldable pub decrypt_and_mark_items : Action W (List DecryptedProfile)
    unfolding decrypt_chunks chunk_array
    decrypt_and_mark_items =
        decrypt_chunks (chunk_array (map (λ i. i.item_id) job.items) config.decrypt_chunk)

    module _ (runtime : Runtime) where
      unfoldable pub export_csv : List DecryptedProfile → String
      export_csv rows =
          if contact_only
          then build_contact_export_csv (map contact_row rows)
          else build_decrypted_profiles_csv runtime.stringify runtime.locale_le
              (map (λ p. (p.item_id, p.item_state)) rows)

      abbrev pub no_recipient : Failure
      no_recipient = plain_error (
          "campaign export has no recipient for mode \""
          +ₛ ((elim config.recipient_mode [
            | network_admin ↦ "network_admin"
            | requester ↦ "requester"
          ])
              +ₛ "\" (set EXPORT_NETWORK_ADMIN_EMAIL, or use CAMPAIGN_EXPORT_RECIPIENT=requester)"))

      unfoldable pub export_mail : List DecryptedProfile → SignedUrl → String → SendInput
      unfolding render_export_email purpose_of
      export_mail rows signed recipient =
          let email = render_export_email runtime.format_date (record {
            org_id = job.signalstack_org_id;
            purpose = elim (purpose_of job.metadata) [ none ↦ "—" | some p ↦ p ];
            exported = length rows;
            skipped = minus (length job.items) (length rows);
            url = signed.url;
            expires_at = signed.expires_at;
          }) in
          record {
            to = recipient;
            subject = email.subject;
            html = email.html;
            text = email.text;
            reply_to = none;
          }

      abbrev accepted : Outcome (Result BaseError String) → Bool
      accepted (done (ok id)) = true
      accepted _ = false

      -- The mail of the link, and the stamp that keeps a retry from sending it again.
      unfoldable pub send_link : SendInput → Action W (Unit {0})
      send_link input = do
        sent ← call (λ r. link_mailed job.id (accepted r)) (o.send_mail input)
        elim sent [
          | ok id ↦ write o (set_notified_at job.id)
          | err e ↦ throw (upstream_error "campaign export email failed" e)
        ]

      -- Without a recipient the job fails; with the stamp of an earlier attempt no mail is sent.
      unfoldable pub notify :
          List DecryptedProfile → SignedUrl → Option String → Option ℕ → Action W (Unit {0})
      unfolding export_mail send_link
      notify rows signed none notified_at = throw no_recipient
      notify rows signed (some recipient) (some at) = pure tt
      notify rows signed (some recipient) none = send_link (export_mail rows signed recipient)

      unfoldable pub store_and_notify : List DecryptedProfile → Action W (Unit {0})
      unfolding export_csv export_object_key resolve_export_recipient notify
      store_and_notify rows = do
        let key = export_object_key job.signalstack_org_id job.id
        call (λ r. stored job.id key) (o.put_object key (export_csv rows) "text/csv")
        signed ← ask (o.sign_download_url key)
        notify rows signed (given (resolve_export_recipient job.requested_by config))
            job.notified_at

      unfoldable pub run_export_for_job : Action W (Unit {0})
      unfolding decrypt_and_mark_items store_and_notify
      run_export_for_job = do
        rows ← decrypt_and_mark_items
        if length rows == 0 then pure tt else store_and_notify rows
