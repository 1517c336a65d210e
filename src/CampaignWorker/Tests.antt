-- ===== src/CampaignWorker/Tests.antt =====
-- Runs of the worker on a small world, and the theorems at these inputs.
use aggregator_dpg.Prelude.{
  ℕ, ◌+◌, ◌≤◌, ◌<◌, String, ◌≡◌, refl, true, false, Option, none, some, List, [], ◌∷◌, map, arith,
  length, any, All, ◌==◌, if◌then◌else◌,
}
use aggregator_dpg.Prelude.Json.{Json, Fields}
use aggregator_dpg.Prelude.Result.{ok, err}
use aggregator_dpg.CampaignJobs.Types.{email, export, queued, pending, processing}
use aggregator_dpg.CampaignJobs.Status.{tally, derive_job_status as api_derive_job_status}
use aggregator_dpg.CampaignWorker.Types.{
  ProcessingJob, DecryptedProfile, SignedUrl, DecryptQuery, DecryptedProfiles, Attempt, requester,
  VoiceDispatched, VoiceDispatch, other_error, CampaignJob, contact, BaseError, Failure,
  CampaignJobItem, succeeded,
}
use aggregator_dpg.CampaignWorker.Client.{
  rows_of, derive_job_status, count_items, set_notified_at, heartbeat, mark_item,
}
use aggregator_dpg.CampaignWorker.Client.Forward.{Forward}
use aggregator_dpg.CampaignWorker.Client.Rows.{is_pending_row}
use aggregator_dpg.CampaignWorker.Client.Counts.{item_row, roll_up_twin}
use aggregator_dpg.CampaignWorker.Chunks.{chunk_array, concat, chunk_array_lem}
use aggregator_dpg.CampaignWorker.Effects.{
  State, Outcome, done, threw, campaign_mailed, Outside, answered, rejected, read, write, call,
  for_each, ask, decrypted, stored, link_mailed, audited,
}
use aggregator_dpg.CampaignWorker.Effects.OnTables.{rejections}
use aggregator_dpg.CampaignWorker.Run.Settle.{Ends}
use aggregator_dpg.CampaignWorker.Channels.{Deps, process_campaign_job}
use aggregator_dpg.CampaignWorker.Channels.Forward.{process_campaign_job-Forward}
use aggregator_dpg.CampaignWorker.Channels.Again.{
  OnlyReads, process_campaign_job-Ends, process_campaign_job_once,
}
use aggregator_dpg.CampaignWorker.Recipients.{Transient, send_campaign_emails}
use aggregator_dpg.CampaignTemplate.Mail.{EmailContent}

abbrev profile_of : String → DecryptedProfile
profile_of id = record {
  item_id = id;
  item_state = Fields.end;
  contact = some (record {
    name = none;
    email = some (record { value = some "a@example.org"; source = none });
    phone = some (record { value = some "+100"; source = none });
  });
}

abbrev answer_all : DecryptQuery → DecryptedProfiles
answer_all q = record { profiles = map profile_of q.item_ids; skipped = [] }

abbrev link : SignedUrl
link = record { url = "https://example.org/x"; expires_at = "soon" }

abbrev dispatch_all : VoiceDispatch → VoiceDispatched
dispatch_all d = record {
  provider_batch_ref = "batch";
  accepted = map (λ c. c.ref) d.contacts;
  rejected = [];
  provider_response = Json.null;
}

-- A world that counts the calls and answers all of them; its clock is the count.
abbrev willing : Outside ℕ
willing = record {
  clock = λ w. w;
  access = λ w. (answered, w);
  turn = λ w. (record { lane = w; delivers = true }, w);
  fetch_decrypted_profiles = λ q w. (done (ok (answer_all q)), w + 1);
  put_object = λ key body kind w. (done tt, w + 1);
  sign_download_url = λ key w. (done link, w + 1);
  dispatch = λ d w. (done (ok (dispatch_all d)), w + 1);
  send_mail = λ m w. (done (ok "message"), w + 1);
  record_completed = λ row w. (done (ok tt), w + 1);
}

abbrev upstream_down : BaseError
upstream_down = record { kind = other_error; code = "UPSTREAM"; message = "down"; body = none }

abbrev no_tables : Failure
no_tables = record { message = "connection lost"; error_type = "DATABASE" }

-- A world in which nothing can be decrypted.
abbrev broken : Outside ℕ
broken = record willing { fetch_decrypted_profiles = λ q w. (done (err upstream_down), w + 1) }

abbrev deps : Deps
deps = record {
  config = record {
    decrypt_chunk = 2;
    email_send_concurrency = 5;
    field_set = contact;
    recipient_mode = requester;
    network_admin_email = none;
  };
  wiring = record { voice = true; email = true; audit = true };
  runtime = record {
    stringify = λ j. "";
    parse_json = λ s. none;
    locale_le = λ a b. true;
    format_date = λ s. none;
  };
  libraries = record { is_email = λ s. true; parse_markdown = λ s. some s; sanitize = λ s. s };
}

abbrev job : CampaignJob
job = record {
  id = "job";
  channel = export;
  status = queued;
  signalstack_org_id = "org";
  metadata = [];
  content = Json.null;
  requested_by = "owner@example.org";
  request_id = none;
  error_reason = none;
  notified_at = none;
  last_progress_at = none;
  provider_response = Json.null;
  updated_at = 0;
  completed_at = none;
}

abbrev item : String → CampaignJobItem
item id = record {
  job_id = "job";
  item_id = id;
  action = none;
  status = pending;
  provider_ref = none;
  provider_batch_ref = none;
  skip_reason = none;
  error_reason = none;
  updated_at = 0;
  completed_at = none;
}

abbrev start : State ℕ
start = record {
  tables = record { jobs = job ∷ []; items = item "a" ∷ item "b" ∷ item "c" ∷ [] };
  world = 0;
  trace = [];
}

abbrev last : Option Attempt
last = some (record { attempt = 3; max_attempts = 3 })

-- A run of an export job with three items, in chunks of two.
run_sends_link :
    (process_campaign_job willing deps last "job" start).1.trace
    ≡ decrypted "job" ("a" ∷ "b" ∷ [])
      ∷ decrypted "job" ("c" ∷ [])
      ∷ stored "job" "campaign-exports/org/job.csv"
      ∷ link_mailed "job" true
      ∷ audited (record {
        correlation_id = "job";
        channel = export;
        actor_org_id = "org";
        outcome = succeeded;
        completed_at = 5;
        error_code = none;
        counts = record { resolved_count = 3; skipped_count = 0; failed_count = 0; sent_count = 0 };
        recipient_ref = some "owner@example.org";
        destination = some "campaign-exports/org/job.csv";
      })
      ∷ []
unfolding process_campaign_job read write call for_each ask set_notified_at heartbeat mark_item
run_sends_link = refl

process_campaign_job-Forward_example :
    Forward "job" start.tables (process_campaign_job broken deps last "job" start).1.tables
process_campaign_job-Forward_example = process_campaign_job-Forward broken deps last "job" start

process_campaign_job-Ends_example :
    Ends "job" true start (process_campaign_job broken deps last "job" start)
process_campaign_job-Ends_example =
    process_campaign_job-Ends broken deps last "job" start job refl refl

-- No item is pending on a job that nothing could be decrypted for.
broken_settles :
    any is_pending_row (rows_of "job" (process_campaign_job broken deps last "job" start).1.tables)
    ≡ false
unfolding process_campaign_job read write call for_each
broken_settles = refl

broken_calm :
    rejections (process_campaign_job broken deps last "job" start).1.trace ≡ rejections start.trace
unfolding process_campaign_job read write call for_each
broken_calm = refl

process_campaign_job_once_example :
    let u = (process_campaign_job broken deps last "job" start).1 in
    OnlyReads broken u (process_campaign_job broken deps none "job" u)
process_campaign_job_once_example =
    process_campaign_job_once broken deps last none "job" start job refl refl refl broken_calm
      broken_settles

-- A world in which the tables are gone once something was called.
abbrev lost : Outside ℕ
lost = record broken { access = λ w. (if w == 0 then answered else rejected false no_tables, w) }

-- The last attempt throws what the tables threw, and the job is left processing.
lost_processing :
    map (λ j. j.status) (process_campaign_job lost deps last "job" start).1.tables.jobs
    ≡ processing ∷ []
unfolding process_campaign_job read write call for_each
lost_processing = refl

lost-rejections : rejections (process_campaign_job lost deps last "job" start).1.trace ≡ 1
unfolding process_campaign_job read write call for_each
lost-rejections = refl

roll_up_twin_example :
    let rows = map item_row (rows_of "job" start.tables) in
    (count_items "job" start.tables ≡ tally rows)
    × (derive_job_status (count_items "job" start.tables) ≡ api_derive_job_status (tally rows))
roll_up_twin_example = roll_up_twin "job" start.tables

abbrev three : List String
three = "a" ∷ "b" ∷ "c" ∷ []

chunk_array_lem_example :
    (concat (chunk_array three 2) ≡ three)
    × All (λ c. (0 < length c) × (length c ≤ 2)) (chunk_array three 2)
chunk_array_lem_example = chunk_array_lem three 2 (omega arith)

-- An empty list has no chunk.
no_chunks : chunk_array {A = ℕ} [] 2 ≡ []
unfolding chunk_array
no_chunks = refl

abbrev mail_job : ProcessingJob
mail_job = record {
  id = "job";
  channel = email;
  status = processing;
  signalstack_org_id = "org";
  metadata = [];
  content = Json.null;
  requested_by = "owner@example.org";
  request_id = none;
  notified_at = none;
  items = [];
}

abbrev greeting : EmailContent
greeting = record { subject = "Hello"; body_markdown = "Welcome"; reply_to = none }

-- A world whose first mail is thrown back, and which delivers that error late.
abbrev slow_error : Outside ℕ
slow_error = record willing {
  turn = λ w. (record { lane = w; delivers = false }, w);
  send_mail = λ m w. (if w == 0 then threw no_tables else done (ok "message"), w + 1);
}

abbrev mail_run : Outside ℕ → (Outcome (List Transient)) × State ℕ
mail_run o = send_campaign_emails o deps.libraries mail_job greeting 2 (map profile_of three) start

-- The other lane serves the rest before the error is delivered.
lanes_go_on :
    ((mail_run slow_error).0 ≡ threw no_tables)
    × ((mail_run slow_error).1.trace
        ≡ campaign_mailed "job" "a" false
          ∷ campaign_mailed "job" "b" true
          ∷ campaign_mailed "job" "c" true
          ∷ [])
unfolding send_campaign_emails read write call ask
lanes_go_on = (refl, refl)
