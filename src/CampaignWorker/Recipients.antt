-- ===== src/CampaignWorker/Recipients.antt =====
-- The sends of the email channel: sendCampaignEmails and mapWithConcurrency of
-- apps/worker/src/services/campaign-process/email.ts. The recipients are served in lanes; what a
-- lane does between two awaits is a stage, and the world says which lane goes on. Once a lane has
-- thrown the others go on, until the world delivers its error to the caller; what they do after
-- that is left out.
pub mod Enough
pub mod Handles
use aggregator_dpg.Prelude.{
  ℕ, zero, suc, ◌+◌, ◌-◌, ◌*◌, ◌/◌, ◌%◌, ◌≤◌, ◌<◌, String, ◌≡◌, refl, sym, ap, ◌∙◌, ◌≢◌, ◌↔◌, ◌⊎◌,
  inl, inr, Bool, true, false, not, ◌&&◌, ◌||◌, Option, none, some, List, [], ◌∷◌, ◌++◌, map, arith,
  eq_iff, eq_refl, ltb, leb, ◌==◌, ◌=ₛ◌, if◌then◌else◌, Bool-cases, Option-cases, option_eq,
  option_eq→eq, &&→left, &&→right, length, take, take_all, drop, keep, any, find, last?, All,
  All-append, has_text, text_ne, Ascending,
}
use aggregator_dpg.Prelude.Json.{Json}
use aggregator_dpg.Prelude.Result.{Result, ok, err}
use Prim.Native.String.{◌++◌ as ◌+ₛ◌}
use aggregator_dpg.Prelude.Decimal.{decimal}
use aggregator_dpg.ProfileCsv.{ContactValue}
use aggregator_dpg.CampaignTemplate.{
  unknown_placeholders, required_contact_fields, placeholder_values, PlaceholderValues,
}
use aggregator_dpg.CampaignTemplate.Mail.{
  EmailContent, RenderedEmail, MailLibraries, parse_email_content, render_email,
}
use aggregator_dpg.CampaignJobs.Types.{
  CampaignJobItemStatus, sent, skipped_no_contact, skipped_not_owned,
}
use aggregator_dpg.CampaignWorker.Types.{
  Failure, ProcessingJob, ProcessingJobItem, DecryptQuery, DecryptedProfile, DecryptedProfiles,
  BaseError, SendInput, CampaignJobConfig, Attempt,
}
use aggregator_dpg.CampaignWorker.Client.{heartbeat}
use aggregator_dpg.CampaignWorker.Chunks.{chunk_array}
use aggregator_dpg.CampaignWorker.Export.{
  plain_error, upstream_error, given, contact_missing, throw_if, mark, mark_skipped, fetch,
}
use aggregator_dpg.CampaignWorker.Voice.{open_items}
use aggregator_dpg.CampaignWorker.Effects.{
  Outcome, done, threw, Event, campaign_mailed, Outside, State, Action, pure, throw, ◌>>=◌, ◌>>◌,
  attempted, ask, call, write, Turn,
}

-- A recipient whose mail failed for now.
pub record Transient : Type 0 where
  pub item_id : String
  pub code : String

abbrev pub value_text : Option ContactValue → Option String
value_text none = none
value_text (some c) = c.value

-- What a lane does next: it begins with a recipient, settles the answer of the mailer, or counts
-- the recipient as done.
pub data Stage : Type 0 where
  begins : DecryptedProfile → Stage
  settles : DecryptedProfile → Result BaseError String → Stage
  ends : Stage

-- `summary.transient` and `done`, which the lanes share.
pub record Shared : Type 0 where
  pub transient : List Transient
  pub count : ℕ

abbrev pub is_permanent : BaseError → Bool
is_permanent e = e.code =ₛ "INVALID_RECIPIENT"

-- The shared variables after a stage.
unfoldable pub shared_after : Stage → Shared → Shared
shared_after (begins p) sh = sh
shared_after (settles p (ok message_id)) sh = sh
shared_after (settles p (err e)) sh = if is_permanent e then sh else record {
  transient = sh.transient ++ record { item_id = p.item_id; code = e.code } ∷ [];
  count = sh.count + 1;
}
shared_after ends sh = record sh { count = sh.count + 1 }

-- The lanes that have not returned, the recipients that none has taken, and the first error.
pub record Pool : Type 0 where
  pub lanes : List Stage
  pub waiting : List DecryptedProfile
  pub shared : Shared
  pub error : Option Failure

abbrev pub is_set : Option Failure → Bool
is_set none = false
is_set (some e) = true

abbrev pub first_error : Option Failure → Failure → Option Failure
first_error none e = some e
first_error (some e) later = some e

-- A lane that is free takes the next of the recipients, or returns.
abbrev pub freed : List Stage → List Stage → Shared → Pool → List DecryptedProfile → Pool
freed before after sh pool [] = record pool { lanes = before ++ after; shared = sh }
freed before after sh pool (p ∷ waiting) = record pool {
  lanes = before ++ begins p ∷ after;
  waiting = waiting;
  shared = sh;
}

-- The lane between `before` and `after` has run a stage with this outcome.
unfoldable pub after_stage : List Stage → List Stage → Shared → Pool → Outcome (Option Stage) → Pool
after_stage before after sh pool (threw e) = record pool {
  lanes = before ++ after;
  shared = sh;
  error = first_error pool.error e;
}
after_stage before after sh pool (done (some stage)) = record pool {
  lanes = before ++ stage ∷ after;
  shared = sh;
}
after_stage before after sh pool (done none) = freed before after sh pool pool.waiting

-- How many stages are left at most.
abbrev pub stages_left : Stage → ℕ
stages_left (begins p) = 3
stages_left (settles p r) = 2
stages_left ends = 1

abbrev pub lanes_left : List Stage → ℕ
lanes_left [] = 0
lanes_left (stage ∷ lanes) = stages_left stage + lanes_left lanes

abbrev pub pool_left : Pool → ℕ
pool_left pool = lanes_left pool.lanes + 3 * length pool.waiting

-- `Math.max(1, Math.min(limit, items.length))` lanes start.
unfoldable pub new_pool : ℕ → List DecryptedProfile → Pool
new_pool limit rows =
    let n = if ltb limit 1 then 1 else limit in
    record {
      lanes = map begins (take n rows);
      waiting = drop n rows;
      shared = record { transient = []; count = 0 };
      error = none;
    }

module _ {W : Type 0} (o : Outside W) (libraries : MailLibraries) (job : ProcessingJob)
    (content : EmailContent) where
  abbrev pub address_of : DecryptedProfile → Option String
  address_of p = elim p.contact [ none ↦ none | some c ↦ given (value_text c.email) ]

  abbrev pub values_for : DecryptedProfile → PlaceholderValues
  values_for p = elim p.contact [
    | none ↦ placeholder_values none none none
    | some c ↦ placeholder_values (value_text c.name) (value_text c.email) (value_text c.phone)
  ]

  abbrev pub mail_accepted : Outcome (Result BaseError String) → Bool
  mail_accepted (done (ok id)) = true
  mail_accepted _ = false

  abbrev pub send_input : String → RenderedEmail → SendInput
  send_input address rendered = record {
    to = address;
    subject = rendered.subject;
    html = rendered.html;
    text = rendered.text;
    reply_to = given content.reply_to;
  }

  unfoldable pub send_rendered :
      DecryptedProfile → String → Option RenderedEmail → Action W (Option Stage)
  send_rendered p address none = do
    mark o job.id p.item_id CampaignJobItemStatus.failed (some "render_failed") none
    pure none
  send_rendered p address (some rendered) = do
    result ←
        call (λ r. campaign_mailed job.id p.item_id (mail_accepted r))
          (o.send_mail (send_input address rendered))
    pure (some (settles p result))

  unfoldable pub begin_with : DecryptedProfile → Option String → Action W (Option Stage)
  unfolding send_rendered render_email placeholder_values
  begin_with p none = do
    mark o job.id p.item_id skipped_no_contact (some "no_email_address") none
    pure (some ends)
  begin_with p (some address) =
      send_rendered p address
        (render_email libraries content.subject content.body_markdown (values_for p))

  -- A heartbeat after every twenty-fifth recipient; `sh` has counted this one.
  unfoldable pub beat : Shared → Action W (Option Stage)
  beat sh = do if sh.count % 25 == 0 then write o (heartbeat job.id) else pure tt; pure none

  -- The outcome of one send: a permanent error fails the item, any other one is left to the caller.
  unfoldable pub settle_send :
      DecryptedProfile → Shared → Result BaseError String → Action W (Option Stage)
  unfolding beat
  settle_send p sh (ok message_id) = do
    mark o job.id p.item_id sent none (some message_id)
    pure (some ends)
  settle_send p sh (err e) =
      if is_permanent e
      then (do
        mark o job.id p.item_id CampaignJobItemStatus.failed (some e.code) none
        pure (some ends))
      else beat sh

  -- A stage, and the one behind it; `sh` is as `shared_after` has it.
  unfoldable pub run_stage : Stage → Shared → Action W (Option Stage)
  unfolding begin_with settle_send beat
  run_stage (begins p) sh = begin_with p (address_of p)
  run_stage (settles p r) sh = settle_send p sh r
  run_stage ends sh = beat sh

  -- `Promise.all(runners)`, once no lane is left or the error is delivered.
  abbrev pub settle_pool : Pool → Action W (List Transient)
  settle_pool pool = elim pool.error [ none ↦ pure pool.shared.transient | some e ↦ throw e ]

  -- The lane behind `before` runs its stage.
  unfoldable pub step_lane : List Stage → List Stage → Pool → Action W Pool
  unfolding run_stage shared_after after_stage
  step_lane before [] pool = pure pool
  step_lane before (stage ∷ after) pool = do
    r ← attempted (run_stage stage (shared_after stage pool.shared))
    pure (after_stage before after (shared_after stage pool.shared) pool r)

  abbrev pub step_at : ℕ → Pool → Action W Pool
  step_at i pool = step_lane (take i pool.lanes) (drop i pool.lanes) pool

  -- The lanes until none is left, or an error is delivered. The fuel is `pool_left`, of which every
  -- round takes one or more.
  unfoldable pub run_pool : ℕ → Pool → Action W (List Transient)
  unfolding step_lane
  run_pool zero pool = settle_pool pool
  run_pool (suc rounds) pool =
      let rest = run_pool rounds in
      if length pool.lanes == 0
      then settle_pool pool
      else (ask (λ w. let (t, w') = o.turn w in (done t, w')) >>= λ turn.
          if turn.delivers && is_set pool.error
          then settle_pool pool
          else (step_at (turn.lane % length pool.lanes) pool >>= rest))

  unfoldable pub send_campaign_emails : ℕ → List DecryptedProfile → Action W (List Transient)
  unfolding run_pool new_pool
  send_campaign_emails limit rows = let pool = new_pool limit rows in run_pool (pool_left pool) pool
