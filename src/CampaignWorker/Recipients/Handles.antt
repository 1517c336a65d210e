-- ===== src/CampaignWorker/Recipients/Handles.antt =====
-- Whatever the collaborators answer, and whichever lane goes on, the sends write to open items of
-- their job alone, and leave the status of the job.
use aggregator_dpg.Prelude.{
  ℕ, zero, suc, String, ◌&&◌, Option, none, some, List, [], ◌∷◌, ◌==◌, length,
}
use aggregator_dpg.Prelude.Result.{Result, ok, err}
use aggregator_dpg.CampaignTemplate.Mail.{EmailContent, RenderedEmail, MailLibraries}
use aggregator_dpg.CampaignWorker.Types.{ProcessingJob, DecryptedProfile, BaseError, Failure}
use aggregator_dpg.CampaignWorker.Effects.{Outside, Action, attempted}
use aggregator_dpg.CampaignWorker.Effects.OnTables.{call-Within, ask-Within}
use aggregator_dpg.CampaignWorker.Export.Handles.{
  IsHandler, pure-IsHandler, throw-IsHandler, bind-IsHandler, then-IsHandler, if-IsHandler,
  mark-IsHandler, heartbeat-IsHandler,
}
use aggregator_dpg.CampaignWorker.Recipients.{
  Transient, Stage, begins, settles, ends, Shared, Pool, shared_after, after_stage, send_rendered,
  begin_with, beat, settle_send, run_stage, settle_pool, step_lane, run_pool, is_set, is_permanent,
  send_campaign_emails, new_pool,
}

attempted-IsHandler :
    {W A : Type 0} (job_id : String) {m : Action W A}
    → IsHandler job_id m
    → IsHandler job_id (attempted m)
attempted-IsHandler job_id h = record { keeps = h.keeps }

module _ {W : Type 0} (o : Outside W) (libraries : MailLibraries) (job : ProcessingJob)
    (content : EmailContent) where
  send_rendered-IsHandler :
      (p : DecryptedProfile) (address : String) (rendered : Option RenderedEmail)
      → IsHandler job.id (send_rendered o libraries job content p address rendered)
  unfolding send_rendered
  send_rendered-IsHandler p address none =
      then-IsHandler job.id (mark-IsHandler o job.id _ _ _ _) (pure-IsHandler job.id none)
  send_rendered-IsHandler p address (some rendered) =
      bind-IsHandler job.id (call-Within job.id _ (o.send_mail _))
        λ result. pure-IsHandler job.id (some (settles p result))

  begin_with-IsHandler :
      (p : DecryptedProfile) (address : Option String)
      → IsHandler job.id (begin_with o libraries job content p address)
  unfolding begin_with
  begin_with-IsHandler p none =
      then-IsHandler job.id (mark-IsHandler o job.id _ _ _ _) (pure-IsHandler job.id (some ends))
  begin_with-IsHandler p (some address) = send_rendered-IsHandler p address _

  beat-IsHandler : (sh : Shared) → IsHandler job.id (beat o libraries job content sh)
  unfolding beat
  beat-IsHandler sh =
      then-IsHandler job.id
        (if-IsHandler job.id _ (heartbeat-IsHandler o job.id) (pure-IsHandler job.id tt))
        (pure-IsHandler job.id none)

  settle_send-IsHandler :
      (p : DecryptedProfile) (sh : Shared) (r : Result BaseError String)
      → IsHandler job.id (settle_send o libraries job content p sh r)
  unfolding settle_send
  settle_send-IsHandler p sh (ok message_id) =
      then-IsHandler job.id (mark-IsHandler o job.id _ _ _ _) (pure-IsHandler job.id (some ends))
  settle_send-IsHandler p sh (err e) =
      if-IsHandler job.id (is_permanent e)
        (then-IsHandler job.id (mark-IsHandler o job.id _ _ _ _)
          (pure-IsHandler job.id (some ends)))
        (beat-IsHandler sh)

  run_stage-IsHandler :
      (stage : Stage) (sh : Shared) → IsHandler job.id (run_stage o libraries job content stage sh)
  unfolding run_stage
  run_stage-IsHandler (begins p) sh = begin_with-IsHandler p _
  run_stage-IsHandler (settles p r) sh = settle_send-IsHandler p sh r
  run_stage-IsHandler ends sh = beat-IsHandler sh

  result-IsHandler :
      (transient : List Transient) (error : Option Failure)
      → IsHandler {W = W} job.id (
          settle_pool o libraries job content (record {
            lanes = [];
            waiting = [];
            shared = record { transient = transient; count = 0 };
            error = error;
          }))
  result-IsHandler transient none = pure-IsHandler job.id transient
  result-IsHandler transient (some e) = throw-IsHandler job.id e

  settle_pool-IsHandler :
      (pool : Pool) → IsHandler {W = W} job.id (settle_pool o libraries job content pool)
  settle_pool-IsHandler pool = result-IsHandler pool.shared.transient pool.error

  step_lane-IsHandler :
      (before lanes : List Stage) (pool : Pool)
      → IsHandler job.id (step_lane o libraries job content before lanes pool)
  unfolding step_lane
  step_lane-IsHandler before [] pool = pure-IsHandler job.id pool
  step_lane-IsHandler before (stage ∷ after) pool =
      bind-IsHandler job.id (attempted-IsHandler job.id (run_stage-IsHandler stage _)) λ r.
        pure-IsHandler job.id (after_stage before after (shared_after stage pool.shared) pool r)

  run_pool-IsHandler :
      (rounds : ℕ) (pool : Pool) → IsHandler job.id (run_pool o libraries job content rounds pool)
  unfolding run_pool
  run_pool-IsHandler zero pool = settle_pool-IsHandler pool
  run_pool-IsHandler (suc rounds) pool =
      if-IsHandler job.id (length pool.lanes == 0) (settle_pool-IsHandler pool) (
        bind-IsHandler job.id (ask-Within job.id _) λ turn.
          if-IsHandler job.id (turn.delivers && is_set pool.error) (settle_pool-IsHandler pool)
            (bind-IsHandler job.id (step_lane-IsHandler _ _ pool) (run_pool-IsHandler rounds)))

  pub send_campaign_emails-IsHandler :
      (limit : ℕ) (rows : List DecryptedProfile)
      → IsHandler job.id (send_campaign_emails o libraries job content limit rows)
  unfolding send_campaign_emails
  send_campaign_emails-IsHandler limit rows = run_pool-IsHandler _ (new_pool limit rows)
