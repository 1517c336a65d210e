-- ===== src/CampaignWorker/Channels.antt =====
-- The dispatch of `runCampaignJob` on the channel, and the job run with it.
pub mod Forward
pub mod Again
use aggregator_dpg.Prelude.{
  ℕ, zero, suc, ◌+◌, ◌-◌, ◌*◌, ◌/◌, ◌%◌, ◌≤◌, ◌<◌, String, ◌≡◌, refl, sym, ap, ◌∙◌, ◌≢◌, ◌↔◌, ◌⊎◌,
  inl, inr, Bool, true, false, not, ◌&&◌, ◌||◌, Option, none, some, List, [], ◌∷◌, ◌++◌, map, arith,
  eq_iff, eq_refl, ltb, leb, ◌==◌, ◌=ₛ◌, if◌then◌else◌, Bool-cases, Option-cases, option_eq,
  option_eq→eq, &&→left, &&→right, length, take, take_all, drop, keep, any, find, last?, All,
  All-append, has_text, text_ne, Ascending,
}
use aggregator_dpg.CampaignTemplate.Mail.{MailLibraries}
use aggregator_dpg.CampaignJobs.Types.{CampaignChannel, export, email, voice}
use aggregator_dpg.CampaignWorker.Types.{ProcessingJob, CampaignJobConfig, Attempt, Wiring}
use aggregator_dpg.CampaignWorker.Effects.{Outside, Action}
use aggregator_dpg.CampaignWorker.Export.{Runtime, run_export_for_job}
use aggregator_dpg.CampaignWorker.Voice.{run_voice_for_job}
use aggregator_dpg.CampaignWorker.Email.{run_email_for_job}
use aggregator_dpg.CampaignWorker.Run.{run_campaign_job}

-- `CampaignJobDeps`, with the libraries that the channels use.
pub record Deps : Type 0 where
  pub config : CampaignJobConfig
  pub wiring : Wiring
  pub runtime : Runtime
  pub libraries : MailLibraries

module _ {W : Type 0} (o : Outside W) (deps : Deps) (attempt : Option Attempt) where
  unfoldable pub run_channel : CampaignChannel → ProcessingJob → Action W (Unit {0})
  unfolding run_export_for_job run_voice_for_job run_email_for_job
  run_channel export job = run_export_for_job o job deps.config deps.runtime
  run_channel voice job = run_voice_for_job o deps.runtime job deps.config attempt deps.wiring.voice
  run_channel email job =
      run_email_for_job o deps.libraries job deps.config attempt deps.wiring.email

  unfoldable pub process_campaign_job : String → Action W (Unit {0})
  unfolding run_campaign_job run_channel
  process_campaign_job job_id =
      run_campaign_job o deps.config attempt deps.wiring.audit (λ job. run_channel job.channel job)
        job_id
