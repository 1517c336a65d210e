-- ===== src/CampaignWorker/Export/Handles.antt =====
-- Whatever the collaborators answer, the export handler writes to open items of its job alone, and
-- leaves the status of the job.
use aggregator_dpg.Prelude.{
  ℕ, String, Bool, true, false, Option, none, some, List, [], ◌∷◌, ◌++◌, ◌==◌, if◌then◌else◌,
  length,
}
use aggregator_dpg.Prelude.Result.{Result, ok, err}
use aggregator_dpg.CampaignJobs.Types.{CampaignJobItemStatus, resolved, skipped_not_owned}
use aggregator_dpg.CampaignWorker.Types.{
  Failure, ProcessingJob, DecryptedProfile, DecryptQuery, BaseError, CampaignJobConfig,
  DecryptedProfiles, SignedUrl, SendInput,
}
use aggregator_dpg.CampaignWorker.Client.{heartbeat, set_notified_at}
use aggregator_dpg.CampaignWorker.Client.Writes.{
  heartbeat-Handles, mark_item-Handles, set_notified_at-Handles,
}
use aggregator_dpg.CampaignWorker.Effects.{Outside, Action, pure, throw, write, ◌>>=◌, ◌>>◌}
use aggregator_dpg.CampaignWorker.Effects.Rules.{
  then-Keeps, Keeps, pure-Keeps, throw-Keeps, bind-Keeps, for_each-Keeps,
}
use aggregator_dpg.CampaignWorker.Effects.OnTables.{
  Within, call-Within, write-Within, Within-Order, ask-Within,
}
use aggregator_dpg.CampaignWorker.Export.{
  upstream_error, decrypt_and_mark_items, send_link, mark_resolved, run_export_for_job, Runtime,
  mark, decrypt_chunks, store_and_notify, throw_if, decrypt_chunk, fetch, mark_skipped, notify,
}

module _ {W : Type 0} (job_id : String) where
  -- The action writes within `Handles`, however it ends.
  abbrev pub IsHandler : {A : Type 0} → Action W A → Type 0
  IsHandler m = Keeps (Within job_id) m

  pub pure-IsHandler : {A : Type 0} (a : A) → IsHandler (pure a)
  pure-IsHandler = pure-Keeps (Within-Order job_id)

  pub throw-IsHandler : {A : Type 0} (e : Failure) → IsHandler {A = A} (throw e)
  throw-IsHandler = throw-Keeps (Within-Order job_id)

  pub bind-IsHandler :
      {A B : Type 0} {m : Action W A} {f : A → Action W B}
      → IsHandler m
      → ((a : A) → IsHandler (f a))
      → IsHandler (m >>= f)
  bind-IsHandler = bind-Keeps (Within-Order job_id)

  pub then-IsHandler :
      {A B : Type 0} {m : Action W A} {n : Action W B}
      → IsHandler m
      → IsHandler n
      → IsHandler (m >> n)
  then-IsHandler = then-Keeps (Within-Order job_id)

  pub throw_if-IsHandler : (c : Bool) (e : Failure) → IsHandler (throw_if c e)
  throw_if-IsHandler true e = throw-IsHandler e
  throw_if-IsHandler false e = pure-IsHandler tt

  pub if-IsHandler :
      {A : Type 0} (c : Bool) {m n : Action W A}
      → IsHandler m
      → IsHandler n
      → IsHandler (if c then m else n)
  if-IsHandler true hm hn = hm
  if-IsHandler false hm hn = hn

  answer-IsHandler :
      (what : String) (r : Result BaseError DecryptedProfiles)
      → IsHandler (elim r [ ok answer ↦ pure answer | err e ↦ throw (upstream_error what e) ])
  answer-IsHandler what (ok answer) = pure-IsHandler answer
  answer-IsHandler what (err e) = throw-IsHandler (upstream_error what e)

module _ {W : Type 0} (o : Outside W) (job_id : String) where
  pub mark-IsHandler :
      (item_id : String) (status : CampaignJobItemStatus) (reason ref : Option String)
      → IsHandler job_id (mark o job_id item_id status reason ref)
  mark-IsHandler item_id status reason ref =
      write-Within job_id o _ (mark_item-Handles job_id item_id status reason ref)

  pub heartbeat-IsHandler : IsHandler job_id (write o (heartbeat job_id))
  heartbeat-IsHandler = write-Within job_id o _ (heartbeat-Handles job_id)

  pub mark_resolved-IsHandler :
      (profiles : List DecryptedProfile) → IsHandler job_id (mark_resolved o job_id profiles)
  unfolding mark_resolved
  mark_resolved-IsHandler profiles =
      for_each-Keeps (Within-Order job_id) profiles
        (λ p. mark-IsHandler p.item_id resolved none none)

  pub mark_skipped-IsHandler : (ids : List String) → IsHandler job_id (mark_skipped o job_id ids)
  unfolding mark_skipped
  mark_skipped-IsHandler ids =
      for_each-Keeps (Within-Order job_id) ids
        (λ id. mark-IsHandler id skipped_not_owned (some "not_owned_by_org") none)

  pub fetch-IsHandler :
      (what : String) (query : DecryptQuery) → IsHandler job_id (fetch o what job_id query)
  unfolding fetch
  fetch-IsHandler what query =
      bind-IsHandler job_id (call-Within job_id _ (o.fetch_decrypted_profiles query))
        (answer-IsHandler job_id what)

module _ {W : Type 0} (o : Outside W) (job : ProcessingJob) (config : CampaignJobConfig) where
  decrypt_chunk-IsHandler :
      (chunk : List String) → IsHandler job.id (decrypt_chunk o job config chunk)
  unfolding decrypt_chunk
  decrypt_chunk-IsHandler chunk = bind-IsHandler job.id (fetch-IsHandler o job.id _ _) λ answer.
      then-IsHandler job.id (throw_if-IsHandler job.id _ _) (
        then-IsHandler job.id (mark_resolved-IsHandler o job.id answer.profiles) (
          then-IsHandler job.id (mark_skipped-IsHandler o job.id answer.skipped) (
            then-IsHandler job.id (heartbeat-IsHandler o job.id)
              (pure-IsHandler job.id answer.profiles))))

  decrypt_chunks-IsHandler :
      (chunks : List (List String)) → IsHandler job.id (decrypt_chunks o job config chunks)
  unfolding decrypt_chunks
  decrypt_chunks-IsHandler [] = pure-IsHandler job.id []
  decrypt_chunks-IsHandler (chunk ∷ chunks) =
      bind-IsHandler job.id (decrypt_chunk-IsHandler chunk) λ rows.
        bind-IsHandler job.id (decrypt_chunks-IsHandler chunks)
          λ more. pure-IsHandler job.id (rows ++ more)

  module _ (runtime : Runtime) where
    settle-IsHandler :
        (r : Result BaseError String)
        → IsHandler job.id (elim r [
          | ok id ↦ write o (set_notified_at job.id)
          | err e ↦ throw (upstream_error "campaign export email failed" e)
        ])
    settle-IsHandler (ok id) = write-Within job.id o _ (set_notified_at-Handles job.id)
    settle-IsHandler (err e) = throw-IsHandler job.id _

    send_link-IsHandler :
        (input : SendInput) → IsHandler job.id (send_link o job config runtime input)
    unfolding send_link
    send_link-IsHandler input =
        bind-IsHandler job.id (call-Within job.id _ (o.send_mail input)) settle-IsHandler

    notify-IsHandler :
        (rows : List DecryptedProfile) (signed : SignedUrl) (to : Option String) (at : Option ℕ)
        → IsHandler job.id (notify o job config runtime rows signed to at)
    unfolding notify
    notify-IsHandler rows signed none at = throw-IsHandler job.id _
    notify-IsHandler rows signed (some to) (some at) = pure-IsHandler job.id tt
    notify-IsHandler rows signed (some to) none = send_link-IsHandler _

    store_and_notify-IsHandler :
        (rows : List DecryptedProfile)
        → IsHandler job.id (store_and_notify o job config runtime rows)
    unfolding store_and_notify
    store_and_notify-IsHandler rows =
        then-IsHandler job.id (call-Within job.id _ (o.put_object _ _ _)) (
          bind-IsHandler job.id (ask-Within job.id (o.sign_download_url _))
            λ signed. notify-IsHandler rows signed _ job.notified_at)

    pub run_export_for_job-IsHandler : IsHandler job.id (run_export_for_job o job config runtime)
    unfolding run_export_for_job decrypt_and_mark_items
    run_export_for_job-IsHandler = bind-IsHandler job.id (decrypt_chunks-IsHandler _) λ rows.
        if-IsHandler job.id (length rows == 0) (pure-IsHandler job.id tt)
          (store_and_notify-IsHandler rows)
