-- ===== src/CampaignJobs/Tests.antt =====
-- The theorems on the campaign job store at concrete requests and stores.
use Prim.Native.Char.{code}
use aggregator_dpg.Prelude.{
  ◌≤◌, String, ◌≡◌, refl, ap, true, false, none, some, List, [], ◌∷◌, ◌++◌, map, arith, length, any,
  text_ne,
}
use aggregator_dpg.Prelude.Json.{null}
use aggregator_dpg.Prelude.JsMap
use aggregator_dpg.CampaignJobs.Types.{
  voice, skipped_no_contact, sent, CreateJobItemInput, CreateJobInput, JobRow, ItemRow,
  ListJobsResult, ok, Store, empty, duplicate_active,
}
use aggregator_dpg.CampaignJobs.Status.{derive_job_status, tally}
use aggregator_dpg.CampaignJobs.Status.Derive.{derive_job_status-RollUp, RollUp}
use aggregator_dpg.CampaignJobs.Store.Create.{
  CreateJobResult, create_job, idempotency_key_of, active_dedup_ids, new_item,
}
use aggregator_dpg.CampaignJobs.Store.Update.{mark_item, roll_up_status, items_of}
use aggregator_dpg.CampaignJobs.Store.Read.{list_jobs, list_rows, to_view}
use aggregator_dpg.CampaignJobs.Store.Valid.{IsValid, IsValid-empty}
use aggregator_dpg.CampaignJobs.Store.Insert.{create_job-IsValid}
use aggregator_dpg.CampaignJobs.Store.Steps.{
  IsFresh, Reach, Step, here, next, creates, marks, rolls_up, Reach-IsValid,
}
use aggregator_dpg.CampaignJobs.Store.Frozen.{item_at, Reach-item_at}
use aggregator_dpg.CampaignJobs.Store.Replay.{NulFree, create_job-replay, create_job-own_org}
use aggregator_dpg.CampaignJobs.Store.Dedup.{
  is_active_as, status-new_item, new_item-duplicate, new_item-duplicate_other_action,
}
use aggregator_dpg.CampaignJobs.Store.Pages.{behind, list_jobs-pages}

abbrev to_call : CreateJobItemInput
to_call = record { item_id = "ann"; action = some "call" }

abbrev to_text : CreateJobItemInput
to_text = record { item_id = "ann"; action = some "text" }

abbrev to_bob : CreateJobItemInput
to_bob = record { item_id = "bob"; action = some "call" }

abbrev request : CreateJobInput
request = record {
  aggregator_id = "agg";
  signalstack_org_id = "org";
  channel = voice;
  metadata = [];
  content = null;
  requested_by = "user";
  request_id = none;
  idempotency_key = some "k";
  items = to_call ∷ to_bob ∷ [];
}

-- The same request under another key.
abbrev second : CreateJobInput
second = record request { idempotency_key = some "k2" }

abbrev one_job : Store
one_job = (create_job request "job-1" 5 empty).1

id_1 : IsFresh "job-1" empty
unfolding JsMap.get
id_1 = record { no_job = refl; no_items = refl; named = text_ne "job-1" "" refl }

one_job-IsValid : IsValid one_job
unfolding JsMap.get
one_job-IsValid =
    create_job-IsValid request "job-1" 5 empty IsValid-empty refl (text_ne "job-1" "" refl)

abbrev marked : Store
marked = (mark_item "job-1" "ann" skipped_no_contact (some "no phone") none 6 one_job).1

abbrev two_jobs : Store
two_jobs = (create_job second "job-2" 7 marked).1

abbrev marked_again : Store
marked_again = (mark_item "job-1" "ann" sent none (some "ref") 8 two_jobs).1

abbrev rolled_up : Store
rolled_up = (roll_up_status "job-1" 9 marked_again).1

id_2 : IsFresh "job-2" marked
unfolding JsMap.get mark_item create_job
id_2 = record { no_job = refl; no_items = refl; named = text_ne "job-2" "" refl }

-- A second job, a late mark of a skipped item of the first one and its roll-up.
busy : Reach marked rolled_up
busy =
    next
      (next (next here (creates second "job-2" 7 id_2 refl))
        (marks "job-1" "ann" sent none (some "ref") 8 refl))
      (rolls_up "job-1" 9 refl)

first_mark : Step one_job marked
first_mark = marks "job-1" "ann" skipped_no_contact (some "no phone") none 6 refl

marked-IsValid : IsValid marked
marked-IsValid = Reach-IsValid one_job-IsValid (next here first_mark)

rolled_up-IsValid : IsValid rolled_up
rolled_up-IsValid = Reach-IsValid marked-IsValid busy

abbrev mixed : List ItemRow
mixed = items_of rolled_up "job-1"

-- `ann` was skipped and `bob` is still pending.
derive_job_status-RollUp_example : RollUp mixed (derive_job_status (tally mixed))
derive_job_status-RollUp_example = derive_job_status-RollUp mixed

Reach-IsValid_example : IsValid rolled_up
Reach-IsValid_example = Reach-IsValid marked-IsValid busy

abbrev ann_skipped : ItemRow
ann_skipped = record {
  item_id = "ann";
  action = some "call";
  status = skipped_no_contact;
  provider_ref = none;
  provider_batch_ref = none;
  skip_reason = some "no phone";
  error_reason = none;
}

ann_at_mark : item_at marked "job-1" "ann" ≡ some ann_skipped
unfolding create_job mark_item items_of JsMap.get
ann_at_mark = refl

Reach-item_at_example : item_at rolled_up "job-1" "ann" ≡ some ann_skipped
Reach-item_at_example = Reach-item_at "job-1" "ann" busy ann_at_mark refl

key_of_request : idempotency_key_of request ≡ some "org\0k"
unfolding idempotency_key_of
key_of_request = refl

replay_path : Reach one_job rolled_up
replay_path =
    next
      (next (next (next here first_mark) (creates second "job-2" 7 id_2 refl))
        (marks "job-1" "ann" sent none (some "ref") 8 refl))
      (rolls_up "job-1" 9 refl)

create_job-replay_example :
    (first replayed : CreateJobResult) × ((create_job request "job-1" 5 empty).0 ≡ ok first)
    × (create_job request "job-3" 10 rolled_up ≡ (ok replayed, rolled_up))
    × (replayed.created ≡ false)
    × (replayed.job.id ≡ first.job.id)
create_job-replay_example =
    create_job-replay request request "job-1" "job-3" 5 10 empty rolled_up "org\0k" IsValid-empty
      id_1 key_of_request key_of_request replay_path

org_free : NulFree "org"
org_free = (
  λ e. omega (arith, ap code e),
  (λ e. omega (arith, ap code e), (λ e. omega (arith, ap code e), tt)),
)

stored_free :
    (k : String) (job : JobRow)
    → JsMap.get marked.jobs k ≡ some job
    → NulFree job.signalstack_org_id
unfolding JsMap.values create_job mark_item
stored_free k job e =
    JsMap.All-values-get (λ (j : JobRow). NulFree j.signalstack_org_id) marked.jobs k job
      (org_free, tt) e

create_job-own_org_example :
    (result : CreateJobResult) × ((create_job second "job-2" 7 marked).0 ≡ ok result)
    × (result.job.signalstack_org_id ≡ "org")
create_job-own_org_example =
    create_job-own_org second "job-2" 7 marked marked-IsValid id_2 org_free stored_free

status-new_item_example :
    (new_item (active_dedup_ids one_job.items (to_bob ∷ [])) to_bob).status ≡ duplicate_active
unfolding create_job active_dedup_ids
status-new_item_example = status-new_item one_job.items (to_bob ∷ []) to_bob

bob_active : any (λ rows. any (is_active_as "bob" "call") rows) (JsMap.values marked.items) ≡ true
unfolding create_job mark_item JsMap.values
bob_active = refl

new_item-duplicate_example :
    (new_item (active_dedup_ids marked.items (to_call ∷ to_bob ∷ [])) to_bob).status
    ≡ duplicate_active
new_item-duplicate_example =
    new_item-duplicate (to_call ∷ []) [] to_bob "call" refl marked.items bob_active

ann_active : any (λ rows. any (is_active_as "ann" "call") rows) (JsMap.values one_job.items) ≡ true
unfolding create_job JsMap.values
ann_active = refl

new_item-duplicate_other_action_example :
    (new_item (active_dedup_ids one_job.items (to_call ∷ to_text ∷ [])) to_text).status
    ≡ duplicate_active
new_item-duplicate_other_action_example =
    new_item-duplicate_other_action one_job.items [] (to_text ∷ []) to_call to_text "call" "text"
      refl refl refl ann_active

list_jobs-pages_example :
    (result : ListJobsResult) × (list_jobs "org"
        (record { channel = some voice; limit = some 1; cursor = none })
        rolled_up
      ≡ ok result)
    × (length result.jobs ≤ 1)
    × (result.jobs
          ++ map (to_view rolled_up) (
              behind "org"
                (some voice)
                (some 1)
                none
                rolled_up
                rolled_up-IsValid
                result.next_cursor)
        ≡ map (to_view rolled_up) (
            list_rows "org"
              (record { channel = some voice; limit = some 1; cursor = none })
              rolled_up))
list_jobs-pages_example =
    list_jobs-pages "org" (some voice) (some 1) none rolled_up rolled_up-IsValid (omega arith)
