-- ===== src/CampaignJobs/Store/Create.antt =====
-- `createJob` of memory.ts, with `activeDedupIds` and `toRecord`.
use Prim.Native.String.{◌++◌ as ◌+ₛ◌}
use aggregator_dpg.Prelude.{
  ℕ, suc, String, Bool, true, false, Option, none, some, List, [], ◌∷◌, map, ◌&&◌, ◌==◌, ◌=ₛ◌,
  length, option_eq, if◌then◌else◌, keep, any, has_text,
}
use aggregator_dpg.Prelude.Json.{null}
use aggregator_dpg.Prelude.JsMap
use aggregator_dpg.Prelude.JsMap.{JsMap}
use aggregator_dpg.CampaignJobs.Types.{
  pending, duplicate_active, queued, active_dedup_item_statuses, includes_item, CreateJobItemInput,
  CreateJobInput, JobRecord, ItemRow, JobRow, StoreResult, ok, rejected, Store,
}

-- A text or null as a condition: the empty text is falsy.
abbrev pub truthy : Option String → Option String
truthy none = none
truthy (some s) = if s =ₛ "" then none else some s

pub record CreateJobResult : Type 0 where
  pub job : JobRecord
  pub created : Bool

unfoldable pub to_record : JobRow → JobRecord
to_record row = record {
  id = row.id;
  channel = row.channel;
  status = row.status;
  signalstack_org_id = row.signalstack_org_id;
}

abbrev pub is_some : Option String → Bool
is_some none = false
is_some (some s) = true

unfoldable pub matches_pair : List CreateJobItemInput → ItemRow → Bool
matches_pair pairs row =
    any (λ p. (p.item_id =ₛ row.item_id) && option_eq p.action row.action) pairs

-- Whether the inner loop adds the row's item id.
unfoldable pub is_active_pair : List CreateJobItemInput → ItemRow → Bool
unfolding matches_pair
is_active_pair pairs row =
    is_some row.action
    && includes_item active_dedup_item_statuses row.status
    && matches_pair pairs row

-- `for (const row of rows) { … dup.add(row.itemId) }`; only membership of the set is used.
unfoldable pub add_active : List CreateJobItemInput → List ItemRow → List String → List String
unfolding is_active_pair
add_active pairs [] dup = dup
add_active pairs (row ∷ rows) dup =
    add_active pairs rows (if is_active_pair pairs row then row.item_id ∷ dup else dup)

unfoldable pub add_all_active :
    List CreateJobItemInput → List (List ItemRow) → List String → List String
unfolding add_active
add_all_active pairs [] dup = dup
add_all_active pairs (rows ∷ more) dup = add_all_active pairs more (add_active pairs rows dup)

abbrev pub has_action : CreateJobItemInput → Bool
has_action i = is_some i.action

unfoldable pub active_dedup_ids : JsMap (List ItemRow) → List CreateJobItemInput → List String
unfolding add_all_active JsMap.values
active_dedup_ids items candidates =
    let pairs = keep has_action candidates in
    if length pairs == 0 then [] else add_all_active pairs (JsMap.values items) []

unfoldable pub new_item : List String → CreateJobItemInput → ItemRow
new_item dup_ids i = record {
  item_id = i.item_id;
  action = i.action;
  status = if has_action i && has_text i.item_id dup_ids then duplicate_active else pending;
  provider_ref = none;
  provider_batch_ref = none;
  skip_reason = none;
  error_reason = none;
}

-- `${input.signalstackOrgId}\u0000${input.idempotencyKey}`
unfoldable pub idempotency_key_of : CreateJobInput → Option String
idempotency_key_of input = elim (truthy input.idempotency_key) [
  | none ↦ none
  | some key ↦ some (input.signalstack_org_id +ₛ ("\0" +ₛ key))
]

unfoldable pub new_job : CreateJobInput → String → ℕ → ℕ → JobRow
new_job input id now seq = record {
  id = id;
  seq = seq;
  aggregator_id = input.aggregator_id;
  signalstack_org_id = input.signalstack_org_id;
  channel = input.channel;
  status = queued;
  idempotency_key = input.idempotency_key;
  metadata = input.metadata;
  content = input.content;
  requested_by = input.requested_by;
  request_id = input.request_id;
  error_reason = none;
  last_progress_at = none;
  created_at = now;
  updated_at = now;
  provider_response = null;
}

abbrev pub remember : JsMap String → Option String → String → JsMap String
remember m none id = m
remember m (some key) id = JsMap.set m key id

-- The part of `createJob` below the replay check.
unfoldable pub insert_job :
    CreateJobInput → Option String → String → ℕ → Store → StoreResult CreateJobResult × Store
unfolding active_dedup_ids new_item new_job to_record JsMap.set
insert_job input idem_key id now s =
    let row = new_job input id now (suc s.seq) in
    let dup_ids = active_dedup_ids s.items input.items in
    (
      ok (record { job = to_record row; created = true }),
      record {
        jobs = JsMap.set s.jobs id row;
        items = JsMap.set s.items id (map (new_item dup_ids) input.items);
        by_idempotency_key = remember s.by_idempotency_key idem_key id;
        seq = suc s.seq;
      },
    )

-- `const existing = this.jobs.get(existingId)!`: without the job the read of its id rejects.
unfoldable pub replay : Option JobRow → StoreResult CreateJobResult
unfolding to_record
replay none = rejected
replay (some existing) = ok (record { job = to_record existing; created = false })

unfoldable pub create_job :
    CreateJobInput → String → ℕ → Store → StoreResult CreateJobResult × Store
unfolding idempotency_key_of insert_job replay JsMap.get
create_job input id now s = elim (idempotency_key_of input) [
  | none ↦ insert_job input none id now s
  | some key ↦ elim (truthy (JsMap.get s.by_idempotency_key key)) [
    | none ↦ insert_job input (some key) id now s
    | some existing_id ↦ (replay (JsMap.get s.jobs existing_id), s)
  ]
]
