-- ===== src/CampaignJobs/Store/Frozen.antt =====
-- The forward-only guard: an item in a terminal status is never written again.
use aggregator_dpg.Prelude.{
  ℕ, String, none, some, Option, List, [], ◌∷◌, ◌≡◌, ◌≢◌, refl, ap, ◌∙◌, arith, true, false, eq_iff,
  ◌=ₛ◌, find, Bool-cases, Option-cases, inl, inr, if◌then◌else◌,
}
use aggregator_dpg.Prelude.JsMap
use aggregator_dpg.CampaignJobs.Types.{CreateJobInput, ItemRow, JobRow, Store}
use aggregator_dpg.CampaignJobs.Store.Create.{create_job, insert_job, idempotency_key_of, truthy}
use aggregator_dpg.CampaignJobs.Store.Update.{
  write_item, write_job, update_item, update_job, touch, items_of, is_terminal_item,
}
use aggregator_dpg.CampaignJobs.Store.Steps.{
  IsFresh, Reach, here, next, Shape, inserts, on_item, on_job, Step-Shape,
}

-- The row that `find` gives for an item of a job.
abbrev pub item_at : Store → String → String → Option ItemRow
item_at s job_id item_id = find (λ i. i.item_id =ₛ item_id) (items_of s job_id)

find-update_item :
    (f : ItemRow → ItemRow) (item_id other : String) (rows : List ItemRow)
    → ((i : ItemRow) → (f i).item_id ≡ i.item_id)
    → item_id ≢ other
    → find (λ i. i.item_id =ₛ other) (update_item f item_id rows)
      ≡ find (λ i. i.item_id =ₛ other) rows
unfolding update_item
find-update_item f item_id other [] keeps ne = refl
find-update_item f item_id other (i ∷ rows) keeps ne = ground (
  arith,
  keeps i,
  find-update_item f item_id other rows keeps,
  eq_iff i.item_id item_id,
  eq_iff i.item_id other,
  eq_iff (f i).item_id other,
)

items-update_job :
    (f : JobRow → JobRow) (job_id : String) (s : Store) → (update_job f job_id s).items ≡ s.items
unfolding update_job
items-update_job f job_id s = ground arith

items-write_job :
    (f : JobRow → JobRow) (job_id : String) (s : Store) → (write_job f job_id s).1.items ≡ s.items
unfolding write_job
items-write_job f job_id s = ground (arith, items-update_job f job_id s)

items-touch : (now : ℕ) (job_id : String) (s : Store) → (touch now job_id s).items ≡ s.items
unfolding touch
items-touch now job_id s = items-update_job _ job_id s

item_at-items :
    (s u : Store) (job_id item_id : String)
    → u.items ≡ s.items
    → item_at u job_id item_id ≡ item_at s job_id item_id
unfolding items_of
item_at-items s u job_id item_id e = rw e

items_of-set :
    (s : Store) (job_id k : String) (rows : List ItemRow)
    → items_of (record s { items = JsMap.set s.items job_id rows }) k
      ≡ (if job_id =ₛ k then rows else items_of s k)
unfolding items_of
items_of-set s job_id k rows = ground (arith, JsMap.get-set s.items job_id k rows)

module _ (f : ItemRow → ItemRow) (job_id item_id : String) (now : ℕ) (s : Store)
    (keeps : (i : ItemRow) → (f i).item_id ≡ i.item_id) (at_job at_item : String) {row : ItemRow}
    (found : item_at s at_job at_item ≡ some row) (done : is_terminal_item row ≡ true) where
  abbrev written : Store
  written = record s {
    items = JsMap.set s.items job_id (update_item f item_id (items_of s job_id));
  }

  -- The guard let the write through, so the row that was found is another one.
  other_item :
      {item : ItemRow}
      → item_at s job_id item_id ≡ some item
      → is_terminal_item item ≡ false
      → job_id ≡ at_job
      → item_id ≢ at_item
  other_item {item} e t same_job same_item =
      let same : item ≡ row = cc (e, found, same_job, same_item) in cc (same, t, done)

  item_at-written :
      {item : ItemRow}
      → item_at s job_id item_id ≡ some item
      → is_terminal_item item ≡ false
      → item_at written at_job at_item ≡ some row
  item_at-written {item} e t = elim (Bool-cases (job_id =ₛ at_job)) [
    | inl same ↦
        (let at : job_id ≡ at_job = (eq_iff job_id at_job).0 same in
          ap (find (λ i. i.item_id =ₛ at_item)) (rw (items_of-set, same))
          ∙ find-update_item f item_id at_item (items_of s job_id) keeps (other_item e t at)
          ∙ ap (λ k. item_at s k at_item) at
          ∙ found)
    | inr other ↦ ap (find (λ i. i.item_id =ₛ at_item)) (rw (items_of-set, other)) ∙ found
  ]

  item_at-write_item : item_at (write_item f job_id item_id now s).1 at_job at_item ≡ some row
  unfolding write_item
  item_at-write_item = elim (Option-cases (item_at s job_id item_id)) [
    | inl e ↦ rw (e, write_item) found
    | inr (item, e) ↦ elim (Bool-cases (is_terminal_item item)) [
      | inl t ↦ rw (e, write_item) (rw t found)
      | inr t ↦
          rw (e, write_item)
            (rw t (
              item_at-items written (touch now job_id written) at_job at_item
                (items-touch now job_id written)
              ∙ item_at-written e t))
    ]
  ]

-- An item that is found belongs to no fresh job.
fresh_ne :
    (id : String) (s : Store) (at_job at_item : String) {row : ItemRow}
    → IsFresh id s
    → item_at s at_job at_item ≡ some row
    → id ≢ at_job
unfolding items_of
fresh_ne id s at_job at_item fresh found same =
    let empty : JsMap.get s.items at_job ≡ none = cc (fresh.no_items, same) in
    cc (rw (empty, items_of) at found)

items_of-other :
    (s u : Store) (id k : String) (rows : List ItemRow)
    → u.items ≡ JsMap.set s.items id rows
    → (id =ₛ k) ≡ false
    → items_of u k ≡ items_of s k
unfolding items_of
items_of-other s u id k rows e other = ground (arith, JsMap.get-set s.items id k rows)

-- `createJob` writes the items of a fresh job, and of no other.
item_at-insert_job :
    (input : CreateJobInput) (idem_key : Option String) (id : String) (now : ℕ) (s : Store)
    (at_job at_item : String) {row : ItemRow}
    → IsFresh id s
    → item_at s at_job at_item ≡ some row
    → item_at (insert_job input idem_key id now s).1 at_job at_item ≡ some row
unfolding insert_job
item_at-insert_job input idem_key id now s at_job at_item fresh found =
    let ne : id ≢ at_job = fresh_ne id s at_job at_item fresh found in
    let other : (id =ₛ at_job) ≡ false = ground (arith, eq_iff id at_job) in
    ap (find (λ i. i.item_id =ₛ at_item))
      (items_of-other s (insert_job input idem_key id now s).1 id at_job _ refl other)
    ∙ found

item_at-create_job :
    (input : CreateJobInput) (id : String) (now : ℕ) (s : Store) (at_job at_item : String)
    {row : ItemRow}
    → IsFresh id s
    → item_at s at_job at_item ≡ some row
    → item_at (create_job input id now s).1 at_job at_item ≡ some row
unfolding create_job
item_at-create_job input id now s at_job at_item fresh found =
    elim (Option-cases (idempotency_key_of input)) [
      | inl e ↦
          rw (e, create_job) (item_at-insert_job input none id now s at_job at_item fresh found)
      | inr (key, e) ↦ elim (Option-cases (truthy (JsMap.get s.by_idempotency_key key))) [
        | inl t ↦
            rw (e, create_job)
              (rw t (item_at-insert_job input (some key) id now s at_job at_item fresh found))
        | inr (held, t) ↦ rw (e, create_job) (rw t found)
      ]
    ]

Step-item_at :
    {s u : Store} (at_job at_item : String) {row : ItemRow}
    → Shape s u
    → item_at s at_job at_item ≡ some row
    → is_terminal_item row ≡ true
    → item_at u at_job at_item ≡ some row
Step-item_at {s} at_job at_item (inserts input id now fresh e) found done =
    ap (λ t. item_at t at_job at_item) e
    ∙ item_at-create_job input id now s at_job at_item fresh found
Step-item_at {s} at_job at_item (on_item f job_id item_id now keeps e) found done =
    ap (λ t. item_at t at_job at_item) e
    ∙ item_at-write_item f job_id item_id now s keeps at_job at_item found done
Step-item_at {s} {u} at_job at_item (on_job f job_id keeps e) found done =
    item_at-items s u at_job at_item (ap (λ (t : Store). t.items) e ∙ items-write_job f job_id s)
    ∙ found

-- An item in a terminal status keeps its row, all the fields of it, through any calls in any order.
pub Reach-item_at :
    {s u : Store} (at_job at_item : String) {row : ItemRow}
    → Reach s u
    → item_at s at_job at_item ≡ some row
    → is_terminal_item row ≡ true
    → item_at u at_job at_item ≡ some row
Reach-item_at at_job at_item here found done = found
Reach-item_at at_job at_item (next r st) found done =
    Step-item_at at_job at_item (Step-Shape st) (Reach-item_at at_job at_item r found done) done
