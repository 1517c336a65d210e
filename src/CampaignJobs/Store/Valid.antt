-- ===== src/CampaignJobs/Store/Valid.antt =====
-- The invariant of the job store, and that each method keeps it.
use Prim.Native.String.{◌++◌ as ◌+ₛ◌}
use aggregator_dpg.Prelude.{
  ℕ, ◌≤◌, String, some, List, map, ◌≡◌, ◌≢◌, refl, ap, ◌∙◌, arith, eq_iff, ◌=ₛ◌, Bool-cases,
  Option-cases, inl, inr, find, All, Ascending,
}
use aggregator_dpg.Prelude.JsMap
use aggregator_dpg.CampaignJobs.Types.{ItemRow, JobRow, Store, empty}
use aggregator_dpg.CampaignJobs.Store.Update.{
  update_job, write_job, write_item, touch, items_of, is_terminal_item,
}

-- A job under an idempotency key: the key is made of the job's own org and key.
abbrev pub HasKey : String → JobRow → Type 0
HasKey key job = (own : String) × (key ≡ job.signalstack_org_id +ₛ ("\0" +ₛ own))

abbrev pub seqs : Store → List ℕ
seqs s = map (λ job. job.seq) (JsMap.values s.jobs)

pub record IsValid (s : Store) : Type 0 where
  pub ids : (k : String) (job : JobRow) → JsMap.get s.jobs k ≡ some job → job.id ≡ k
  pub named : (k : String) (job : JobRow) → JsMap.get s.jobs k ≡ some job → k ≢ ""
  pub keyed :
      (key id : String)
      → JsMap.get s.by_idempotency_key key ≡ some id
      → (job : JobRow) × (JsMap.get s.jobs id ≡ some job) × HasKey key job
  pub ascending : Ascending (seqs s)
  pub counted : All (λ n. n ≤ s.seq) (seqs s)

pub IsValid-empty : IsValid empty
unfolding JsMap.get JsMap.values
IsValid-empty = record {
  ids = λ k job e. cc;
  named = λ k job e. cc;
  keyed = λ key id e. cc;
  ascending = tt;
  counted = tt;
}

-- What no method writes of a job.
pub record KeepsIdentity (f : JobRow → JobRow) : Type 0 where
  pub id : (job : JobRow) → (f job).id ≡ job.id
  pub org : (job : JobRow) → (f job).signalstack_org_id ≡ job.signalstack_org_id
  pub seq : (job : JobRow) → (f job).seq ≡ job.seq

module _ (f : JobRow → JobRow) (keeps : KeepsIdentity f) (job_id : String) (s : Store)
    (v : IsValid s) {job : JobRow} (found : JsMap.get s.jobs job_id ≡ some job) where
  abbrev written : Store
  written = record s { jobs = JsMap.set s.jobs job_id (f job) }

  written-keyed :
      (key id : String)
      → JsMap.get s.by_idempotency_key key ≡ some id
      → (job' : JobRow) × (JsMap.get written.jobs id ≡ some job') × HasKey key job'
  written-keyed key id e =
      let (held, at_id, own) = v.keyed key id e in
      elim (Bool-cases (job_id =ₛ id)) [
        | inl same ↦ (
          f job,
          rw (JsMap.get-set, same) refl,
          (
            own.0,
            own.1
                ∙ ap (λ org. org +ₛ ("\0" +ₛ own.0))
                    (org_same held at_id ((eq_iff job_id id).0 same)),
          ),
        )
        | inr other ↦ (held, rw (JsMap.get-set, other) at_id, own)
      ]
    where
      org_same :
          (held : JobRow)
          → JsMap.get s.jobs id ≡ some held
          → job_id ≡ id
          → held.signalstack_org_id ≡ (f job).signalstack_org_id
      org_same held at_id same = cc (found, same, at_id, keeps.org job)

  pub written-IsValid : IsValid written
  written-IsValid = record {
    ids = λ k j e. ground (
      arith,
      JsMap.get-set s.jobs job_id k (f job),
      eq_iff job_id k,
      v.ids k j,
      v.ids job_id job,
      keeps.id job,
    );
    named = λ k j e. ground (
      arith,
      JsMap.get-set s.jobs job_id k (f job),
      eq_iff job_id k,
      v.named k j,
      v.named job_id job,
    );
    keyed = written-keyed;
    ascending =
        rw (JsMap.map-values-set (λ j. j.seq) s.jobs job_id (f job) found (keeps.seq job))
          v.ascending;
    counted =
        rw (JsMap.map-values-set (λ j. j.seq) s.jobs job_id (f job) found (keeps.seq job))
          v.counted;
  }

module _ (f : JobRow → JobRow) (keeps : KeepsIdentity f) (job_id : String) (s : Store)
    (v : IsValid s) where
  pub update_job-IsValid : IsValid (update_job f job_id s)
  unfolding update_job
  update_job-IsValid = elim (Option-cases (JsMap.get s.jobs job_id)) [
    | inl e ↦ rw (e, update_job) v
    | inr (job, e) ↦ rw (e, update_job) (written-IsValid f keeps job_id s v e)
  ]

  pub write_job-IsValid : IsValid (write_job f job_id s).1
  unfolding write_job
  write_job-IsValid = elim (Option-cases (JsMap.get s.jobs job_id)) [
    | inl e ↦ rw (e, write_job) v
    | inr (job, e) ↦ rw (e, write_job) update_job-IsValid
  ]

set_items-IsValid :
    (s : Store) (m : JsMap.JsMap (List ItemRow)) → IsValid s → IsValid (record s { items = m })
set_items-IsValid s m v = record {
  ids = v.ids;
  named = v.named;
  keyed = v.keyed;
  ascending = v.ascending;
  counted = v.counted;
}

pub touch-IsValid :
    (now : ℕ) (job_id : String) (s : Store) → IsValid s → IsValid (touch now job_id s)
unfolding touch
touch-IsValid now job_id s v =
    update_job-IsValid (λ job. record job { updated_at = now })
      (record { id = λ job. refl; org = λ job. refl; seq = λ job. refl }) job_id s v

pub write_item-IsValid :
    (f : ItemRow → ItemRow) (job_id item_id : String) (now : ℕ) (s : Store)
    → IsValid s
    → IsValid (write_item f job_id item_id now s).1
unfolding write_item
write_item-IsValid f job_id item_id now s v =
    elim (Option-cases (find (λ i. i.item_id =ₛ item_id) (items_of s job_id))) [
      | inl e ↦ rw (e, write_item) v
      | inr (item, e) ↦ elim (Bool-cases (is_terminal_item item)) [
        | inl t ↦ rw (e, write_item) (rw t v)
        | inr t ↦ rw (e, write_item) (rw t (touch-IsValid now job_id _ (set_items-IsValid s _ v)))
      ]
    ]
