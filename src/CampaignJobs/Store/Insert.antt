-- ===== src/CampaignJobs/Store/Insert.antt =====
-- `createJob` keeps the invariant of the store.
use Prim.Native.String.{◌++◌ as ◌+ₛ◌}
use aggregator_dpg.Prelude.{
  ℕ, suc, String, Option, none, some, List, [], ◌∷◌, ◌++◌, map, ◌≡◌, ◌≢◌, refl, ap, arith, eq_iff,
  ◌=ₛ◌, Bool-cases, Option-cases, inl, inr, Ascending-append, All-le_suc,
}
use aggregator_dpg.Prelude.JsMap
use aggregator_dpg.CampaignJobs.Types.{CreateJobInput, JobRow, Store}
use aggregator_dpg.CampaignJobs.Store.Create.{
  truthy, remember, new_job, idempotency_key_of, insert_job, create_job,
}
use aggregator_dpg.CampaignJobs.Store.Valid.{HasKey, seqs, IsValid}

map-append_one {ℓ κ} :
    {A : Type ℓ} {B : Type κ} (f : A → B) (xs : List A) (x : A)
    → map f (xs ++ x ∷ []) ≡ map f xs ++ f x ∷ []
map-append_one f [] x = refl
map-append_one f (y ∷ xs) x = ap (λ r. f y ∷ r) (map-append_one f xs x)

pub idempotency_key_of-HasKey :
    (input : CreateJobInput) {key : String}
    → idempotency_key_of input ≡ some key
    → (own : String) × (key ≡ input.signalstack_org_id +ₛ ("\0" +ₛ own))
      × (truthy input.idempotency_key ≡ some own)
unfolding idempotency_key_of
idempotency_key_of-HasKey input e = elim (Option-cases (truthy input.idempotency_key)) [
  | inl t ↦ ground arith
  | inr (own, t) ↦ (own, ground arith, t)
]

module _ (input : CreateJobInput) (id : String) (now : ℕ) (s : Store) (v : IsValid s)
    (fresh : JsMap.get s.jobs id ≡ none) (named : id ≢ "") where
  abbrev row : JobRow
  row = new_job input id now (suc s.seq)

  old_still :
      (k : String) {job : JobRow}
      → JsMap.get s.jobs k ≡ some job
      → JsMap.get (JsMap.set s.jobs id row) k ≡ some job
  old_still k e = ground (arith, JsMap.get-set s.jobs id k row, eq_iff id k)

  seqs-insert :
      map (λ job. job.seq) (JsMap.values (JsMap.set s.jobs id row)) ≡ seqs s ++ suc s.seq ∷ []
  unfolding new_job
  seqs-insert =
      rw (JsMap.values-set_new s.jobs id row fresh)
        (map-append_one (λ job. job.seq) (JsMap.values s.jobs) row)

  insert-keyed :
      (idem_key : Option String)
      → idempotency_key_of input ≡ idem_key
      → (key held_id : String)
      → JsMap.get (remember s.by_idempotency_key idem_key id) key ≡ some held_id
      → (job : JobRow) × (JsMap.get (JsMap.set s.jobs id row) held_id ≡ some job) × HasKey key job
  insert-keyed none e key held_id at_key =
      let (job, at_id, own) = v.keyed key held_id at_key in (job, old_still held_id at_id, own)
  insert-keyed (some new_key) e key held_id at_key = elim (Bool-cases (new_key =ₛ key)) [
    | inl same ↦
        (let (own, made, _) = idempotency_key_of-HasKey input e in
          (
            row,
            ground (
              arith,
              JsMap.get-set s.by_idempotency_key new_key key id,
              eq_iff id held_id,
              JsMap.get-set s.jobs id held_id row,
            ),
            (own, unfold new_job in cc ((eq_iff new_key key).0 same, made)),
          ))
    | inr other ↦
        (let (job, at_id, own) =
            v.keyed key held_id
              (ground (arith, JsMap.get-set s.by_idempotency_key new_key key id)) in
          (job, old_still held_id at_id, own))
  ]

  pub insert_job-IsValid :
      (idem_key : Option String)
      → idempotency_key_of input ≡ idem_key
      → IsValid (insert_job input idem_key id now s).1
  unfolding insert_job
  insert_job-IsValid idem_key e = record {
    ids = λ k j at. ground (arith, JsMap.get-set s.jobs id k row, eq_iff id k, v.ids k j);
    named = λ k j at. ground (arith, JsMap.get-set s.jobs id k row, eq_iff id k, v.named k j);
    keyed = insert-keyed idem_key e;
    ascending = rw seqs-insert (Ascending-append s.seq (seqs s) v.counted v.ascending);
    counted = rw seqs-insert (All-le_suc s.seq (seqs s) v.counted);
  }

  pub create_job-IsValid : IsValid (create_job input id now s).1
  unfolding create_job
  create_job-IsValid = elim (Option-cases (idempotency_key_of input)) [
    | inl e ↦ rw (e, create_job) (insert_job-IsValid none e)
    | inr (key, e) ↦ elim (Option-cases (truthy (JsMap.get s.by_idempotency_key key))) [
      | inl t ↦ rw (e, create_job) (rw t (insert_job-IsValid (some key) e))
      | inr (held, t) ↦ rw (e, create_job) (rw t v)
    ]
  ]
