-- ===== src/CampaignJobs/Store/Replay.antt =====
-- Idempotency: a replayed key gives the original job, and no other org's.
use Prim.Native.String.{◌++◌ as ◌+ₛ◌}
use text.Mathlib.TextLemmas.{nil-append, cons-append, cons-eq-cons}
use aggregator_dpg.Prelude.{
  ℕ, suc, String, some, true, false, ◌≡◌, ◌≢◌, refl, sym, ap, ◌∙◌, arith, eq_iff, eq_refl, ◌=ₛ◌,
  Bool-cases, Option-cases, inl, inr, find,
}
use aggregator_dpg.Prelude.JsMap
use aggregator_dpg.CampaignJobs.Types.{CreateJobInput, ItemRow, JobRow, Store, StoreResult, ok}
use aggregator_dpg.CampaignJobs.Store.Create.{
  create_job, insert_job, idempotency_key_of, truthy, CreateJobResult, replay, to_record, new_job,
}
use aggregator_dpg.CampaignJobs.Store.Update.{
  write_item, write_job, update_job, touch, items_of, is_terminal_item,
}
use aggregator_dpg.CampaignJobs.Store.Valid.{IsValid, HasKey}
use aggregator_dpg.CampaignJobs.Store.Insert.{idempotency_key_of-HasKey, create_job-IsValid}
use aggregator_dpg.CampaignJobs.Store.Steps.{
  IsFresh, Reach, here, next, Shape, inserts, on_item, on_job, Step-Shape, Reach-IsValid,
}

-- A text without the character U+0000.
abbrev pub NulFree : String → Type 0
NulFree String.[] = Unit
NulFree (String.◌∷◌ c s) = (c ≢ "\0") × NulFree s

nul-append : (x : String) → "\0" +ₛ x ≡ String.◌∷◌ "\0" x
nul-append x = cons-append "\0" "" x ∙ ap (λ t. String.◌∷◌ "\0" t) (nil-append x)

sep-append : (x : String) → "" +ₛ ("\0" +ₛ x) ≡ String.◌∷◌ "\0" x
sep-append x = nil-append ("\0" +ₛ x) ∙ nul-append x

-- Such a text in front of the separator can be read back.
join_inj : (a b x y : String) → NulFree a → NulFree b → a +ₛ ("\0" +ₛ x) ≡ b +ₛ ("\0" +ₛ y) → a ≡ b
join_inj String.[] String.[] x y fa fb e = refl
join_inj String.[] (String.◌∷◌ c b) x y fa fb e =
    let h : String.◌∷◌ "\0" x ≡ String.◌∷◌ c (b +ₛ ("\0" +ₛ y)) =
      sym (sep-append x) ∙ e ∙ cons-append c b ("\0" +ₛ y) in
    absurd (fb.0 (sym (cons-eq-cons.0 h).0))
join_inj (String.◌∷◌ c a) String.[] x y fa fb e =
    let h : String.◌∷◌ c (a +ₛ ("\0" +ₛ x)) ≡ String.◌∷◌ "\0" y =
      sym (cons-append c a ("\0" +ₛ x)) ∙ e ∙ sep-append y in
    absurd (fa.0 (cons-eq-cons.0 h).0)
join_inj (String.◌∷◌ c a) (String.◌∷◌ d b) x y fa fb e =
    let h : String.◌∷◌ c (a +ₛ ("\0" +ₛ x)) ≡ String.◌∷◌ d (b +ₛ ("\0" +ₛ y)) =
      sym (cons-append c a ("\0" +ₛ x)) ∙ e ∙ cons-append d b ("\0" +ₛ y) in
    cc ((cons-eq-cons.0 h).0, join_inj a b x y fa.1 fb.1 (cons-eq-cons.0 h).1)

-- A key that is held names a job with a name.
held_truthy :
    (s : Store)
    → IsValid s
    → (key id : String) → JsMap.get s.by_idempotency_key key ≡ some id
    → truthy (JsMap.get s.by_idempotency_key key) ≡ some id
held_truthy s v key id e =
    let (job, at, own) = v.keyed key id e in
    let named : id ≢ "" = v.named id job at in ground (arith, eq_iff id "")

keys-update_job :
    (f : JobRow → JobRow) (job_id : String) (s : Store)
    → (update_job f job_id s).by_idempotency_key ≡ s.by_idempotency_key
unfolding update_job
keys-update_job f job_id s = ground arith

keys-write_job :
    (f : JobRow → JobRow) (job_id : String) (s : Store)
    → (write_job f job_id s).1.by_idempotency_key ≡ s.by_idempotency_key
unfolding write_job
keys-write_job f job_id s = ground (arith, keys-update_job f job_id s)

keys-write_item :
    (f : ItemRow → ItemRow) (job_id item_id : String) (now : ℕ) (s : Store)
    → (write_item f job_id item_id now s).1.by_idempotency_key ≡ s.by_idempotency_key
unfolding write_item touch
keys-write_item f job_id item_id now s =
    elim (Option-cases (find (λ i. i.item_id =ₛ item_id) (items_of s job_id))) [
      | inl e ↦ rw (e, write_item) refl
      | inr (item, e) ↦ elim (Bool-cases (is_terminal_item item)) [
        | inl t ↦ rw (e, write_item) (rw t refl)
        | inr t ↦ rw (e, write_item) (rw t (keys-update_job _ job_id _))
      ]
    ]

keys-create_job :
    (input : CreateJobInput) (new_id : String) (now : ℕ) (s : Store)
    → IsValid s
    → (key id : String) → JsMap.get s.by_idempotency_key key ≡ some id
    → JsMap.get (create_job input new_id now s).1.by_idempotency_key key ≡ some id
unfolding create_job insert_job
keys-create_job input new_id now s v key id e = elim (Option-cases (idempotency_key_of input)) [
  | inl none_given ↦ rw (none_given, create_job) e
  | inr (own, given) ↦ elim (Option-cases (truthy (JsMap.get s.by_idempotency_key own))) [
    | inl t ↦
        rw (given, create_job)
          (rw t (
            ground (
              arith,
              JsMap.get-set s.by_idempotency_key own key new_id,
              eq_iff own key,
              held_truthy s v key id e,
            )))
    | inr (held, t) ↦ rw (given, create_job) (rw t e)
  ]
]

Shape-keys :
    {s u : Store} (key id : String)
    → IsValid s
    → Shape s u
    → JsMap.get s.by_idempotency_key key ≡ some id
    → JsMap.get u.by_idempotency_key key ≡ some id
Shape-keys {s} key id v (inserts input new_id now fresh e) held =
    ap (λ (t : Store). JsMap.get t.by_idempotency_key key) e
    ∙ keys-create_job input new_id now s v key id held
Shape-keys {s} key id v (on_item f job_id item_id now keeps e) held =
    ap (λ (t : Store). JsMap.get t.by_idempotency_key key) e
    ∙ ap (λ m. JsMap.get m key) (keys-write_item f job_id item_id now s)
    ∙ held
Shape-keys {s} key id v (on_job f job_id keeps e) held =
    ap (λ (t : Store). JsMap.get t.by_idempotency_key key) e
    ∙ ap (λ m. JsMap.get m key) (keys-write_job f job_id s)
    ∙ held

Reach-keys :
    {s u : Store} (key id : String)
    → IsValid s
    → Reach s u
    → JsMap.get s.by_idempotency_key key ≡ some id
    → JsMap.get u.by_idempotency_key key ≡ some id
Reach-keys key id v here held = held
Reach-keys key id v (next r st) held =
    Shape-keys key id (Reach-IsValid v r) (Step-Shape st) (Reach-keys key id v r held)

-- The answer to a key that is held.
replayed :
    (input : CreateJobInput) (new_id : String) (now : ℕ) (s : Store)
    → IsValid s
    → (key id : String) → idempotency_key_of input ≡ some key
    → JsMap.get s.by_idempotency_key key ≡ some id
    → (job : JobRow) × (create_job input new_id now s
        ≡ (ok (record { job = to_record job; created = false }), s))
      × (job.id ≡ id)
      × HasKey key job
unfolding create_job replay
replayed input new_id now s v key id given held =
    let (job, at, own) = v.keyed key id held in
    (
      job,
      rw (given, create_job) (rw (held_truthy s v key id held) (rw at refl)),
      v.ids id job at,
      own,
    )

-- What the first call leaves under its key: the id of the job that it answers with.
first_call :
    (input : CreateJobInput) (id : String) (now : ℕ) (s : Store)
    → IsValid s
    → IsFresh id s
    → (key : String) → idempotency_key_of input ≡ some key
    → (result : CreateJobResult) × ((create_job input id now s).0 ≡ ok result)
      × (JsMap.get (create_job input id now s).1.by_idempotency_key key ≡ some result.job.id)
unfolding create_job insert_job to_record new_job
first_call input id now s v fresh key given =
    elim (Option-cases (JsMap.get s.by_idempotency_key key)) [
      | inl free ↦ (
        record { job = to_record (new_job input id now (suc s.seq)); created = true },
        rw (given, create_job) (rw free refl),
        rw (given, create_job) (rw free (rw (JsMap.get-set, eq_refl key) refl)),
      )
      | inr (held, e) ↦
          (let (job, same, job_id, own) = replayed input id now s v key held given e in
            (
              record { job = to_record job; created = false },
              ap (λ (r : StoreResult CreateJobResult × Store). r.0) same,
              ap (λ (r : StoreResult CreateJobResult × Store). JsMap.get r.1.by_idempotency_key key)
                    same
                  ∙ e
                  ∙ ap some (sym job_id),
            ))
    ]

-- A request that repeats the org and the idempotency key of an earlier one, after any calls in
-- between, is answered with the id of the job of the earlier one and `created: false`, and changes
-- nothing.
pub create_job-replay :
    (input again : CreateJobInput) (id new_id : String) (now later : ℕ) (s u : Store) (key : String)
    → IsValid s
    → IsFresh id s
    → idempotency_key_of input ≡ some key
    → idempotency_key_of again ≡ some key
    → Reach (create_job input id now s).1 u
    → (first replayed : CreateJobResult) × ((create_job input id now s).0 ≡ ok first)
      × (create_job again new_id later u ≡ (ok replayed, u))
      × (replayed.created ≡ false)
      × (replayed.job.id ≡ first.job.id)
unfolding to_record
create_job-replay input again id new_id now later s u key v fresh given repeated r =
    let (first, answer, kept) = first_call input id now s v fresh key given in
    let valid = create_job-IsValid input id now s v fresh.no_job fresh.named in
    let held = Reach-keys key first.job.id valid r kept in
    let (job, same, job_id, own) =
      replayed again new_id later u (Reach-IsValid valid r) key first.job.id repeated held in
    (first, record { job = to_record job; created = false }, answer, same, refl, job_id)

-- `createJob` never rejects on a valid store, and what it answers is a job of the caller's org, as
-- long as no org id holds the character that joins it to the key.
pub create_job-own_org :
    (input : CreateJobInput) (id : String) (now : ℕ) (s : Store)
    → IsValid s
    → IsFresh id s
    → NulFree input.signalstack_org_id
    → ((k : String) (job : JobRow) → JsMap.get s.jobs k ≡ some job → NulFree job.signalstack_org_id)
    → (result : CreateJobResult) × ((create_job input id now s).0 ≡ ok result)
      × (result.job.signalstack_org_id ≡ input.signalstack_org_id)
unfolding create_job insert_job to_record new_job
create_job-own_org input id now s v fresh free all_free =
    elim (Option-cases (idempotency_key_of input)) [
      | inl e ↦ (
        record { job = to_record (new_job input id now (suc s.seq)); created = true },
        rw (e, create_job) refl,
        refl,
      )
      | inr (key, e) ↦ elim (Option-cases (JsMap.get s.by_idempotency_key key)) [
        | inl none_held ↦ (
          record { job = to_record (new_job input id now (suc s.seq)); created = true },
          rw (e, create_job) (rw none_held refl),
          refl,
        )
        | inr (held_id, held) ↦
            (let (own, made, _) = idempotency_key_of-HasKey input e in
              let (job, at, (other, key_of)) = v.keyed key held_id held in
              (
                record { job = to_record job; created = false },
                rw (e, create_job) (rw (held_truthy s v key held_id held) (rw at refl)),
                join_inj job.signalstack_org_id input.signalstack_org_id other own
                    (all_free held_id job at) free (sym key_of ∙ made),
              ))
      ]
    ]
