-- ===== src/CampaignJobs/Store/Pages.antt =====
-- Paging: the cursor of a page gives exactly the jobs that the page left out.
mod Order
use aggregator_dpg.Prelude.{
  ℕ, zero, suc, ◌≤◌, ◌<◌, String, ◌≡◌, refl, sym, ap, ◌∙◌, inl, inr, true, Option, none, some, List,
  [], ◌∷◌, ◌++◌, map, arith, ltb, Bool-cases, &&→right, length, take, take_all, drop, keep, last?,
  All,
}
use mathlib.Core.List.{append-nil, map-append}
use Order.{
  AscRows, AscRows-of_Ascending, AscRows-keep, DescRows-sort_desc, sort_desc-keep, keep-below_page,
  All-last_take,
}
use aggregator_dpg.Prelude.JsMap
use aggregator_dpg.CampaignJobs.Types.{
  CampaignChannel, JobRow, JobView, Cursor, at, not_a_number, ListJobsOptions, ListJobsResult,
  StoreResult, ok, rejected, Store,
}
use aggregator_dpg.CampaignJobs.Store.Read.{
  in_list, on_channel, before_cursor, list_rows, list_jobs, limit_or_default, to_view, sort_desc,
}
use aggregator_dpg.CampaignJobs.Store.Valid.{IsValid}

last?-take {ℓ} :
    {A : Type ℓ} (n : ℕ) (xs : List A)
    → 0 < n
    → n < length xs
    → (x : A) × (last? (take n xs) ≡ some x)
last?-take zero xs h lt = elim h [ ]
last?-take (suc n) [] h lt = elim lt [ ]
last?-take (suc zero) (x ∷ xs) h lt = (x, refl)
last?-take (suc (suc n)) (x ∷ []) h lt = (x, refl)
last?-take (suc (suc n)) (x ∷ y ∷ ys) h lt = last?-take (suc n) (y ∷ ys) (omega arith) (omega arith)

take-append-drop {ℓ} : {A : Type ℓ} (n : ℕ) (xs : List A) → take n xs ++ drop n xs ≡ xs
take-append-drop zero xs = refl
take-append-drop (suc n) [] = refl
take-append-drop (suc n) (x ∷ xs) = ap (λ l. x ∷ l) (take-append-drop n xs)

length-map-take {ℓ κ} :
    {A : Type ℓ} {B : Type κ} (f : A → B) (n : ℕ) (xs : List A) → length (map f (take n xs)) ≤ n
length-map-take f zero xs = omega arith
length-map-take f (suc n) [] = omega arith
length-map-take f (suc n) (x ∷ xs) = omega (arith, length-map-take f n xs)

-- A later cursor is a filter on the rows of an earlier one.
module _ (org : String) (channel : Option CampaignChannel) (limit : Option ℕ) where
  abbrev options : Option Cursor → ListJobsOptions
  options cursor = record { channel = channel; limit = limit; cursor = cursor }

  keep-later :
      (cursor : Option Cursor) (n : ℕ) (xs : List JobRow)
      → ((job : JobRow) → ltb job.seq n ≡ true → before_cursor cursor job ≡ true)
      → keep (in_list org (options (some (at n)))) xs
        ≡ keep (λ job. ltb job.seq n) (keep (in_list org (options cursor)) xs)
  keep-later cursor n [] h = refl
  keep-later cursor n (x ∷ xs) h = ground (arith, h x, keep-later cursor n xs h)

  -- A cursor that stands for a row of the list comes before the list's own cursor.
  All-before_cursor :
      (cursor : Option Cursor) (xs : List JobRow)
      → All (λ job. before_cursor cursor job ≡ true) (keep (in_list org (options cursor)) xs)
  All-before_cursor cursor [] = tt
  All-before_cursor cursor (x ∷ xs) = elim (Bool-cases (in_list org (options cursor) x)) [
    | inl e ↦ rw e (&&→right _ _ e, All-before_cursor cursor xs)
    | inr e ↦ rw e (All-before_cursor cursor xs)
  ]

  before-later :
      (cursor : Option Cursor) (last job : JobRow)
      → before_cursor cursor last ≡ true
      → ltb job.seq last.seq ≡ true
      → before_cursor cursor job ≡ true
  before-later none last job h e = refl
  before-later (some (at n)) last job h e = ground arith
  before-later (some not_a_number) last job h e = h

  module _ (cursor : Option Cursor) (s : Store) (v : IsValid s) where
    abbrev rows : List JobRow
    rows = list_rows org (options cursor) s

    stored : AscRows (JsMap.values s.jobs)
    stored = AscRows-of_Ascending (JsMap.values s.jobs) v.ascending

    next_rows :
        {last : JobRow}
        → last? (take (limit_or_default limit) rows) ≡ some last
        → list_rows org (options (some (at last.seq))) s ≡ drop (limit_or_default limit) rows
    unfolding list_rows
    next_rows {last} e =
        let kept = sort_desc-keep (in_list org (options cursor)) (JsMap.values s.jobs) stored in
        let asc = AscRows-keep (in_list org (options cursor)) (JsMap.values s.jobs) stored in
        let before : before_cursor cursor last ≡ true =
          All-last_take (λ job. before_cursor cursor job ≡ true) (limit_or_default limit) rows
            (rw kept (All-before_cursor cursor (sort_desc (JsMap.values s.jobs)))) e in
        ap sort_desc (
          keep-later cursor last.seq (JsMap.values s.jobs)
            (λ job. before-later cursor last job before))
        ∙ sort_desc-keep (λ job. ltb job.seq last.seq)
            (keep (in_list org (options cursor)) (JsMap.values s.jobs)) asc
        ∙ keep-below_page (limit_or_default limit) rows (DescRows-sort_desc _ asc) e

    -- The rows that the next cursor of a result leads to.
    abbrev pub behind : Option Cursor → List JobRow
    behind none = []
    behind (some c) = list_rows org (options (some c)) s

    -- With a limit of one or more `listJobs` answers on a valid store; the page has no more jobs
    -- than the limit, and the page followed by all that its cursor leads to is the whole list: a
    -- caller that follows the cursors sees each job once, newest first.
    pub list_jobs-pages :
        0 < limit_or_default limit
        → (result : ListJobsResult) × (list_jobs org (options cursor) s ≡ ok result)
          × (length result.jobs ≤ limit_or_default limit)
          × (result.jobs ++ map (to_view s) (behind result.next_cursor) ≡ map (to_view s) rows)
    unfolding list_jobs
    list_jobs-pages pos = elim (Bool-cases (ltb (limit_or_default limit) (length rows))) [
      | inl more ↦
          (let (last, e) = last?-take (limit_or_default limit) rows pos (ground arith) in
            (
              record {
                jobs = map (to_view s) (take (limit_or_default limit) rows);
                next_cursor = some (at last.seq);
              },
              rw (more, e) refl,
              length-map-take (to_view s) (limit_or_default limit) rows,
              rw (next_rows e) (
                  sym (map-append (to_view s) (take (limit_or_default limit) rows) _)
                  ∙ ap (map (to_view s)) (take-append-drop (limit_or_default limit) rows)),
            ))
      | inr end ↦ (
        record { jobs = map (to_view s) (take (limit_or_default limit) rows); next_cursor = none },
        rw end refl,
        length-map-take (to_view s) (limit_or_default limit) rows,
        append-nil _ ∙ ap (map (to_view s)) (take_all (limit_or_default limit) rows (ground arith)),
      )
    ]

    -- With a limit of 0 the read of the last job of the page rejects as soon as a job matches.
    pub list_jobs-rejects :
        limit ≡ some 0 → 0 < length rows → list_jobs org (options cursor) s ≡ rejected
    unfolding list_jobs
    list_jobs-rejects e h =
        let none_left : ltb 0 (length rows) ≡ true = ground arith in
        rw (ap limit_or_default e) (rw none_left refl)
