-- ===== src/CampaignJobs/Store/Pages/Order.antt =====
-- The order of the rows: ascending in the map, descending once sorted.
use aggregator_dpg.Prelude.{
  ℕ, zero, suc, ◌<◌, ◌≡◌, refl, sym, ap, ◌∙◌, inl, inr, Bool, some, List, [], ◌∷◌, ◌++◌, map, arith,
  ltb, if◌then◌else◌, Bool-cases, take, drop, keep, last?, All, All-append, Ascending,
}
use mathlib.Core.List.{append-nil}
use mathlib.Core.Option.{some-injective}
use mathlib.Core.Path.{subst}
use aggregator_dpg.CampaignJobs.Types.{JobRow}
use aggregator_dpg.CampaignJobs.Store.Read.{insert_desc, sort_desc}

abbrev pub Above : JobRow → List JobRow → Type 0
Above x xs = All (λ (y : JobRow). x.seq < y.seq) xs

abbrev pub Below : JobRow → List JobRow → Type 0
Below x xs = All (λ (y : JobRow). y.seq < x.seq) xs

abbrev pub AscRows : List JobRow → Type 0
AscRows [] = Unit
AscRows (x ∷ xs) = Above x xs × AscRows xs

abbrev pub DescRows : List JobRow → Type 0
DescRows [] = Unit
DescRows (x ∷ xs) = Below x xs × DescRows xs

All-of_map :
    (x : JobRow) (xs : List JobRow) → All (λ n. x.seq < n) (map (λ job. job.seq) xs) → Above x xs
All-of_map x [] h = tt
All-of_map x (y ∷ ys) h = (h.0, All-of_map x ys h.1)

pub AscRows-of_Ascending : (xs : List JobRow) → Ascending (map (λ job. job.seq) xs) → AscRows xs
AscRows-of_Ascending [] h = tt
AscRows-of_Ascending (x ∷ xs) h = (All-of_map x xs h.0, AscRows-of_Ascending xs h.1)

Above-keep : (q : JobRow → Bool) (x : JobRow) (xs : List JobRow) → Above x xs → Above x (keep q xs)
Above-keep q x [] h = tt
Above-keep q x (y ∷ ys) h = elim (Bool-cases (q y)) [
  | inl e ↦ rw e (h.0, Above-keep q x ys h.1)
  | inr e ↦ rw e (Above-keep q x ys h.1)
]

pub AscRows-keep : (q : JobRow → Bool) (xs : List JobRow) → AscRows xs → AscRows (keep q xs)
AscRows-keep q [] h = tt
AscRows-keep q (x ∷ xs) h = elim (Bool-cases (q x)) [
  | inl e ↦ rw e (Above-keep q x xs h.0, AscRows-keep q xs h.1)
  | inr e ↦ rw e (AscRows-keep q xs h.1)
]

-- The least row goes to the end.
insert_desc-least : (x : JobRow) (xs : List JobRow) → Above x xs → insert_desc x xs ≡ xs ++ x ∷ []
unfolding insert_desc
insert_desc-least x [] h = refl
insert_desc-least x (y ∷ ys) h = ground (arith, h.0, insert_desc-least x ys h.1)

Above-snoc : (x y : JobRow) (xs : List JobRow) → Above x xs → x.seq < y.seq → Above x (xs ++ y ∷ [])
Above-snoc x y xs h lt = All-append (λ (z : JobRow). x.seq < z.seq) xs (y ∷ []) h (lt, tt)

Above-sort_desc : (x : JobRow) (xs : List JobRow) → AscRows xs → Above x xs → Above x (sort_desc xs)
unfolding sort_desc
Above-sort_desc x [] a h = tt
Above-sort_desc x (y ∷ ys) a h =
    rw (insert_desc-least y (sort_desc ys) (Above-sort_desc y ys a.1 a.0))
      (Above-snoc x y (sort_desc ys) (Above-sort_desc x ys a.1 h.1) h.0)

sort_desc-snoc :
    (x : JobRow) (xs : List JobRow) → AscRows (x ∷ xs) → sort_desc (x ∷ xs) ≡ sort_desc xs ++ x ∷ []
unfolding sort_desc
sort_desc-snoc x xs a = insert_desc-least x (sort_desc xs) (Above-sort_desc x xs a.1 a.0)

DescRows-snoc : (x : JobRow) (xs : List JobRow) → Above x xs → DescRows xs → DescRows (xs ++ x ∷ [])
DescRows-snoc x [] a d = (tt, tt)
DescRows-snoc x (y ∷ ys) a d = (
  All-append (λ (z : JobRow). z.seq < y.seq) ys (x ∷ []) d.0 (a.0, tt),
  DescRows-snoc x ys a.1 d.1,
)

pub DescRows-sort_desc : (xs : List JobRow) → AscRows xs → DescRows (sort_desc xs)
unfolding sort_desc
DescRows-sort_desc [] a = tt
DescRows-sort_desc (x ∷ xs) a =
    rw (insert_desc-least x (sort_desc xs) (Above-sort_desc x xs a.1 a.0))
      (DescRows-snoc x (sort_desc xs) (Above-sort_desc x xs a.1 a.0) (DescRows-sort_desc xs a.1))

keep-snoc :
    (q : JobRow → Bool) (xs : List JobRow) (x : JobRow)
    → keep q (xs ++ x ∷ []) ≡ keep q xs ++ (if q x then x ∷ [] else [])
keep-snoc q [] x = ground arith
keep-snoc q (y ∷ ys) x = ground (arith, keep-snoc q ys x)

-- Sorting and filtering commute on ascending rows.
pub sort_desc-keep :
    (q : JobRow → Bool) (xs : List JobRow)
    → AscRows xs
    → sort_desc (keep q xs) ≡ keep q (sort_desc xs)
unfolding sort_desc
sort_desc-keep q [] a = refl
sort_desc-keep q (x ∷ xs) a = elim (Bool-cases (q x)) [
  | inl e ↦ rw e (
      sort_desc-snoc x (keep q xs) (Above-keep q x xs a.0, AscRows-keep q xs a.1)
      ∙ ap (λ l. l ++ x ∷ []) (sort_desc-keep q xs a.1)
      ∙ sym (ap (keep q) (sort_desc-snoc x xs a) ∙ keep-snoc q (sort_desc xs) x ∙ rw e refl))
  | inr e ↦ rw e (
      sort_desc-keep q xs a.1
      ∙ sym (
          ap (keep q) (sort_desc-snoc x xs a) ∙ keep-snoc q (sort_desc xs) x ∙ rw e (append-nil _)))
]

keep_whole :
    (n : ℕ) (xs : List JobRow)
    → All (λ (y : JobRow). y.seq < n) xs
    → keep (λ job. ltb job.seq n) xs ≡ xs
keep_whole n [] h = refl
keep_whole n (x ∷ xs) h = ground (arith, h.0, keep_whole n xs h.1)

pub All-last_take {κ} :
    (P : JobRow → Type κ) (n : ℕ) (xs : List JobRow) {job : JobRow}
    → All P xs
    → last? (take n xs) ≡ some job
    → P job
All-last_take P zero xs h e = absurd (cc)
All-last_take P (suc n) [] h e = absurd (cc)
All-last_take P (suc zero) (x ∷ xs) h e = subst P (some-injective _ _ e) h.0
All-last_take P (suc (suc n)) (x ∷ []) h e = subst P (some-injective _ _ e) h.0
All-last_take P (suc (suc n)) (x ∷ y ∷ ys) h e = All-last_take P (suc n) (y ∷ ys) h.1 e

-- On descending rows the ones below the last of a page are those behind the page.
pub keep-below_page :
    (n : ℕ) (xs : List JobRow) {job : JobRow}
    → DescRows xs
    → last? (take n xs) ≡ some job
    → keep (λ j. ltb j.seq job.seq) xs ≡ drop n xs
keep-below_page zero xs d e = absurd (cc)
keep-below_page (suc n) [] d e = absurd (cc)
keep-below_page (suc zero) (x ∷ xs) {job} d e =
    subst (λ (j : JobRow). keep (λ i. ltb i.seq j.seq) (x ∷ xs) ≡ xs) (some-injective _ _ e)
      (ground (arith, keep_whole x.seq xs d.0))
keep-below_page (suc (suc n)) (x ∷ []) {job} d e =
    subst (λ (j : JobRow). keep (λ i. ltb i.seq j.seq) (x ∷ []) ≡ []) (some-injective _ _ e)
      (ground arith)
keep-below_page (suc (suc n)) (x ∷ y ∷ ys) {job} d e =
    let lt = All-last_take (λ (z : JobRow). z.seq < x.seq) (suc n) (y ∷ ys) d.0 e in
    let rest = keep-below_page (suc n) (y ∷ ys) d.1 e in ground (arith, lt, rest)
