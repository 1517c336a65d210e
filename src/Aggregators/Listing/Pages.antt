-- ===== src/Aggregators/Listing/Pages.antt =====
-- Walking the pages of `list` of the aggregator store.
use mathlib.Core.Path.{subst}
use mathlib.Core.List.{Perm}
use mathlib.Core.List.Perm
use aggregator_dpg.Prelude.{
  ℕ, zero, suc, ◌+◌, ◌*◌, ◌≤◌, ◌<◌, ◌≡◌, refl, sym, ap, ◌∙◌, inl, inr, false, some, List, [], ◌∷◌,
  ◌++◌, arith, ltb, leb, Bool-cases, length, take, take_all, drop, keep, All,
}
use aggregator_dpg.Prelude.JsMap
use aggregator_dpg.Prelude.Result.{ok, err}
use aggregator_dpg.Aggregators.{
  Aggregator, pos, ListAggregatorsFilter, ListAggregatorsPage, StoreResult, Store,
}
use aggregator_dpg.Aggregators.Listing.{
  limit_of, offset_of, with_status, with_actor, updated_before, insert_newest, sort_newest,
  matching, list,
}

-- No row of the list is newer than `x`.
abbrev pub NoNewer : Aggregator → List Aggregator → Type 0
NoNewer x xs = All (λ (y : Aggregator). y.created_at ≤ x.created_at) xs

abbrev pub NewestFirst : List Aggregator → Type 0
NewestFirst [] = Unit
NewestFirst (x ∷ xs) = NoNewer x xs × NewestFirst xs

NoNewer-insert :
    (x r : Aggregator) (xs : List Aggregator)
    → r.created_at ≤ x.created_at
    → NoNewer x xs
    → NoNewer x (insert_newest r xs)
unfolding insert_newest
NoNewer-insert x r [] le h = (le, tt)
NoNewer-insert x r (y ∷ ys) le h = elim (Bool-cases (leb y.created_at r.created_at)) [
  | inl e ↦ rw e (le, h)
  | inr e ↦ rw e (h.0, NoNewer-insert x r ys le h.1)
]

NoNewer-below :
    (x y : Aggregator) (xs : List Aggregator)
    → x.created_at ≤ y.created_at
    → NoNewer x xs
    → NoNewer y xs
NoNewer-below x y [] le h = tt
NoNewer-below x y (z ∷ zs) le h = (omega (arith, h.0, le), NoNewer-below x y zs le h.1)

NewestFirst-insert :
    (r : Aggregator) (xs : List Aggregator) → NewestFirst xs → NewestFirst (insert_newest r xs)
unfolding insert_newest
NewestFirst-insert r [] h = (tt, tt)
NewestFirst-insert r (x ∷ xs) h = elim (Bool-cases (leb x.created_at r.created_at)) [
  | inl e ↦ rw e ((ground arith, NoNewer-below x r xs (ground arith) h.0), h)
  | inr e ↦ rw e (NoNewer-insert x r xs (ground arith) h.0, NewestFirst-insert r xs h.1)
]

NewestFirst-sort : (xs : List Aggregator) → NewestFirst (sort_newest xs)
unfolding sort_newest
NewestFirst-sort [] = tt
NewestFirst-sort (x ∷ xs) = NewestFirst-insert x (sort_newest xs) (NewestFirst-sort xs)

insert-Perm : (r : Aggregator) (xs : List Aggregator) → Perm (insert_newest r xs) (r ∷ xs)
unfolding insert_newest
insert-Perm r [] = Perm.refl _
insert-Perm r (x ∷ xs) = elim (Bool-cases (leb x.created_at r.created_at)) [
  | inl e ↦ rw e (Perm.refl _)
  | inr e ↦ rw e (Perm.trans (Perm.cons x (insert-Perm r xs)) (Perm.swap r x xs))
]

sort-Perm : (xs : List Aggregator) → Perm (sort_newest xs) xs
unfolding sort_newest
sort-Perm [] = Perm.nil
sort-Perm (x ∷ xs) = Perm.trans (insert-Perm x (sort_newest xs)) (Perm.cons x (sort-Perm xs))

take_none {ℓ} : {A : Type ℓ} (n : ℕ) → take {A = A} n [] ≡ []
take_none zero = refl
take_none (suc n) = refl

take-plus {ℓ} :
    {A : Type ℓ} (a b : ℕ) (xs : List A) → take (a + b) xs ≡ take a xs ++ take b (drop a xs)
take-plus zero b xs = ap (λ k. take k xs) (omega arith)
take-plus (suc a) b [] = take_none (suc a + b) ∙ sym (take_none b)
take-plus (suc a) b (x ∷ xs) =
    let shift : suc a + b ≡ suc (a + b) = omega arith in
    ap (λ k. take k (x ∷ xs)) shift ∙ ap (λ ys. x ∷ ys) (take-plus a b xs)

drop_none {ℓ} : {A : Type ℓ} (n : ℕ) → drop {A = A} n [] ≡ []
drop_none zero = refl
drop_none (suc n) = refl

drop-plus {ℓ} : {A : Type ℓ} (a b : ℕ) (xs : List A) → drop (a + b) xs ≡ drop b (drop a xs)
drop-plus zero b xs = ap (λ k. drop k xs) (omega arith)
drop-plus (suc a) b [] = drop_none (suc a + b) ∙ sym (drop_none b)
drop-plus (suc a) b (x ∷ xs) =
    let shift : suc a + b ≡ suc (a + b) = omega arith in
    ap (λ k. drop k (x ∷ xs)) shift ∙ drop-plus a b xs

-- The rows that pass the filter, in the order of the map.
abbrev pub passing : ListAggregatorsFilter → Store → List Aggregator
passing filter s =
    keep (updated_before filter.updated_before) (
      keep (with_actor filter.actor_type) (keep (with_status filter.status) (JsMap.values s.by_id)))

abbrev pub rows_of : StoreResult ListAggregatorsPage → List Aggregator
rows_of (ok page) = page.rows
rows_of (err e) = []

module _ (filter : ListAggregatorsFilter) (limit : ℕ) (s : Store) where
  abbrev pub page_at : ℕ → ListAggregatorsFilter
  page_at offset = record filter { limit = some (pos limit); offset = some (pos offset) }

  -- The rows of so many pages, one after the other, from an offset.
  abbrev pub walk : ℕ → ℕ → List Aggregator
  walk zero offset = []
  walk (suc n) offset = rows_of (list (page_at offset) s) ++ walk n (offset + limit)

  page_rows :
      (offset : ℕ)
      → 0 < limit
      → limit ≤ 1000
      → rows_of (list (page_at offset) s) ≡ take limit (drop offset (matching filter s))
  unfolding list limit_of offset_of matching
  page_rows offset low high =
      let first : ltb limit 1 ≡ false = ground arith in
      let last : ltb 1000 limit ≡ false = ground arith in rw first (rw last refl)

  walk_rows :
      (n offset : ℕ)
      → 0 < limit
      → limit ≤ 1000
      → walk n offset ≡ take (n * limit) (drop offset (matching filter s))
  walk_rows zero offset low high =
      let none_left : 0 ≡ 0 * limit = omega arith in
      ap (λ k. take k (drop offset (matching filter s))) none_left
  walk_rows (suc n) offset low high =
      let rows = matching filter s in
      let more : limit + n * limit ≡ suc n * limit = omega arith in
      rw (page_rows offset low high) (
        ap (λ ys. take limit (drop offset rows) ++ ys)
          (walk_rows n (offset + limit) low high
            ∙ ap (take (n * limit)) (drop-plus offset limit rows))
        ∙ sym (take-plus limit (n * limit) (drop offset rows))
        ∙ ap (λ k. take k (drop offset rows)) more)

  -- A walk over enough pages of 1 to 1000 rows returns each row that passes the filter once, the
  -- newest first.
  pub list-pages :
      (n : ℕ)
      → 0 < limit
      → limit ≤ 1000
      → length (matching filter s) ≤ n * limit
      → Perm (walk n 0) (passing filter s) × NewestFirst (walk n 0)
  unfolding matching
  list-pages n low high enough =
      let all : walk n 0 ≡ matching filter s =
        walk_rows n 0 low high ∙ take_all (n * limit) (matching filter s) enough in
      (
        subst (λ xs. Perm xs (passing filter s)) (sym all) (sort-Perm (passing filter s)),
        subst NewestFirst (sym all) (NewestFirst-sort (passing filter s)),
      )
