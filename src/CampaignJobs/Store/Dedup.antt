-- ===== src/CampaignJobs/Store/Dedup.antt =====
-- Dedup on create: which items of a new job are inserted as `duplicate_active`.
use aggregator_dpg.Prelude.{
  inr, inl, option_eq→eq, &&→right, &&→left, Bool-cases, Option-cases, none, eq_iff, true,
  option_eq, some, String, Bool, false, List, [], ◌∷◌, ◌++◌, ◌≡◌, refl, sym, ap, ◌∙◌, arith, ◌=ₛ◌,
  ◌&&◌, ◌||◌, if◌then◌else◌, any, keep, has_text,
}
use aggregator_dpg.Prelude.JsMap
use aggregator_dpg.Prelude.JsMap.{JsMap}
use aggregator_dpg.CampaignJobs.Types.{
  active_dedup_item_statuses, includes_item, pending, duplicate_active, CreateJobItemInput, ItemRow,
}
use aggregator_dpg.CampaignJobs.Store.Create.{
  is_some, has_action, matches_pair, is_active_pair, add_active, add_all_active, active_dedup_ids,
  new_item,
}

-- Whether a row of any job has the item id and is active under one of the pairs.
abbrev pub blocks : List CreateJobItemInput → String → ItemRow → Bool
blocks pairs item_id row = is_active_pair pairs row && row.item_id =ₛ item_id

abbrev pub blocked : List CreateJobItemInput → String → List (List ItemRow) → Bool
blocked pairs item_id tables = any (λ rows. any (blocks pairs item_id) rows) tables

has_text-add_active :
    (pairs : List CreateJobItemInput) (item_id : String) (rows : List ItemRow) (dup : List String)
    → has_text item_id (add_active pairs rows dup)
      ≡ (any (blocks pairs item_id) rows || has_text item_id dup)
unfolding add_active
has_text-add_active pairs item_id [] dup = refl
has_text-add_active pairs item_id (row ∷ rows) dup =
    has_text-add_active pairs item_id rows
      (if is_active_pair pairs row then row.item_id ∷ dup else dup)
    ∙ ground arith

has_text-add_all_active :
    (pairs : List CreateJobItemInput) (item_id : String) (tables : List (List ItemRow))
    (dup : List String)
    → has_text item_id (add_all_active pairs tables dup)
      ≡ (blocked pairs item_id tables || has_text item_id dup)
unfolding add_all_active
has_text-add_all_active pairs item_id [] dup = refl
has_text-add_all_active pairs item_id (rows ∷ tables) dup =
    has_text-add_all_active pairs item_id tables (add_active pairs rows dup)
    ∙ ground (arith, has_text-add_active pairs item_id rows dup)

-- With no pair to match no row is active.
not_active : (row : ItemRow) → is_active_pair [] row ≡ false
unfolding is_active_pair matches_pair
not_active row = ground arith

not_active_at : (item_id : String) (row : ItemRow) → blocks [] item_id row ≡ false
not_active_at item_id row = rw (not_active row) refl

none_block : (item_id : String) (rows : List ItemRow) → any (blocks [] item_id) rows ≡ false
none_block item_id [] = refl
none_block item_id (row ∷ rows) = ground (arith, not_active row, none_block item_id rows)

none_blocked : (item_id : String) (tables : List (List ItemRow)) → blocked [] item_id tables ≡ false
none_blocked item_id [] = refl
none_blocked item_id (rows ∷ tables) =
    ground (arith, none_block item_id rows, none_blocked item_id tables)

module _ (items : JsMap (List ItemRow)) (inputs : List CreateJobItemInput) where
  has_text-active_dedup_ids :
      (item_id : String)
      → has_text item_id (active_dedup_ids items inputs)
        ≡ blocked (keep has_action inputs) item_id (JsMap.values items)
  unfolding active_dedup_ids
  has_text-active_dedup_ids item_id = go (keep has_action inputs) refl
    where
      go :
          (pairs : List CreateJobItemInput)
          → keep has_action inputs ≡ pairs
          → has_text item_id (active_dedup_ids items inputs)
            ≡ blocked (keep has_action inputs) item_id (JsMap.values items)
      go [] e = rw e (sym (none_blocked item_id (JsMap.values items)))
      go (p ∷ ps) e =
          rw e (ground (arith, has_text-add_all_active (p ∷ ps) item_id (JsMap.values items) []))

  status-blocked :
      (i : CreateJobItemInput)
      → (new_item (active_dedup_ids items inputs) i).status ≡ (
          if has_action i && blocked (keep has_action inputs) i.item_id (JsMap.values items)
          then duplicate_active
          else pending)
  unfolding new_item
  status-blocked i =
      ap (λ b. if has_action i && b then duplicate_active else pending)
        (has_text-active_dedup_ids i.item_id)

-- A row that is active under exactly the item and the action.
abbrev pub is_active_as : String → String → ItemRow → Bool
is_active_as item_id action row =
    row.item_id =ₛ item_id
    && option_eq row.action (some action)
    && includes_item active_dedup_item_statuses row.status

-- The row is active under the action that `j` asks for on the item.
abbrev pub repeats : CreateJobItemInput → String → ItemRow → Bool
repeats j item_id row =
    j.item_id =ₛ item_id
    && elim j.action [ none ↦ false | some action ↦ is_active_as item_id action row ]

-- Some input of a request on the item asks for an action that some row is active under.
abbrev pub asked_again : List CreateJobItemInput → String → List (List ItemRow) → Bool
asked_again inputs item_id tables =
    any (λ j. any (λ rows. any (repeats j item_id) rows) tables) inputs

same_item_trans :
    (i row item : String) → ((i =ₛ item) && (row =ₛ item)) ≡ ((i =ₛ row) && (row =ₛ item))
same_item_trans i row item = ground (arith, eq_iff i row, eq_iff row item, eq_iff i item)

text-sym : (a b : String) → (a =ₛ b) ≡ (b =ₛ a)
text-sym a b = ground (arith, eq_iff a b, eq_iff b a)

-- An input adds nothing to the rest where it has no action, or the row has none.
skip_silent : (i x r : Bool) → x ≡ r → x ≡ (if i && false then true else r)
skip_silent true x r h = h
skip_silent false x r h = h

skip_idle : (i s l r : Bool) → false ≡ r → false ≡ (if i && ((s && false) && l) then true else r)
skip_idle true true l r h = h
skip_idle true false l r h = h
skip_idle false s l r h = h

add_one :
    (l s i p o more r : Bool)
    → (i && s) ≡ (p && s)
    → ((l && more) && s) ≡ r
    → ((l && (if p && o then true else more)) && s) ≡ (if i && ((s && o) && l) then true else r)
add_one true true i p o more r e h = ground arith
add_one true false i p o more r e h = ground arith
add_one false s i p o more r e h = ground arith

blocks-repeats :
    (inputs : List CreateJobItemInput) (item_id : String) (row : ItemRow)
    → blocks (keep has_action inputs) item_id row ≡ any (λ j. repeats j item_id row) inputs
unfolding is_active_pair matches_pair
blocks-repeats [] item_id row = not_active_at item_id row
blocks-repeats (j ∷ inputs) item_id row =
    let rest = blocks-repeats inputs item_id row in
    elim (Option-cases j.action) [
      | inl silent ↦ rw silent (skip_silent (j.item_id =ₛ item_id) _ _ rest)
      | inr (a, acts) ↦ elim (Option-cases row.action) [
        | inl idle ↦
            rw (acts, idle)
              (skip_idle (j.item_id =ₛ item_id) (row.item_id =ₛ item_id) _ _ (rw idle at rest))
        | inr (b, set) ↦
            let named : is_some row.action ≡ true = rw set refl in
            rw (acts, set, text-sym b a)
              (add_one _ (row.item_id =ₛ item_id) (j.item_id =ₛ item_id) (j.item_id =ₛ row.item_id)
                (a =ₛ b) _ _ (same_item_trans j.item_id row.item_id item_id) (rw named at rest))
      ]
    ]

module _ {ℓ} {A : Type ℓ} where
  any-false : (xs : List A) → any (λ x. false) xs ≡ false
  any-false [] = refl
  any-false (x ∷ xs) = any-false xs

  any-or :
      (p q : A → Bool) (xs : List A)
      → any (λ x. if p x then true else q x) xs ≡ (if any p xs then true else any q xs)
  any-or p q [] = refl
  any-or p q (x ∷ xs) = ground (arith, any-or p q xs)

module _ {ℓ} {A B : Type ℓ} where
  any-swap :
      (f : A → B → Bool) (xs : List A) (ys : List B)
      → any (λ x. any (f x) ys) xs ≡ any (λ y. any (λ x. f x y) xs) ys
  any-swap f xs [] = any-false xs
  any-swap f xs (y ∷ ys) =
      any-or (λ x. f x y) (λ x. any (f x) ys) xs
      ∙ ap (λ b. if any (λ x. f x y) xs then true else b) (any-swap f xs ys)

module _ {ℓ} {A : Type ℓ} where
  any-cong : (p q : A → Bool) → ((x : A) → p x ≡ q x) → (xs : List A) → any p xs ≡ any q xs
  any-cong p q same [] = refl
  any-cong p q same (x ∷ xs) = rw (same x, any-cong p q same xs) refl

blocked-asked_again :
    (inputs : List CreateJobItemInput) (item_id : String) (tables : List (List ItemRow))
    → blocked (keep has_action inputs) item_id tables ≡ asked_again inputs item_id tables
blocked-asked_again inputs item_id tables =
    any-cong _ (λ rows. any (λ j. any (repeats j item_id) rows) inputs)
      (λ rows.
        any-cong _ (λ row. any (λ j. repeats j item_id row) inputs) (blocks-repeats inputs item_id)
          rows
        ∙ sym (any-swap (λ j row. repeats j item_id row) inputs rows))
      tables
    ∙ sym (any-swap (λ j rows. any (repeats j item_id) rows) inputs tables)

-- The status of a new item: an item with an action is a duplicate exactly when the request asks,
-- for that item id, for an action that a row of some job is active under; an item with no action
-- never is.
pub status-new_item :
    (items : JsMap (List ItemRow)) (inputs : List CreateJobItemInput) (i : CreateJobItemInput)
    → (new_item (active_dedup_ids items inputs) i).status ≡ (
        if has_action i && asked_again inputs i.item_id (JsMap.values items)
        then duplicate_active
        else pending)
status-new_item items inputs i =
    status-blocked items inputs i
    ∙ ap (λ b. if has_action i && b then duplicate_active else pending)
        (blocked-asked_again inputs i.item_id (JsMap.values items))

module _ (before after : List CreateJobItemInput) (i : CreateJobItemInput) (action : String)
    (acts : i.action ≡ some action) where
  matches_pair-of_mem :
      (row : ItemRow) (more : List CreateJobItemInput)
      → row.item_id ≡ i.item_id
      → row.action ≡ some action
      → matches_pair (keep has_action (more ++ i ∷ after)) row ≡ true
  unfolding matches_pair
  matches_pair-of_mem row [] same act =
      ground (arith, eq_iff i.item_id row.item_id, eq_iff action action)
  matches_pair-of_mem row (x ∷ more) same act = ground (arith, matches_pair-of_mem row more)

  blocks-of_active :
      (row : ItemRow)
      → is_active_as i.item_id action row ≡ true
      → blocks (keep has_action (before ++ i ∷ after)) i.item_id row ≡ true
  unfolding is_active_pair
  blocks-of_active row h =
      let both = &&→left (row.item_id =ₛ i.item_id && option_eq row.action (some action)) _ h in
      let same : row.item_id ≡ i.item_id =
        (eq_iff row.item_id i.item_id).0 (&&→left (row.item_id =ₛ i.item_id) _ both) in
      let act : row.action ≡ some action =
        option_eq→eq row.action (some action) (&&→right (row.item_id =ₛ i.item_id) _ both) in
      let live = &&→right (row.item_id =ₛ i.item_id && option_eq row.action (some action)) _ h in
      let matched = matches_pair-of_mem row before same act in ground (arith, live, matched)

  any-blocks :
      (rows : List ItemRow)
      → any (is_active_as i.item_id action) rows ≡ true
      → any (blocks (keep has_action (before ++ i ∷ after)) i.item_id) rows ≡ true
  any-blocks [] h = h
  any-blocks (row ∷ rows) h = elim (Bool-cases (is_active_as i.item_id action row)) [
    | inl e ↦ rw (blocks-of_active row e) refl
    | inr e ↦ ground (arith, any-blocks rows)
  ]

  blocked-of_active :
      (tables : List (List ItemRow))
      → any (λ rows. any (is_active_as i.item_id action) rows) tables ≡ true
      → blocked (keep has_action (before ++ i ∷ after)) i.item_id tables ≡ true
  blocked-of_active [] h = h
  blocked-of_active (rows ∷ tables) h =
      elim (Bool-cases (any (is_active_as i.item_id action) rows)) [
        | inl e ↦ rw (any-blocks rows e) refl
        | inr e ↦ ground (arith, blocked-of_active tables)
      ]

  -- An item of the request whose (item, action) pair is active in some job is not set to work
  -- again: it is inserted as `duplicate_active`.
  pub new_item-duplicate :
      (items : JsMap (List ItemRow))
      → any (λ rows. any (is_active_as i.item_id action) rows) (JsMap.values items) ≡ true
      → (new_item (active_dedup_ids items (before ++ i ∷ after)) i).status ≡ duplicate_active
  new_item-duplicate items h =
      status-blocked items (before ++ i ∷ after) i
      ∙ rw (blocked-of_active (JsMap.values items) h) (rw acts refl)

-- The set holds item ids and no actions: where an item stands twice in a request, under an action
-- that is active elsewhere and under another, the second is inserted as `duplicate_active` too,
-- whether or not its own pair is active.
pub new_item-duplicate_other_action :
    (items : JsMap (List ItemRow)) (before after : List CreateJobItemInput)
    (i j : CreateJobItemInput) (active other : String)
    → i.action ≡ some active
    → j.action ≡ some other
    → j.item_id ≡ i.item_id
    → any (λ rows. any (is_active_as i.item_id active) rows) (JsMap.values items) ≡ true
    → (new_item (active_dedup_ids items (before ++ i ∷ after)) j).status ≡ duplicate_active
new_item-duplicate_other_action items before after i j active other acts_i acts_j same h =
    status-blocked items (before ++ i ∷ after) j
    ∙ rw same (
        rw (blocked-of_active before after i active acts_i (JsMap.values items) h) (rw acts_j refl))
