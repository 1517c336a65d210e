-- ===== src/Aggregators/Listing.antt =====
-- `list` of `InMemoryAggregatorStore`: apps/api/src/services/aggregator-store/memory.ts.
pub mod Pages
use aggregator_dpg.Prelude.{
  ℕ, Bool, true, Option, none, some, List, [], ◌∷◌, ltb, leb, if◌then◌else◌, length, take, drop,
  keep,
}
use aggregator_dpg.Prelude.JsMap
use aggregator_dpg.Prelude.Result.{ok}
use aggregator_dpg.Primitives.Aggregator.{AggregatorStatus, ActorType, status_eq, actor_eq}
use aggregator_dpg.Aggregators.{
  Aggregator, ℤ, pos, negsuc, ListAggregatorsFilter, ListAggregatorsPage, StoreResult, Store,
}

-- `Math.max(1, Math.min(1000, filter.limit ?? 50))`
unfoldable pub limit_of : Option ℤ → ℕ
limit_of none = 50
limit_of (some (negsuc n)) = 1
limit_of (some (pos n)) = if ltb n 1 then 1 else if ltb 1000 n then 1000 else n

-- `Math.max(0, filter.offset ?? 0)`
unfoldable pub offset_of : Option ℤ → ℕ
offset_of none = 0
offset_of (some (negsuc n)) = 0
offset_of (some (pos n)) = n

abbrev pub with_status : Option AggregatorStatus → Aggregator → Bool
with_status none r = true
with_status (some status) r = status_eq r.status status

abbrev pub with_actor : Option ActorType → Aggregator → Bool
with_actor none r = true
with_actor (some actor) r = actor_eq r.actor_type actor

-- A zero `Date` is an object, so it counts as given.
abbrev pub updated_before : Option ℕ → Aggregator → Bool
updated_before none r = true
updated_before (some before) r = ltb r.updated_at before

-- `rows.sort((a, b) => b.createdAt.getTime() - a.createdAt.getTime())`, which is stable.
unfoldable pub insert_newest : Aggregator → List Aggregator → List Aggregator
insert_newest r [] = r ∷ []
insert_newest r (x ∷ xs) =
    let rest = insert_newest r xs in if leb x.created_at r.created_at then r ∷ x ∷ xs else x ∷ rest

unfoldable pub sort_newest : List Aggregator → List Aggregator
unfolding insert_newest
sort_newest [] = []
sort_newest (x ∷ xs) = insert_newest x (sort_newest xs)

unfoldable pub matching : ListAggregatorsFilter → Store → List Aggregator
unfolding sort_newest JsMap.values
matching filter s = sort_newest (
    keep (updated_before filter.updated_before) (
      keep (with_actor filter.actor_type)
        (keep (with_status filter.status) (JsMap.values s.by_id))))

unfoldable pub list : ListAggregatorsFilter → Store → StoreResult ListAggregatorsPage
unfolding matching limit_of offset_of
list filter s =
    let rows = matching filter s in
    ok (record {
      rows = take (limit_of filter.limit) (drop (offset_of filter.offset) rows);
      total = length rows;
    })
