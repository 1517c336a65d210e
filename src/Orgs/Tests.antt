-- ===== src/Orgs/Tests.antt =====
-- The theorems on the aggregator-org store at concrete calls.
use aggregator_dpg.Prelude.{String, ◌≡◌, refl, ◌≢◌, none, some, text_ne}
use aggregator_dpg.Prelude.Json.{obj, end}
use aggregator_dpg.Prelude.JsMap
use aggregator_dpg.Prelude.Result.{ok}
use aggregator_dpg.Primitives.Aggregator.{pending, active, inactive}
use aggregator_dpg.Primitives.Contact.{Platform, contact_id, normalise_email}
use aggregator_dpg.Orgs.{
  AggregatorOrg, CreateOrgInput, UpdateOrgPatch, Store, empty, create, update, approve, reject,
}
use aggregator_dpg.Orgs.Unique.{
  IsExclusive, IsExclusive-empty, creates, rejects, Reach, here, next, Reach-IsExclusive,
  update-not-IsExclusive,
}
use aggregator_dpg.Orgs.Decide.{Decision, decide_once}

abbrev platform : Platform
platform = record { trim = λ s. s; to_lower_case = λ s. s; sha256_hex = λ s. s }

abbrev input : CreateOrgInput
input = record {
  slug = "acme";
  display_name = "Acme";
  state = none;
  owner_email = "o@x";
  owner_phone = none;
  owner_name = none;
  owner_kc_sub = none;
  kc_group_id = none;
  profile = none;
  profile_ref = none;
}

abbrev one : Store
one = (create platform input "a" 1 empty).1

abbrev rejected_one : Store
rejected_one = (reject "a" 2 one).1

abbrev two : Store
two = (create platform input "b" 3 rejected_one).1

calls : Reach platform empty two
calls =
    next (next (next here (creates input "a" 1 refl)) (rejects "a" 2 refl))
      (creates input "b" 3 refl)

Reach-IsExclusive_example : IsExclusive platform two
Reach-IsExclusive_example = Reach-IsExclusive platform (IsExclusive-empty platform) calls

abbrev first_org : AggregatorOrg
first_org = record {
  id = "a";
  slug = "acme";
  display_name = "Acme";
  state = none;
  contact_id = "o@x:";
  owner_email = "o@x";
  owner_phone = none;
  owner_name = none;
  owner_kc_sub = none;
  kc_group_id = none;
  profile = obj end;
  profile_ref = none;
  status = pending;
  created_at = 1;
  updated_at = 1;
  rejected_at = none;
}

at_a : JsMap.get one.by_id "a" ≡ some first_org
unfolding create contact_id normalise_email JsMap.get JsMap.set JsMap.values
at_a = refl

decide_once_example :
    (o : AggregatorOrg) × ((reject "a" 2 one).0 ≡ ok (some o))
    × (JsMap.get (reject "a" 2 one).1.by_id "a" ≡ some o)
    × (o.status ≡ inactive)
    × (o.updated_at ≡ 2)
    × (o.rejected_at ≡ some 2)
    × (approve "a" 3 (reject "a" 2 one).1 ≡ (ok none, (reject "a" 2 one).1))
decide_once_example = decide_once Decision.rejects Decision.approves "a" 2 3 one first_org at_a refl

apart : ◌≢◌ {A = String} "a" "b"
apart = text_ne "a" "b" refl

abbrev rejected_org : AggregatorOrg
rejected_org = record first_org { status = inactive; updated_at = 2; rejected_at = some 2 }

abbrev second_org : AggregatorOrg
second_org = record first_org { id = "b"; created_at = 3; updated_at = 3 }

two_a : JsMap.get two.by_id "a" ≡ some rejected_org
unfolding create contact_id normalise_email reject JsMap.get JsMap.set JsMap.values
two_a = refl

two_b : JsMap.get two.by_id "b" ≡ some second_org
unfolding create contact_id normalise_email reject JsMap.get JsMap.set JsMap.values
two_b = refl

abbrev revive : UpdateOrgPatch
revive = record {
  display_name = none;
  state = none;
  owner_kc_sub = none;
  kc_group_id = none;
  status = some active;
  rejected_at = none;
}

update-not-IsExclusive_example : ¬ IsExclusive platform (update "a" revive 5 two).1
update-not-IsExclusive_example =
    update-not-IsExclusive platform two "a" "b" rejected_org second_org revive 5 two_a two_b apart
      refl refl refl
