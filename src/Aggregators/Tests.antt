-- ===== src/Aggregators/Tests.antt =====
-- The theorems on the aggregator store at concrete calls.
use mathlib.Core.List.{Perm}
use aggregator_dpg.Prelude.{
  ◌*◌, ◌≤◌, String, ◌≡◌, refl, ◌≢◌, ◌↔◌, none, some, [], arith, length, text_ne,
}
use aggregator_dpg.Prelude.Json.{null, obj, end}
use aggregator_dpg.Prelude.JsMap
use aggregator_dpg.Prelude.Result.{ok}
use aggregator_dpg.Primitives.Aggregator.{pending, seeker}
use aggregator_dpg.Primitives.Contact.{
  Platform, contact_id, normalise_email, is_canonical, all_digits,
}
use aggregator_dpg.Primitives.Phone.{size}
use aggregator_dpg.Aggregators.{
  BecknContact, Aggregator, CreateAggregatorInput, UpdateAggregatorPatch, ListAggregatorsFilter,
  Store, empty,
}
use aggregator_dpg.Aggregators.Methods.{
  create, update, approve_from_pending, find_by_slug, find_by_contact_phone, find_by_contact_email,
  safe_contact_id,
}
use aggregator_dpg.Aggregators.Indices.Keeps.{Reach-IsConsistent}
use aggregator_dpg.Aggregators.Indices.{
  IsConsistent, IsConsistent-empty, creates, updates, Reach, here, next, slug_of, phone_of,
  email_of,
}
use aggregator_dpg.Aggregators.Find.{Finds, lookups_iff}
use aggregator_dpg.Aggregators.Approval.{approved, approve_once}
use aggregator_dpg.Aggregators.Listing.{matching}
use aggregator_dpg.Aggregators.Listing.Pages.{walk, passing, NewestFirst, list-pages}

abbrev platform : Platform
platform = record { trim = λ s. s; to_lower_case = λ s. s; sha256_hex = λ s. s }

abbrev contact : BecknContact
contact = record {
  name = "Ann";
  phone = "+911234567890";
  email = "ann@x";
  alternate_phone = none;
  company = none;
  gst_number = none;
}

abbrev input : CreateAggregatorInput
input = record {
  org_slug = "acme";
  actor_type = seeker;
  name = "Acme";
  role = some "seeker";
  url = none;
  contact = contact;
  locations = none;
  consent = null;
  created_by = "u";
  updated_by = "u";
  parent_org_id = none;
  invite_email = none;
  profile = none;
  profile_ref = none;
}

abbrev one : Store
one = (create platform input "a" 1 empty).1

abbrev moved : UpdateAggregatorPatch
moved = record {
  name = none;
  role = none;
  url = none;
  contact = some (record contact { phone = "+919876543210" });
  locations = none;
  status = none;
  parent_org_id = none;
  rejected_at = none;
  updated_by = "u";
}

abbrev after_move : Store
after_move = (update platform "a" moved 2 one).1

given : ◌≢◌ {A = String} "a" ""
given = text_ne "a" "" refl

no_row : JsMap.get empty.by_id "a" ≡ none
unfolding JsMap.get
no_row = refl

first_call : Reach platform empty one
first_call = next here (creates input "a" 1 given no_row refl)

Reach-IsConsistent_example : IsConsistent after_move
Reach-IsConsistent_example =
    Reach-IsConsistent platform IsConsistent-empty (next first_call (updates "a" moved 2 refl))

abbrev row : Aggregator
row = record {
  id = "a";
  org_slug = "acme";
  actor_type = seeker;
  name = "Acme";
  role = some "seeker";
  url = none;
  contact_id = "ann@x:+911234567890";
  contact = contact;
  contact_phone = "+911234567890";
  contact_email = "ann@x";
  locations = [];
  consent = null;
  profile = obj end;
  profile_ref = none;
  status = pending;
  created_by = "u";
  updated_by = "u";
  created_at = 1;
  updated_at = 1;
  signalstack_org_id = none;
  parent_org_id = none;
  invite_email = none;
  rejected_at = none;
}

one-IsConsistent : IsConsistent one
one-IsConsistent = Reach-IsConsistent platform IsConsistent-empty first_call

lookups_iff_example :
    ((find_by_slug "acme" one ≡ ok (some row)) ↔ Finds slug_of "acme" row one)
    × ((find_by_contact_phone "acme" one ≡ ok (some row)) ↔ Finds phone_of "acme" row one)
    × ((find_by_contact_email platform "acme" one ≡ ok (some row)) ↔ Finds email_of "acme" row one)
lookups_iff_example = lookups_iff platform "acme" one row one-IsConsistent

usable : safe_contact_id platform "ann@x" "+911234567890" ≡ some "ann@x:+911234567890"
unfolding safe_contact_id contact_id normalise_email is_canonical all_digits size
usable = refl

at_a : JsMap.get one.by_id "a" ≡ some row
unfolding create JsMap.get JsMap.set JsMap.has safe_contact_id
at_a = refl

approve_once_example :
    (approve_from_pending platform "a" "boss" 3 one ≡ (
      ok (some (approved "ann@x:+911234567890" "boss" 3 row)),
      record one { by_id = JsMap.set one.by_id "a" (approved "ann@x:+911234567890" "boss" 3 row) },
    ))
    × (approve_from_pending platform "a" "other" 4
          (approve_from_pending platform "a" "boss" 3 one).1
        ≡ (ok none, (approve_from_pending platform "a" "boss" 3 one).1))
approve_once_example =
    approve_once platform "a" "boss" "other" "ann@x:+911234567890" 3 4 one row one-IsConsistent at_a
      refl usable

abbrev everything : ListAggregatorsFilter
everything = record {
  limit = none;
  offset = none;
  status = some pending;
  actor_type = some seeker;
  updated_before = none;
}

fits : length (matching everything one) ≤ 2 * 1
unfolding matching create JsMap.values
fits = omega arith

list-pages_example :
    Perm (walk everything 1 one 2 0) (passing everything one)
    × NewestFirst (walk everything 1 one 2 0)
list-pages_example = list-pages everything 1 one 2 (omega arith) (omega arith) fits
