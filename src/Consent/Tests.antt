-- ===== src/Consent/Tests.antt =====
-- The theorem on the consent ledger at concrete inputs.
use aggregator_dpg.Prelude.{◌≡◌, none, List, [], ◌∷◌, ◌++◌}
use aggregator_dpg.Consent.{RecordConsentInput, org, empty, list}
use aggregator_dpg.Consent.Append.{IsNumbered-empty, after_all, numbered, list-after_all}

abbrev input : RecordConsentInput
input = record {
  subject_type = org;
  subject_id = "o1";
  network = "blue_dot";
  brand = none;
  terms_version = 1;
  privacy_version = 2;
  source = none;
}

abbrev both : List RecordConsentInput
both = input ∷ record input { subject_id = "o2" } ∷ []

list-after_all_example : list (after_all both empty) ≡ list empty ++ numbered both 1
list-after_all_example = list-after_all both empty IsNumbered-empty
