-- ===== src/Sessions/Tests.antt =====
-- The theorems on the session store at concrete sessions.
use aggregator_dpg.Prelude.{ℕ, String, ◌≡◌, refl, ◌≢◌, none, some, text_ne, List, [], ◌∷◌}
use aggregator_dpg.Prelude.JsMap
use aggregator_dpg.Sessions.{SessionData, SessionPatch, Store, new_store, create, get}
use aggregator_dpg.Sessions.Live.{Call, gets, updates, creates, run, run-others}
use aggregator_dpg.Sessions.Deadline.{deadline_after}

abbrev ann : SessionData
ann = record {
  sub = "ann";
  email = none;
  phone = none;
  name = none;
  access_token = "a";
  refresh_token = "r";
  id_token = "i";
  access_token_exp = 1;
  refresh_token_exp = 2;
  created_at = 0;
  last_seen_at = 0;
}

abbrev nothing : SessionPatch
nothing = record {
  sub = none;
  email = none;
  phone = none;
  name = none;
  access_token = none;
  refresh_token = none;
  id_token = none;
  access_token_exp = none;
  refresh_token_exp = none;
  created_at = none;
}

abbrev start : Store
start = (create ann "s1" 1000 (new_store (some 60))).1

-- A session of a minute that is read in time, is updated after its end, and then is read too late.
abbrev calls : List (Call × ℕ)
calls =
    (gets "s1", 60000)
    ∷ (creates ann "s2", 70000)
    ∷ (updates "s1" nothing, 130000)
    ∷ (gets "s1", 190001)
    ∷ (updates "s1" nothing, 190002)
    ∷ []

calls-deadline : deadline_after "s1" 60000 calls (some 61000) ≡ none
calls-deadline = refl

other : ◌≢◌ {A = String} "s1" "s2"
other = text_ne "s1" "s2" refl

run-others_example : JsMap.get (run (gets "s2") 5 start).store "s1" ≡ JsMap.get start.store "s1"
run-others_example = run-others (gets "s2") 5 start "s1" other
