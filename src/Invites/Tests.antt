-- ===== src/Invites/Tests.antt =====
-- The theorems on the invites store at concrete calls.
use aggregator_dpg.Prelude.{String, ◌≡◌, refl, ◌≢◌, none, some, text_ne}
use aggregator_dpg.Prelude.JsMap
use aggregator_dpg.Prelude.Result.{ok}
use aggregator_dpg.Invites.{
  pending, consumed, RegistrationInvite, CreateInviteInput, Store, empty, create, consume, release,
}
use aggregator_dpg.Invites.Unique.{
  IsUnique, IsUnique-empty, Step, creates, consumes, Reach, here, next, Reach-IsUnique,
  release-not-IsUnique,
}
use aggregator_dpg.Invites.Lifecycle.{IsNumbered, IsNumbered-empty, Reach-IsNumbered, consume_once}
use aggregator_dpg.Invites.Moves.{releases, Moves, Call-Moves}

abbrev ann : CreateInviteInput
ann = record {
  parent_org_id = "org";
  email = "ann@x";
  expires_at = 50;
  created_by = "owner";
  role = none;
}

abbrev invited : Store
invited = (create ann 1 empty).1

abbrev claimed_store : Store
claimed_store = (consume "invite-1" 2 invited).1

abbrev invited_again : Store
invited_again = (create ann 3 claimed_store).1

abbrev first_call : Step empty invited
first_call = creates ann 1 refl

calls : Reach empty invited_again
calls = next (next (next here first_call) (consumes "invite-1" 2 refl)) (creates ann 3 refl)

Reach-IsUnique_example : IsUnique invited_again
Reach-IsUnique_example = Reach-IsUnique IsUnique-empty calls

abbrev first_invite : RegistrationInvite
first_invite = record {
  jti = "invite-1";
  role = "coordinator";
  parent_org_id = "org";
  email = "ann@x";
  status = consumed;
  expires_at = 50;
  created_by = "owner";
  created_at = 1;
  consumed_at = some 2;
}

abbrev second_invite : RegistrationInvite
second_invite = record first_invite {
  jti = "invite-2";
  status = pending;
  created_at = 3;
  consumed_at = none;
}

won : (consume "invite-1" 2 invited).0 ≡ ok (some first_invite)
unfolding create consume JsMap.get JsMap.set JsMap.values
won = refl

invited-IsNumbered : IsNumbered invited
invited-IsNumbered = Reach-IsNumbered IsNumbered-empty (next here first_call)

consume_once_example : consume "invite-1" 9 invited_again ≡ (ok none, invited_again)
consume_once_example =
    consume_once "invite-1" 2 9 invited invited_again first_invite invited-IsNumbered won
      (next here (creates ann 3 refl))

claimed_at : JsMap.get claimed_store.store "invite-1" ≡ some first_invite
unfolding create consume JsMap.get JsMap.set JsMap.values
claimed_at = refl

claimed-IsNumbered : IsNumbered claimed_store
claimed-IsNumbered =
    Reach-IsNumbered IsNumbered-empty (next (next here first_call) (consumes "invite-1" 2 refl))

Call-Moves_example :
    (after : RegistrationInvite) × (JsMap.get (release "invite-1" claimed_store).1.store "invite-1"
      ≡ some after)
    × Moves first_invite after
Call-Moves_example =
    Call-Moves "invite-1" first_invite claimed-IsNumbered (releases "invite-1" refl) claimed_at

at_1 : JsMap.get invited_again.store "invite-1" ≡ some first_invite
unfolding create consume JsMap.get JsMap.set JsMap.values
at_1 = refl

at_2 : JsMap.get invited_again.store "invite-2" ≡ some second_invite
unfolding create consume JsMap.get JsMap.set JsMap.values
at_2 = refl

apart : ◌≢◌ {A = String} "invite-1" "invite-2"
apart = text_ne "invite-1" "invite-2" refl

release-not-IsUnique_example : ¬ IsUnique (release "invite-1" invited_again).1
release-not-IsUnique_example =
    release-not-IsUnique invited_again "invite-1" "invite-2" first_invite second_invite at_1 at_2
      apart refl refl refl refl
