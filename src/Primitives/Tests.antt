-- ===== src/Primitives/Tests.antt =====
-- The theorems on the shared primitives at concrete inputs.
use aggregator_dpg.Prelude.{◌≤◌, String, ◌≡◌, refl, ◌≢◌, true, false, some, arith, text_ne}
use aggregator_dpg.Prelude.Result.{ok}
use aggregator_dpg.Primitives.Phone.{normalise_phone, clean, after_plus, size}
use aggregator_dpg.Primitives.Phone.Canonical.{
  rest_of, normalise_phone-canonical, normalise_phone-fixed, normalise_phone-inner_plus,
}
use aggregator_dpg.Primitives.Contact.{all_digits, is_canonical}

accepted : normalise_phone "98765 43210" ≡ ok "+919876543210"
unfolding normalise_phone
accepted = refl

digits_left : all_digits (rest_of "98765 43210") ≡ true
unfolding all_digits clean after_plus
digits_left = refl

normalise_phone-canonical_example : is_canonical "+919876543210" ≡ true
normalise_phone-canonical_example =
    normalise_phone-canonical "98765 43210" "+919876543210" accepted digits_left

canonical : is_canonical "+919876543210" ≡ true
unfolding is_canonical
canonical = refl

normalise_phone-fixed_example : normalise_phone "+919876543210" ≡ ok "+919876543210"
normalise_phone-fixed_example = normalise_phone-fixed "+919876543210" canonical

given : ◌≢◌ {A = String} "+91+987654321" ""
given = text_ne "+91+987654321" "" refl

behind_plus : after_plus (clean "+91+987654321") ≡ some "91+987654321"
unfolding clean after_plus
behind_plus = refl

not_all : all_digits "91+987654321" ≡ false
unfolding all_digits
not_all = refl

long_enough : 10 ≤ size "91+987654321"
unfolding size
long_enough = omega arith

short_enough : size "91+987654321" ≤ 15
unfolding size
short_enough = omega arith

normalise_phone-inner_plus_example :
    (normalise_phone "+91+987654321" ≡ ok "+91+987654321") × (is_canonical "+91+987654321" ≡ false)
normalise_phone-inner_plus_example =
    normalise_phone-inner_plus "+91+987654321" "91+987654321" given behind_plus not_all long_enough
      short_enough
