-- ===== src/Primitives/Contact.antt =====
-- packages/shared-primitives/src/contact/index.ts, and `normaliseEmail` of phone/index.ts. The
-- Unicode tables of `trim` and `toLowerCase`, and SHA-256 of node:crypto, are a parameter.
use aggregator_dpg.Prelude.{
  String, Bool, true, false, ◌&&◌, Option, none, some, leb, ◌=ₛ◌, if◌then◌else◌,
}
use Prim.Native.String.{◌++◌ as ◌+ₛ◌}
use aggregator_dpg.Primitives.Phone.{is_digit, is_plus, size, min_digits, max_digits}

pub record Platform : Type 0 where
  pub trim : String → String
  pub to_lower_case : String → String
  pub sha256_hex : String → String

unfoldable pub all_digits : String → Bool
all_digits String.[] = true
all_digits (String.◌∷◌ c s) = is_digit c && all_digits s

-- `CONTACT_PHONE_REGEX.test(phone)`: /^\+\d{10,15}$/
unfoldable pub is_canonical : String → Bool
unfolding all_digits size
is_canonical String.[] = false
is_canonical (String.◌∷◌ c s) =
    is_plus c && all_digits s && leb min_digits (size s) && leb (size s) max_digits

module _ (platform : Platform) where
  open platform use {trim, to_lower_case, sha256_hex}

  unfoldable pub normalise_email : Option String → Option String
  normalise_email none = none
  normalise_email (some raw) =
      if raw =ₛ ""
      then none
      else (let trimmed = trim raw in if trimmed =ₛ "" then none else some (to_lower_case trimmed))

  -- `none` is a `TypeError` that is thrown.
  abbrev hash_of : Option String → Option String → Option String
  hash_of none phone = none
  hash_of (some email) none = some (sha256_hex (email +ₛ ":"))
  hash_of (some email) (some phone) =
      if is_canonical phone then some (sha256_hex (email +ₛ (":" +ₛ phone))) else none

  -- `!canonicalEmail`: the empty text counts as absent too.
  abbrev present : Option String → Option String
  present none = none
  present (some email) = if email =ₛ "" then none else some email

  unfoldable pub contact_id : String → Option String → Option String
  unfolding normalise_email is_canonical
  contact_id email phone = hash_of (present (normalise_email (some email))) phone
