-- ===== src/Primitives/Phone.antt =====
-- packages/shared-primitives/src/phone/index.ts.
pub mod Canonical
use aggregator_dpg.Prelude.{
  ℕ, suc, String, Bool, ◌&&◌, ◌||◌, Option, none, some, [], ◌∷◌, ◌++◌, ltb, leb, ◌==◌, ◌=ₛ◌,
  if◌then◌else◌,
}
use Prim.Native.Char.{Char, code}
use Prim.Native.String.{◌++◌ as ◌+ₛ◌}
use aggregator_dpg.Prelude.Decimal.{decimal}
use aggregator_dpg.Prelude.Result.{Result, ok, err}

abbrev pub min_digits : ℕ
min_digits = 10

abbrev pub max_digits : ℕ
max_digits = 15

-- `\d`
abbrev pub is_digit : Char → Bool
is_digit c = leb 48 (code c) && leb (code c) 57

abbrev pub is_plus : Char → Bool
is_plus c = code c == 43

-- `s.length`, on the ASCII texts that the replacement leaves.
unfoldable pub size : String → ℕ
size String.[] = 0
size (String.◌∷◌ c s) = suc (size s)

-- `raw.trim().replace(/[^\d+]/g, '')`: what `trim` takes off is neither a digit nor `+`.
unfoldable pub clean : String → String
clean String.[] = String.[]
clean (String.◌∷◌ c s) =
    let rest = clean s in if is_digit c || is_plus c then String.◌∷◌ c rest else rest

abbrev digits_message : String
digits_message = "phone must have 10-15 digits after country code"

-- A text whose first character is `+`, and the rest of it.
unfoldable pub after_plus : String → Option String
after_plus String.[] = none
after_plus (String.◌∷◌ c s) = if is_plus c then some s else none

unfoldable pub with_plus : String → Result String String
unfolding size
with_plus digits =
    if ltb (size digits) min_digits || ltb max_digits (size digits)
    then err digits_message
    else ok (String.◌∷◌ "+" digits)

unfoldable pub bare : String → Result String String
unfolding size
bare cleaned =
    if size cleaned == min_digits
    then ok (String.◌∷◌ "+" (String.◌∷◌ "9" (String.◌∷◌ "1" cleaned)))
    else if ltb min_digits (size cleaned) && leb (size cleaned) max_digits
    then ok (String.◌∷◌ "+" cleaned)
    else err ("phone has " +ₛ (decimal (size cleaned) +ₛ " digits; expected 10-15"))

unfoldable pub normalise_phone : String → Result String String
unfolding clean after_plus with_plus bare
normalise_phone raw = if raw =ₛ "" then err "phone is empty" else (elim (after_plus (clean raw)) [
  | some digits ↦ with_plus digits
  | none ↦ bare (clean raw)
])
