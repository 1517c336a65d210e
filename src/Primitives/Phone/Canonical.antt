-- ===== src/Primitives/Phone/Canonical.antt =====
-- What `normalisePhone` gives, against the phone shape that a contact asks for.
use aggregator_dpg.Prelude.{
  ◌≤◌, String, ◌≡◌, refl, ◌≢◌, inl, inr, true, false, none, some, arith, eq_iff, ◌==◌, ◌=ₛ◌,
  Bool-cases, Option-cases,
}
use Prim.Native.Char.{Char}
use text.Mathlib.TextEquality.{Char-path}
use text.Mathlib.TextLemmas.{cons≢nil}
use aggregator_dpg.Prelude.Result.{ok}
use aggregator_dpg.Primitives.Phone.{
  size, clean, after_plus, with_plus, bare, normalise_phone, min_digits, max_digits,
}
use aggregator_dpg.Primitives.Contact.{all_digits, is_canonical}

-- What is left of the input behind the leading `+`, if there is one.
abbrev pub rest_of : String → String
rest_of raw = elim (after_plus (clean raw)) [ some digits ↦ digits | none ↦ clean raw ]

with_plus-canonical :
    (digits v : String) → with_plus digits ≡ ok v → all_digits digits ≡ true → is_canonical v ≡ true
unfolding with_plus is_canonical
with_plus-canonical digits v h d =
    let e : v ≡ String.◌∷◌ "+" digits = ground arith in rw e (ground arith)

bare-canonical :
    (cleaned v : String) → bare cleaned ≡ ok v → all_digits cleaned ≡ true → is_canonical v ≡ true
unfolding bare is_canonical
bare-canonical cleaned v h d = elim (Bool-cases (size cleaned == min_digits)) [
  | inl t ↦
      (let e : v ≡ String.◌∷◌ "+" (String.◌∷◌ "9" (String.◌∷◌ "1" cleaned)) = ground arith in
        rw e (ground arith))
  | inr t ↦ (let e : v ≡ String.◌∷◌ "+" cleaned = ground arith in rw e (ground arith))
]

-- A phone that is accepted has the shape of a stored contact's phone, if the input has no `+` but a
-- leading one.
pub normalise_phone-canonical :
    (raw v : String)
    → normalise_phone raw ≡ ok v
    → all_digits (rest_of raw) ≡ true
    → is_canonical v ≡ true
unfolding normalise_phone
normalise_phone-canonical raw v h d = elim (Bool-cases (raw =ₛ "")) [
  | inl e ↦ ground arith
  | inr e ↦ elim (Option-cases (after_plus (clean raw))) [
    | inl none_there ↦ bare-canonical (clean raw) v (ground arith) (ground arith)
    | inr (digits, there) ↦ with_plus-canonical digits v (ground arith) (ground arith)
  ]
]

cons_given : (c : Char) (s : String) → (String.◌∷◌ c s =ₛ "") ≡ false
cons_given c s = elim (Bool-cases (String.◌∷◌ c s =ₛ "")) [
  | inl e ↦ absurd (cons≢nil ((eq_iff (String.◌∷◌ c s) "").0 e))
  | inr e ↦ e
]

clean-digits : (s : String) → all_digits s ≡ true → clean s ≡ s
unfolding clean all_digits
clean-digits String.[] h = refl
clean-digits (String.◌∷◌ c s) h = ground (arith, clean-digits s)

-- A canonical phone is left as it is, so normalising twice changes nothing.
pub normalise_phone-fixed : (p : String) → is_canonical p ≡ true → normalise_phone p ≡ ok p
unfolding normalise_phone is_canonical
normalise_phone-fixed String.[] h = cc
normalise_phone-fixed (String.◌∷◌ c s) h =
    let plus : c ≡ "+" = Char-path c "+" (ground arith) in
    let kept : clean s ≡ s = clean-digits s (ground arith) in
    rw plus (rw (cons_given "+" s) (ground (arith, kept)))

-- The shape is not met by every phone that is accepted: behind a leading `+` further `+` characters
-- are kept and counted as digits.
pub normalise_phone-inner_plus :
    (raw digits : String)
    → raw ≢ ""
    → after_plus (clean raw) ≡ some digits
    → all_digits digits ≡ false
    → min_digits ≤ size digits
    → size digits ≤ max_digits
    → (normalise_phone raw ≡ ok (String.◌∷◌ "+" digits))
      × (is_canonical (String.◌∷◌ "+" digits) ≡ false)
unfolding normalise_phone is_canonical
normalise_phone-inner_plus raw digits given there inner low high =
    (ground (arith, eq_iff raw ""), ground arith)
