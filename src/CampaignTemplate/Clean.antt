-- ===== src/CampaignTemplate/Clean.antt =====
-- The values of a recipient have no control character.
use Prim.Native.String.{◌++◌ as ◌+ₛ◌}
use mathlib.Core.Path.{subst}
use aggregator_dpg.Prelude.{
  ℕ, zero, suc, ◌≤◌, String, ◌≡◌, refl, ◌⊎◌, inl, inr, Bool, true, false, Option, none, some, arith,
  ◌=ₛ◌, if◌then◌else◌, Bool-cases, List, [], ◌∷◌, All, drop,
}
use aggregator_dpg.Prelude.Texts.{is_space, trim, count_code}
use aggregator_dpg.ProfileCsv.{join}
use aggregator_dpg.CampaignTemplate.{
  value_of, placeholder_values, words_from, strip_control_chars, is_control, add_word, first_of,
  or_empty,
}
use aggregator_dpg.CampaignTemplate.Escape.{count-append}
use aggregator_dpg.CampaignTemplate.Suffix.{some-inj}

-- The codes of the class `[\x00-\x1F\x7F]`.
abbrev pub IsControlCode : ℕ → Type 0
IsControlCode n = (n ≤ 31) ⊎ (n ≡ 127)

module _ (n : ℕ) (control : IsControlCode n) where
  abbrev IsClean : String → Type 0
  IsClean s = count_code n s ≡ 0

  strip_control_chars-IsClean : (s : String) → IsClean (strip_control_chars s)
  unfolding strip_control_chars
  strip_control_chars-IsClean String.[] = refl
  strip_control_chars-IsClean (String.◌∷◌ c s) =
      let rest = strip_control_chars-IsClean s in
      elim (Bool-cases (is_control c)) [
        | inl h ↦ rw h rest
        | inr h ↦ rw h (elim control [ inl low ↦ ground arith | inr del ↦ ground arith ])
      ]

  add_word-IsClean :
      (word : String) (words : List String)
      → IsClean word
      → All IsClean words
      → All IsClean (add_word word words)
  add_word-IsClean word words w ws = elim (Bool-cases (word =ₛ "")) [
    | inl h ↦ rw h ws
    | inr h ↦ rw h (w, ws)
  ]

  words_from-IsClean :
      (word s : String) → IsClean word → IsClean s → All IsClean (words_from word s)
  unfolding words_from
  words_from-IsClean word String.[] w h = add_word-IsClean word [] w tt
  words_from-IsClean word (String.◌∷◌ c s) w h =
      let rest : IsClean s = ground arith in
      elim (Bool-cases (is_space c)) [
        | inl broken ↦
            rw broken
              (add_word-IsClean word (words_from "" s) w (words_from-IsClean "" s refl rest))
        | inr longer ↦ rw longer (
            words_from-IsClean (word +ₛ String.◌∷◌ c String.[]) s
              (ground (arith, count-append n word (String.◌∷◌ c String.[]))) rest)
      ]

  first_of-IsClean : (ws : List String) → All IsClean ws → IsClean (first_of ws)
  first_of-IsClean [] a = refl
  first_of-IsClean (w ∷ ws) a = a.0

  drop-IsClean : (k : ℕ) (ws : List String) → All IsClean ws → All IsClean (drop k ws)
  drop-IsClean zero ws a = a
  drop-IsClean (suc k) [] a = tt
  drop-IsClean (suc k) (w ∷ ws) a = drop-IsClean k ws a.1

  join-IsClean : (ws : List String) → All IsClean ws → IsClean (join " " ws)
  unfolding join
  join-IsClean [] a = refl
  join-IsClean (w ∷ []) a = a.0
  join-IsClean (w ∷ v ∷ ws) a =
      let later = join " " (v ∷ ws) in
      let space : IsClean " " = elim control [ inl low ↦ ground arith | inr del ↦ ground arith ] in
      omega (
        arith,
        a.0,
        space,
        join-IsClean (v ∷ ws) a.1,
        count-append n w (" " +ₛ later),
        count-append n " " later,
      )

  pick-IsClean :
      (test : Bool) (x : String) (rest : Option String)
      → IsClean x
      → ((v : String) → rest ≡ some v → IsClean v)
      → (v : String) → (if test then some x else rest) ≡ some v
      → IsClean v
  pick-IsClean true x rest clean later v h = subst IsClean (some-inj x v h) clean
  pick-IsClean false x rest clean later v h = later v h

  pub value_of-IsClean :
      (name email phone : Option String) (key v : String)
      → value_of (placeholder_values name email phone) key ≡ some v
      → IsClean v
  unfolding value_of placeholder_values
  value_of-IsClean name email phone key =
      let given : String = elim name [ none ↦ "" | some n ↦ trim n ] in
      let stripped = strip_control_chars given in
      let parts = words_from "" stripped in
      let first = strip_control_chars-IsClean given in
      let words = words_from-IsClean "" stripped refl first in
      pick-IsClean (key =ₛ "name") stripped _ first (
        pick-IsClean (key =ₛ "first_name") (first_of parts) _ (first_of-IsClean parts words) (
          pick-IsClean (key =ₛ "last_name") (join " " (drop 1 parts)) _
            (join-IsClean (drop 1 parts) (drop-IsClean 1 parts words))
            (pick-IsClean (key =ₛ "email") _ _ (strip_control_chars-IsClean (or_empty email)) (
              pick-IsClean (key =ₛ "phone") _ none (strip_control_chars-IsClean (or_empty phone))
                (λ v h. cc)))))
