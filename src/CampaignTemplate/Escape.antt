-- ===== src/CampaignTemplate/Escape.antt =====
-- How often a character occurs in a text after a substitution, and in the values put into it.
use Prim.Native.Char.{Char, code}
use Prim.Native.String.{◌++◌ as ◌+ₛ◌}
use text.Mathlib.TextLemmas.{nil-append, cons-append}
use text.Mathlib.TextBridge.{IsSuffix}
use aggregator_dpg.Prelude.{
  ℕ, zero, suc, ◌+◌, ◌-◌, ◌≤◌, String, ◌≡◌, refl, sym, ap, ◌∙◌, ◌⊎◌, inl, inr, some, arith, ◌==◌,
  Bool-cases, Option-cases,
}
use aggregator_dpg.Prelude.Texts.{
  text_length, text_length-append, text_take, replace_all, count_code,
}
use aggregator_dpg.CampaignTemplate.{
  PlaceholderValues, match_token, lower_case, value_of, before, substitute_from, substitute,
  escape_html,
}
use aggregator_dpg.CampaignTemplate.Suffix.{match_token-IsSuffix}

pub count-append : (n : ℕ) (s t : String) → count_code n (s +ₛ t) ≡ count_code n s + count_code n t
count-append n String.[] t = rw (nil-append t) (omega arith)
count-append n (String.◌∷◌ c s) t = rw (cons-append c s t) (ground (arith, count-append n s t))

text_take-append : (s t : String) → text_take (text_length s) (s +ₛ t) ≡ s
text_take-append String.[] t = refl
text_take-append (String.◌∷◌ c s) t =
    rw (cons-append c s t) (ap (λ r. String.◌∷◌ c r) (text_take-append s t))

pub before-suffix : (s rest : String) → IsSuffix rest s → before s rest +ₛ rest ≡ s
before-suffix s rest (p, e) =
    let long : text_length (p +ₛ rest) - text_length rest ≡ text_length p =
      omega (arith, text_length-append p rest) in
    rw (← e, long, text_take-append p rest) refl

count-before :
    (n : ℕ) (s rest : String)
    → IsSuffix rest s
    → count_code n (before s rest) + count_code n rest ≡ count_code n s
count-before n s rest h =
    sym (count-append n (before s rest) rest) ∙ ap (count_code n) (before-suffix s rest h)

-- A replacement without the character `n`, of `n` itself or in a text without it.
count-replace_all :
    (n : ℕ) (c : Char) (by s : String)
    → count_code n by ≡ 0
    → ((code c ≡ n) ⊎ (count_code n s ≡ 0))
    → count_code n (replace_all c by s) ≡ 0
unfolding replace_all
count-replace_all n c by String.[] none_in or = refl
count-replace_all n c by (String.◌∷◌ d s) none_in or =
    let later : (code c ≡ n) ⊎ (count_code n s ≡ 0) = elim or [
      | inl same ↦ inl same
      | inr clean ↦ inr (ground arith)
    ] in
    let rest = count-replace_all n c by s none_in later in
    elim (Bool-cases (code d == code c)) [
      | inl hit ↦ rw hit (omega (arith, count-append n by (replace_all c by s)))
      | inr miss ↦ rw miss (elim or [ inl same ↦ ground arith | inr clean ↦ ground arith ])
    ]

-- The codes of `<`, `>`, `"` and `'`.
abbrev pub IsMarkup : ℕ → Type 0
IsMarkup n = (n ≡ 60) ⊎ (n ≡ 62) ⊎ (n ≡ 34) ⊎ (n ≡ 39)

pub count-escape_html :
    (n : ℕ) → IsMarkup n → (value : String) → count_code n (escape_html value) ≡ 0
unfolding escape_html
count-escape_html n markup value =
    let amp = replace_all "&" "&amp;" value in
    let lt = replace_all "<" "&lt;" amp in
    let gt = replace_all ">" "&gt;" lt in
    let quot = replace_all "\"" "&quot;" gt in
    elim markup [
      | inl e ↦ rw e (
          count-replace_all 60 "'" "&#39;" quot refl (
            inr (
              count-replace_all 60 "\"" "&quot;" gt refl (
                inr (
                  count-replace_all 60 ">" "&gt;" lt refl
                    (inr (count-replace_all 60 "<" "&lt;" amp refl (inl refl))))))))
      | inr (inl e) ↦ rw e (
          count-replace_all 62 "'" "&#39;" quot refl (
            inr (
              count-replace_all 62 "\"" "&quot;" gt refl
                (inr (count-replace_all 62 ">" "&gt;" lt refl (inl refl))))))
      | inr (inr (inl e)) ↦ rw e (
          count-replace_all 34 "'" "&#39;" quot refl
            (inr (count-replace_all 34 "\"" "&quot;" gt refl (inl refl))))
      | inr (inr (inr e)) ↦ rw e (count-replace_all 39 "'" "&#39;" quot refl (inl refl))
    ]

module _ (n : ℕ) (values : PlaceholderValues) (escape : String → String)
    (safe : (key v : String) → value_of values key ≡ some v → count_code n (escape v) ≡ 0) where
  count-substitute_from :
      (fuel : ℕ) (s : String) → count_code n (substitute_from values escape fuel s) ≤ count_code n s
  unfolding substitute_from
  count-substitute_from zero s = omega arith
  count-substitute_from (suc fuel) String.[] = omega arith
  count-substitute_from (suc fuel) (String.◌∷◌ c s) =
      elim (Option-cases (match_token (String.◌∷◌ c s))) [
        | inl gone ↦ rw (gone, substitute_from) (ground (arith, count-substitute_from fuel s))
        | inr (m, found) ↦
            let rest = count-substitute_from fuel m.1 in
            let split =
              count-before n (String.◌∷◌ c s) m.1 (match_token-IsSuffix (String.◌∷◌ c s) m found) in
            elim (Option-cases (value_of values (lower_case m.0))) [
              | inl kept ↦
                  rw (found, kept, substitute_from)
                    (omega (
                      arith,
                      split,
                      count-append n (before (String.◌∷◌ c s) m.1)
                          (substitute_from values escape fuel m.1),
                    ))
              | inr (v, filled) ↦
                  rw (found, filled, substitute_from)
                    (omega (
                      arith,
                      split,
                      safe (lower_case m.0) v filled,
                      count-append n (escape v) (substitute_from values escape fuel m.1),
                    ))
            ]
      ]

  pub count-substitute :
      (text : String) → count_code n (substitute values escape text) ≤ count_code n text
  unfolding substitute
  count-substitute text = count-substitute_from (text_length text) text
