-- ===== src/CampaignTemplate/Suffix.antt =====
-- What stands behind a match of `TOKEN_RE` is the end of the text it was found in.
use Prim.Native.Char.{Char, code}
use mathlib.Core.Path.{subst}
use text.Mathlib.TextLemmas.{suffix_refl, suffix-cons, IsSuffix-trans}
use text.Mathlib.TextBridge.{IsSuffix}
use aggregator_dpg.Prelude.{
  ℕ, String, ◌≡◌, ap, inl, inr, ◌&&◌, none, some, ◌==◌, ◌=ₛ◌, Bool-cases, Option-cases,
}
use aggregator_dpg.Prelude.Texts.{is_space, skip_space}
use aggregator_dpg.CampaignTemplate.{take_word, after_pair, close_token, match_token, is_token_char}

cons-IsSuffix : (c : Char) (r s : String) → IsSuffix r s → IsSuffix r (String.◌∷◌ c s)
cons-IsSuffix c r s h = IsSuffix-trans r h (suffix-cons c s)

pub some-inj {ℓ} : {A : Type ℓ} (a b : A) → some a ≡ some b → a ≡ b
some-inj a b h = ap (λ o. elim o [ none ↦ a | some x ↦ x ]) h

skip_space-IsSuffix : (s : String) → IsSuffix (skip_space s) s
unfolding skip_space
skip_space-IsSuffix String.[] = suffix_refl String.[]
skip_space-IsSuffix (String.◌∷◌ c s) = elim (Bool-cases (is_space c)) [
  | inl h ↦ rw h (cons-IsSuffix c (skip_space s) s (skip_space-IsSuffix s))
  | inr h ↦ rw h (suffix_refl (String.◌∷◌ c s))
]

take_word-IsSuffix : (s : String) → IsSuffix (take_word s).1 s
unfolding take_word
take_word-IsSuffix String.[] = suffix_refl String.[]
take_word-IsSuffix (String.◌∷◌ c s) = elim (Bool-cases (is_token_char c)) [
  | inl h ↦ rw h (cons-IsSuffix c (take_word s).1 s (take_word-IsSuffix s))
  | inr h ↦ rw h (suffix_refl (String.◌∷◌ c s))
]

after_pair-IsSuffix : (n : ℕ) (s r : String) → after_pair n s ≡ some r → IsSuffix r s
unfolding after_pair
after_pair-IsSuffix n String.[] r h = cc
after_pair-IsSuffix n (String.◌∷◌ c String.[]) r h = cc
after_pair-IsSuffix n (String.◌∷◌ c (String.◌∷◌ d s)) r h =
    elim (Bool-cases (code c == n && code d == n)) [
      | inl e ↦
          subst (λ t. IsSuffix t (String.◌∷◌ c (String.◌∷◌ d s))) (some-inj s r (rw e at h))
            (cons-IsSuffix c s (String.◌∷◌ d s) (suffix-cons d s))
      | inr e ↦ let no : none ≡ some r = rw e at h in cc
    ]

close_token-IsSuffix :
    (word s : String) (m : String × String) → close_token (word, s) ≡ some m → IsSuffix m.1 s
close_token-IsSuffix word s m h = elim (Bool-cases (word =ₛ "")) [
  | inl e ↦ let no : none ≡ some m = rw e at h in cc
  | inr e ↦ elim (Option-cases (after_pair 125 (skip_space s))) [
    | inl gone ↦ let no : none ≡ some m = rw (e, gone) at h in cc
    | inr (rest, found) ↦
        let same : (word, rest) ≡ m = some-inj (word, rest) m (rw (e, found) at h) in
        subst (λ p. IsSuffix p.1 s) same
          (IsSuffix-trans rest (after_pair-IsSuffix 125 (skip_space s) rest found)
            (skip_space-IsSuffix s))
  ]
]

pub match_token-IsSuffix :
    (s : String) (m : String × String) → match_token s ≡ some m → IsSuffix m.1 s
unfolding match_token
match_token-IsSuffix s m h = elim (Option-cases (after_pair 123 s)) [
  | inl gone ↦ let no : none ≡ some m = rw (gone, match_token) at h in cc
  | inr (inner, found) ↦
      let word = take_word (skip_space inner) in
      let closed : close_token word ≡ some m = rw (found, match_token) at h in
      IsSuffix-trans m.1 (close_token-IsSuffix word.0 word.1 m closed) (
        IsSuffix-trans word.1 (take_word-IsSuffix (skip_space inner)) (
          IsSuffix-trans (skip_space inner) (skip_space-IsSuffix inner)
            (after_pair-IsSuffix 123 s inner found)))
]
