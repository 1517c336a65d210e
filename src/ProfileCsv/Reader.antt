-- ===== src/ProfileCsv/Reader.antt =====
-- A reader of RFC 4180 fields, and that it reads back what the export writes.
use Prim.Native.String.{◌++◌ as ◌+ₛ◌}
use text.Mathlib.TextLemmas.{nil-append, cons-append, append_assoc}
use text.Mathlib.TextEquality.{Char-path}
use aggregator_dpg.Prelude.{
  String, ◌≡◌, refl, sym, ap, ◌∙◌, inl, inr, true, false, arith, if◌then◌else◌, Bool-cases,
}
use aggregator_dpg.ProfileCsv.{
  neutralize_formula, is_quote, is_special, has_special, doubled, csv_field,
}

-- A bare field ends before a comma, a line break or a quote.
unfoldable read_bare : String → String × String
read_bare String.[] = (String.[], String.[])
read_bare (String.◌∷◌ c s) =
    let (value, rest) = read_bare s in
    if is_special c then (String.[], String.◌∷◌ c s) else (String.◌∷◌ c value, rest)

-- Inside quotes, and behind a quote inside quotes: a second one stands for one quote, anything else
-- is what follows the field.
mutual
  read_quoted : String → String × String
  read_quoted String.[] = (String.[], String.[])
  read_quoted (String.◌∷◌ c s) =
      let (value, rest) = read_quoted s in
      let behind = read_behind s in if is_quote c then behind else (String.◌∷◌ c value, rest)

  read_behind : String → String × String
  read_behind String.[] = (String.[], String.[])
  read_behind (String.◌∷◌ c s) =
      let (value, rest) = read_quoted s in
      if is_quote c then (String.◌∷◌ "\"" value, rest) else (String.[], String.◌∷◌ c s)

unfoldable pub read_field : String → String × String
unfolding read_bare read_quoted
read_field String.[] = (String.[], String.[])
read_field (String.◌∷◌ c s) = if is_quote c then read_quoted s else read_bare (String.◌∷◌ c s)

-- What may follow a field: nothing, a comma, or a line break.
abbrev pub EndsField : String → Type 0
EndsField String.[] = Unit
EndsField (String.◌∷◌ c s) = (is_special c ≡ true) × (is_quote c ≡ false)

read_bare-append :
    (s rest : String) → has_special s ≡ false → EndsField rest → read_bare (s +ₛ rest) ≡ (s, rest)
unfolding read_bare has_special
read_bare-append String.[] String.[] h e = refl
read_bare-append String.[] (String.◌∷◌ c rest) h e =
    ap read_bare (nil-append (String.◌∷◌ c rest)) ∙ rw e.0 refl
read_bare-append (String.◌∷◌ c s) rest h e =
    let plain : is_special c ≡ false = ground arith in
    let below = read_bare-append s rest (ground arith) e in
    ap read_bare (cons-append c s rest)
    ∙ rw plain (ap (λ (r : String × String). (String.◌∷◌ c r.0, r.1)) below)

read_quoted-append :
    (s rest : String) → EndsField rest → read_quoted (doubled s +ₛ String.◌∷◌ "\"" rest) ≡ (s, rest)
unfolding read_quoted doubled
read_quoted-append String.[] String.[] e = refl
read_quoted-append String.[] (String.◌∷◌ c rest) e =
    ap read_quoted (nil-append (String.◌∷◌ "\"" (String.◌∷◌ c rest))) ∙ rw e.1 refl
read_quoted-append (String.◌∷◌ c s) rest e =
    let tail : String = String.◌∷◌ "\"" rest in
    let below = read_quoted-append s rest e in
    elim (Bool-cases (is_quote c)) [
      | inl t ↦
          (let same : c ≡ "\"" = Char-path c "\"" (ground arith) in
            rw t (
              ap read_quoted (
                cons-append "\"" (String.◌∷◌ "\"" (doubled s)) tail
                ∙ ap (λ x. String.◌∷◌ "\"" x) (cons-append "\"" (doubled s) tail))
              ∙ ap (λ (r : String × String). (String.◌∷◌ "\"" r.0, r.1)) below
              ∙ ap (λ d. (String.◌∷◌ d s, rest)) (sym same)))
      | inr t ↦ rw t (
          ap read_quoted (cons-append c (doubled s) tail)
          ∙ rw t (ap (λ (r : String × String). (String.◌∷◌ c r.0, r.1)) below))
    ]

read_field-bare :
    (s rest : String)
    → has_special s ≡ false
    → EndsField rest
    → read_field (s +ₛ rest) ≡ read_bare (s +ₛ rest)
unfolding read_field read_bare has_special
read_field-bare String.[] String.[] h e = refl
read_field-bare String.[] (String.◌∷◌ c rest) h e =
    rw (nil-append (String.◌∷◌ c rest)) (rw e.1 refl)
read_field-bare (String.◌∷◌ c s) rest h e =
    let plain : is_quote c ≡ false = ground arith in rw (cons-append c s rest) (rw plain refl)

-- A field of the export, with whatever may follow a field behind it, is read back as the value with
-- its formula neutralised, and the reader stops where the field ends.
pub read_field-csv_field :
    (value rest : String)
    → EndsField rest
    → read_field (csv_field value +ₛ rest) ≡ (neutralize_formula value, rest)
unfolding csv_field read_field
read_field-csv_field value rest e =
    let safe = neutralize_formula value in
    elim (Bool-cases (has_special safe)) [
      | inl t ↦ rw t (
          ap read_field (
            cons-append "\"" (doubled safe +ₛ "\"") rest
            ∙ ap (λ x. String.◌∷◌ "\"" x)
                (append_assoc (doubled safe) "\"" rest
                  ∙ ap (λ x. doubled safe +ₛ x)
                      (cons-append "\"" "" rest ∙ ap (λ x. String.◌∷◌ "\"" x) (nil-append rest))))
          ∙ read_quoted-append safe rest e)
      | inr t ↦ rw t (read_field-bare safe rest t e ∙ read_bare-append safe rest t e)
    ]
