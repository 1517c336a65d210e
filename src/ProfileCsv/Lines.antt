-- ===== src/ProfileCsv/Lines.antt =====
-- A line of the export, read cell by cell.
use Prim.Native.Char.{code}
use Prim.Native.String.{◌++◌ as ◌+ₛ◌}
use text.Mathlib.TextLemmas.{nil-append, cons-append, append_assoc}
use aggregator_dpg.Prelude.{
  ℕ, zero, suc, String, ◌≡◌, refl, ap, ◌∙◌, inl, inr, false, Option, none, some, List, [], ◌∷◌, map,
  arith, ◌==◌, if◌then◌else◌, Bool-cases, length, All,
}
use aggregator_dpg.ProfileCsv.{is_trigger, neutralize_formula, csv_field, join, line_of}
use aggregator_dpg.ProfileCsv.Reader.{EndsField, read_field, read_field-csv_field}

-- A cell that a spreadsheet takes as text.
abbrev pub IsText : String → Type 0
IsText String.[] = Unit
IsText (String.◌∷◌ c s) = is_trigger c ≡ false

neutralize_formula-IsText : (value : String) → IsText (neutralize_formula value)
unfolding neutralize_formula
neutralize_formula-IsText String.[] = tt
neutralize_formula-IsText (String.◌∷◌ c s) = elim (Bool-cases (is_trigger c)) [
  | inl t ↦ rw t refl
  | inr t ↦ rw t t
]

every_cell : (values : List String) → All IsText (map neutralize_formula values)
every_cell [] = tt
every_cell (v ∷ values) = (neutralize_formula-IsText v, every_cell values)

unfoldable pub after_comma : String → Option String
after_comma String.[] = none
after_comma (String.◌∷◌ c s) = if code c == 44 then some s else none

-- One cell was read: the reader goes on behind a comma.
unfoldable continue : (String → List String × String) → String × String → List String × String
unfolding after_comma
continue more (value, rest) = elim (after_comma rest) [
  | none ↦ (value ∷ [], rest)
  | some behind ↦ (let (values, left) = more behind in (value ∷ values, left))
]

-- Up to so many cells of a line, and what is left.
unfoldable pub read_cells : ℕ → String → List String × String
unfolding read_field continue
read_cells zero t = ([], t)
read_cells (suc n) t = continue (read_cells n) (read_field t)

-- What may follow a line: nothing, or a line break.
abbrev pub EndsLine : String → Type 0
EndsLine String.[] = Unit
EndsLine (String.◌∷◌ c s) = code c ≡ 13

EndsLine-EndsField : (rest : String) → EndsLine rest → EndsField rest
EndsLine-EndsField String.[] h = tt
EndsLine-EndsField (String.◌∷◌ c s) h = (ground (arith, h), ground (arith, h))

after_comma-end : (rest : String) → EndsLine rest → after_comma rest ≡ none
unfolding after_comma
after_comma-end String.[] h = refl
after_comma-end (String.◌∷◌ c s) h = ground (arith, h)

-- The text of a line behind its first cell.
split : (x more rest : String) → (x +ₛ ("," +ₛ more)) +ₛ rest ≡ x +ₛ String.◌∷◌ "," (more +ₛ rest)
split x more rest =
    append_assoc x ("," +ₛ more) rest
    ∙ ap (λ t. x +ₛ t)
        (append_assoc "," more rest
          ∙ cons-append "," "" (more +ₛ rest)
          ∙ ap (λ t. String.◌∷◌ "," t) (nil-append (more +ₛ rest)))

read_line :
    (x : String) (xs : List String) (rest : String)
    → EndsLine rest
    → read_cells (length (x ∷ xs)) (line_of (x ∷ xs) +ₛ rest)
      ≡ (map neutralize_formula (x ∷ xs), rest)
unfolding read_cells continue after_comma line_of join
read_line x [] rest e =
    let first = read_field-csv_field x rest (EndsLine-EndsField rest e) in
    ap (continue (read_cells 0)) first ∙ rw (after_comma-end rest e, continue) refl
read_line x (y ∷ ys) rest e =
    let more = join "," (map csv_field (y ∷ ys)) in
    let first = read_field-csv_field x (String.◌∷◌ "," (more +ₛ rest)) (refl, refl) in
    ap (read_cells (length (x ∷ y ∷ ys))) (split (csv_field x) more rest)
    ∙ ap (continue (read_cells (length (y ∷ ys)))) first
    ∙ (ap (λ (r : List String × String). (neutralize_formula x ∷ r.0, r.1)) (read_line y ys rest e))

-- A line of the export, at the end of the text or before a line break, is read back cell by cell
-- as the values with their formulas neutralised, one cell for each value whatever commas, quotes
-- and line breaks the values hold; and no cell begins with a character that starts a formula.
pub read_cells-line_of :
    (x : String) (xs : List String) (rest : String)
    → EndsLine rest
    → (read_cells (length (x ∷ xs)) (line_of (x ∷ xs) +ₛ rest)
        ≡ (map neutralize_formula (x ∷ xs), rest))
      × All IsText (map neutralize_formula (x ∷ xs))
read_cells-line_of x xs rest e = (read_line x xs rest e, every_cell (x ∷ xs))
