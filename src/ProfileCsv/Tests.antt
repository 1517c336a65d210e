-- ===== src/ProfileCsv/Tests.antt =====
-- The theorem on export lines at a row with a formula, a comma and a quote.
use Prim.Native.String.{◌++◌ as ◌+ₛ◌}
use aggregator_dpg.Prelude.{String, ◌≡◌, refl, List, [], ◌∷◌, map, All}
use aggregator_dpg.ProfileCsv.{neutralize_formula, line_of}
use aggregator_dpg.ProfileCsv.Lines.{IsText, read_cells, read_cells-line_of}

abbrev more_cells : List String
more_cells = "Ann, \"A\"" ∷ "+91" ∷ []

read_cells-line_of_example :
    (read_cells 3 (line_of ("=1+1" ∷ more_cells) +ₛ "\r\nx")
      ≡ (map neutralize_formula ("=1+1" ∷ more_cells), "\r\nx"))
    × All IsText (map neutralize_formula ("=1+1" ∷ more_cells))
read_cells-line_of_example = read_cells-line_of "=1+1" more_cells "\r\nx" refl
