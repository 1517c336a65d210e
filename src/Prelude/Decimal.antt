-- ===== src/Prelude/Decimal.antt =====
-- `String(n)` for a natural number: its decimal text, and that it can be read back.
use Prim.Native.Nat.{ℕ, zero, suc, ◌+◌, ◌-◌, ◌*◌, ◌/◌, ◌%◌, ◌<◌}
use Prim.Native.String.{String}
use mathlib.Core.Path.{◌≡◌, refl, sym, ap, ◌∙◌}
use mathlib.Core.Logic.{inl, inr}
use native.Mathlib.Omega.{arith}
use Prim.Native.Char.{Char, code}
use Prim.Native.String.{◌++◌ as ◌+ₛ◌}
use text.Mathlib.TextLemmas.{nil-append, cons-append}
use aggregator_dpg.Prelude.Tests.{◌==◌, if◌then◌else◌, Bool-cases}

digit : ℕ → Char
digit zero = "0"
digit (suc zero) = "1"
digit (suc (suc zero)) = "2"
digit (suc (suc (suc zero))) = "3"
digit (suc (suc (suc (suc zero)))) = "4"
digit (suc (suc (suc (suc (suc zero))))) = "5"
digit (suc (suc (suc (suc (suc (suc zero)))))) = "6"
digit (suc (suc (suc (suc (suc (suc (suc zero))))))) = "7"
digit (suc (suc (suc (suc (suc (suc (suc (suc zero)))))))) = "8"
digit _ = "9"

digit_text : ℕ → String
unfolding digit
digit_text d = String.◌∷◌ (digit d) String.[]

-- The fuel is above the number, so it does not run out.
decimal_from : ℕ → ℕ → String
unfolding digit_text
decimal_from zero n = ""
decimal_from (suc fuel) n =
    let front = decimal_from fuel (n / 10) in
    if n / 10 == 0 then digit_text n else front +ₛ digit_text (n % 10)

unfoldable pub decimal : ℕ → String
unfolding decimal_from
decimal n = decimal_from (suc n) n

-- The number that a text of digits stands for.
value_from : ℕ → String → ℕ
value_from a String.[] = a
value_from a (String.◌∷◌ c s) = value_from (a * 10 + (code c - 48)) s

code-digit : (d : ℕ) → d < 10 → code (digit d) - 48 ≡ d
unfolding digit
code-digit zero h = refl
code-digit (suc zero) h = refl
code-digit (suc (suc zero)) h = refl
code-digit (suc (suc (suc zero))) h = refl
code-digit (suc (suc (suc (suc zero)))) h = refl
code-digit (suc (suc (suc (suc (suc zero))))) h = refl
code-digit (suc (suc (suc (suc (suc (suc zero)))))) h = refl
code-digit (suc (suc (suc (suc (suc (suc (suc zero))))))) h = refl
code-digit (suc (suc (suc (suc (suc (suc (suc (suc zero)))))))) h = refl
code-digit (suc (suc (suc (suc (suc (suc (suc (suc (suc zero))))))))) h = refl
code-digit (suc (suc (suc (suc (suc (suc (suc (suc (suc (suc n)))))))))) h = absurd (omega arith)

value-digit : (d : ℕ) → d < 10 → value_from 0 (digit_text d) ≡ d
unfolding value_from digit_text
value-digit d h = omega (arith, code-digit d h)

value-append_digit :
    (a d : ℕ) (s : String) → d < 10 → value_from a (s +ₛ digit_text d) ≡ value_from a s * 10 + d
unfolding value_from digit_text
value-append_digit a d String.[] h =
    ap (value_from a) (nil-append (digit_text d)) ∙ ap (λ k. a * 10 + k) (code-digit d h)
value-append_digit a d (String.◌∷◌ c s) h =
    ap (value_from a) (cons-append c s (digit_text d))
    ∙ value-append_digit (a * 10 + (code c - 48)) d s h

value-decimal_from : (fuel n : ℕ) → n < fuel → value_from 0 (decimal_from fuel n) ≡ n
unfolding decimal_from
value-decimal_from zero n h = elim h [ ]
value-decimal_from (suc fuel) n h = elim (Bool-cases (n / 10 == 0)) [
  | inl small ↦ rw small (value-digit n (ground arith))
  | inr more ↦ rw more (
      value-append_digit 0 (n % 10) (decimal_from fuel (n / 10)) (omega arith)
      ∙ ground (arith, value-decimal_from fuel (n / 10)))
]

-- Different numbers have different texts.
pub decimal-injective : (m n : ℕ) → decimal m ≡ decimal n → m ≡ n
unfolding decimal
decimal-injective m n e =
    sym (value-decimal_from (suc m) m (omega arith))
    ∙ ap (value_from 0) e
    ∙ value-decimal_from (suc n) n (omega arith)
