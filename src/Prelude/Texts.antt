-- ===== src/Prelude/Texts.antt =====
-- Texts as the source's string methods read them, by code points.
use Prim.Native.Nat.{ℕ, zero, suc, ◌+◌, ◌-◌}
use Prim.Native.Char.{Char, code}
use Prim.Native.String.{String, ◌++◌ as ◌+ₛ◌}
use mathlib.Core.Path.{◌≡◌}
use native.Mathlib.Omega.{arith}
use text.Mathlib.TextLemmas.{nil-append, cons-append}
use mathlib.Core.Bool.{Bool, true, ◌&&◌, ◌||◌}
use aggregator_dpg.Prelude.Tests.{leb, ltb, ◌==◌, ◌=ₛ◌, if◌then◌else◌}

abbrev pub text_length : String → ℕ
text_length String.[] = 0
text_length (String.◌∷◌ c s) = suc (text_length s)

pub text_length-append : (s t : String) → text_length (s +ₛ t) ≡ text_length s + text_length t
text_length-append String.[] t = rw (nil-append t) (omega arith)
text_length-append (String.◌∷◌ c s) t =
    rw (cons-append c s t) (omega (arith, text_length-append s t))

-- How many UTF-16 units a character takes.
abbrev pub units : Char → ℕ
units c = if ltb (code c) 65536 then 1 else 2

-- The length in UTF-16 units, which is `s.length`.
abbrev pub utf16_length : String → ℕ
utf16_length String.[] = 0
utf16_length (String.◌∷◌ c s) = units c + utf16_length s

-- `s.slice(0, n)`, which counts UTF-16 units. Half of a pair at the end becomes U+FFFD, as it does
-- when the text is sent in UTF-8.
unfoldable pub utf16_take : ℕ → String → String
utf16_take n String.[] = String.[]
utf16_take n (String.◌∷◌ c s) =
    let rest = utf16_take (n - units c) s in
    if n == 0
    then String.[]
    else if ltb n (units c)
    then String.◌∷◌ "�" String.[]
    else String.◌∷◌ c rest

-- The first `n` characters.
abbrev pub text_take : ℕ → String → String
text_take zero s = String.[]
text_take (suc n) String.[] = String.[]
text_take (suc n) (String.◌∷◌ c s) = String.◌∷◌ c (text_take n s)

-- The white space of `trim` and of `\s`.
unfoldable pub is_space : Char → Bool
is_space c =
    (leb 9 (code c) && leb (code c) 13)
    || code c == 32
    || code c == 160
    || code c == 5760
    || (leb 8192 (code c) && leb (code c) 8202)
    || code c == 8232
    || code c == 8233
    || code c == 8239
    || code c == 8287
    || code c == 12288
    || code c == 65279

-- `!s.trim()`
unfoldable pub is_blank : String → Bool
unfolding is_space
is_blank String.[] = true
is_blank (String.◌∷◌ c s) = is_space c && is_blank s

unfoldable pub skip_space : String → String
unfolding is_space
skip_space String.[] = String.[]
skip_space (String.◌∷◌ c s) = let rest = skip_space s in if is_space c then rest else String.◌∷◌ c s

unfoldable pub trim_end : String → String
unfolding is_space
trim_end String.[] = String.[]
trim_end (String.◌∷◌ c s) =
    let rest = trim_end s in if is_space c && rest =ₛ "" then "" else String.◌∷◌ c rest

unfoldable pub trim : String → String
unfolding skip_space trim_end
trim s = trim_end (skip_space s)

-- `value.replaceAll(c, by)`
unfoldable pub replace_all : Char → String → String → String
replace_all c by String.[] = String.[]
replace_all c by (String.◌∷◌ d s) =
    let rest = replace_all c by s in if code d == code c then by +ₛ rest else String.◌∷◌ d rest

-- How often the character numbered `n` occurs.
abbrev pub count_code : ℕ → String → ℕ
count_code n String.[] = 0
count_code n (String.◌∷◌ c s) = let rest = count_code n s in if code c == n then suc rest else rest
