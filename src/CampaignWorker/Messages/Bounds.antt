-- ===== src/CampaignWorker/Messages/Bounds.antt =====
-- The length of a reason that was cut.
use Prim.Native.String.{◌++◌ as ◌+ₛ◌}
use text.Mathlib.TextLemmas.{nil-append, cons-append}
use aggregator_dpg.Prelude.{ℕ, ◌+◌, ◌-◌, ◌≤◌, String, ◌≡◌, arith, inl, inr, Bool-cases, ltb, ◌==◌}
use aggregator_dpg.Prelude.Texts.{units, utf16_length, utf16_take}
use aggregator_dpg.CampaignWorker.Messages.{truncate_reason}

utf16_length-take : (n : ℕ) (s : String) → utf16_length (utf16_take n s) ≤ n
unfolding utf16_take
utf16_length-take n String.[] = omega arith
utf16_length-take n (String.◌∷◌ c s) =
    let rest = utf16_length-take (n - units c) s in
    elim (Bool-cases (n == 0)) [
      | inl none_left ↦ rw none_left (omega arith)
      | inr some_left ↦ elim (Bool-cases (ltb n (units c))) [
        | inl half ↦ rw (some_left, half) (ground (arith, some_left))
        | inr whole ↦ rw (some_left, whole) (ground (arith, rest, whole))
      ]
    ]

utf16_length-append : (s t : String) → utf16_length (s +ₛ t) ≡ utf16_length s + utf16_length t
utf16_length-append String.[] t = rw (nil-append t) (omega arith)
utf16_length-append (String.◌∷◌ c s) t =
    rw (cons-append c s t) (omega (arith, utf16_length-append s t))

pub truncate_reason-le : (reason : String) → utf16_length (truncate_reason reason) ≤ 500
unfolding truncate_reason
truncate_reason-le reason =
    ground (arith, utf16_length-append (utf16_take 497 reason) "...", utf16_length-take 497 reason)
