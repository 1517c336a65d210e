-- ===== src/Prelude/Result.antt =====
-- A result with an error: `{ ok: true; value }` or `{ ok: false; error }`.
pub data Result {ℓ} (E A : Type ℓ) : Type ℓ where
  ok : A → Result E A
  err : E → Result E A
