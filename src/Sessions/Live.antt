-- ===== src/Sessions/Live.antt =====
-- A call on one session leaves the others.
use aggregator_dpg.Prelude.{
  ℕ, String, ◌≡◌, refl, ◌≢◌, inl, inr, false, arith, eq_iff, ltb, ◌=ₛ◌, Bool-cases, Option-cases,
}
use aggregator_dpg.Prelude.JsMap
use aggregator_dpg.Sessions.{SessionData, SessionPatch, Store, expiry, create, get, update, destroy}

-- A call of a method on the store.
pub data Call : Type 0 where
  gets : String → Call
  updates : String → SessionPatch → Call
  creates : SessionData → String → Call
  destroys : String → Call

-- The state after a call at a time.
abbrev pub run : Call → ℕ → Store → Store
run (gets sid) now s = (get sid now s).1
run (updates sid patch) now s = (update sid patch now s).1
run (creates d sid) now s = (create d sid now s).1
run (destroys sid) now s = destroy sid s

abbrev pub target : Call → String
target (gets sid) = sid
target (updates sid patch) = sid
target (creates d sid) = sid
target (destroys sid) = sid

apart : (sid k : String) → k ≢ sid → (sid =ₛ k) ≡ false
apart sid k other = ground (arith, eq_iff sid k)

get-others :
    (sid : String) (now : ℕ) (s : Store) (k : String)
    → k ≢ sid
    → JsMap.get (get sid now s).1.store k ≡ JsMap.get s.store k
unfolding get
get-others sid now s k other = elim (Bool-cases (sid =ₛ "")) [
  | inl e ↦ rw (e, get) refl
  | inr e ↦ elim (Option-cases (JsMap.get s.store sid)) [
    | inl none_at ↦ rw (e, get) (rw none_at refl)
    | inr (entry, at) ↦ elim (Bool-cases (ltb entry.expires_at now)) [
      | inl t ↦ rw (e, get) (rw at (rw t (rw (JsMap.get-delete, apart sid k other) refl)))
      | inr t ↦ rw (e, get) (rw at (rw t (rw (JsMap.get-set, apart sid k other) refl)))
    ]
  ]
]

update-others :
    (sid : String) (patch : SessionPatch) (now : ℕ) (s : Store) (k : String)
    → k ≢ sid
    → JsMap.get (update sid patch now s).1.store k ≡ JsMap.get s.store k
unfolding update
update-others sid patch now s k other = elim (Option-cases (JsMap.get s.store sid)) [
  | inl none_at ↦ rw (none_at, update) refl
  | inr (entry, at) ↦ rw (at, update) (rw (JsMap.get-set, apart sid k other) refl)
]

-- A call on one session leaves the others as they were.
pub run-others :
    (c : Call) (now : ℕ) (s : Store) (k : String)
    → k ≢ target c
    → JsMap.get (run c now s).store k ≡ JsMap.get s.store k
unfolding create destroy
run-others (gets sid) now s k other = get-others sid now s k other
run-others (updates sid patch) now s k other = update-others sid patch now s k other
run-others (creates d sid) now s k other = ground (
  arith,
  JsMap.get-set s.store sid k (record { data_of = d; expires_at = expiry now s }),
  eq_iff sid k,
)
run-others (destroys sid) now s k other =
    ground (arith, JsMap.get-delete s.store sid k, eq_iff sid k)
