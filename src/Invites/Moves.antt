-- ===== src/Invites/Moves.antt =====
-- What a call of the invites store can do to a stored invite.
use aggregator_dpg.Prelude.{
  ℕ, String, ◌≡◌, refl, ap, ◌∙◌, ◌⊎◌, inl, inr, Bool, true, some, arith, eq_iff, ◌=ₛ◌, Bool-cases,
  Option-cases,
}
use aggregator_dpg.Prelude.JsMap
use aggregator_dpg.Invites.{
  pending, consumed, revoked, is_pending, is_consumed, RegistrationInviteStatus, RegistrationInvite,
  RefreshInviteInput, Store, renew, give_back, swap, consume, revoke, release,
}
use aggregator_dpg.Invites.Unique.{Step, creates, refreshes, consumes, revokes, refresh-swap}
use aggregator_dpg.Invites.Lifecycle.{IsNumbered, create_keeps}

-- A call of any method that writes.
pub data Call (s u : Store) : Type 0 where
  writes : Step s u → Call s u
  releases : (jti : String) → u ≡ (release jti s).1 → Call s u

-- What a call can do to the row of an invite.
pub data Moves (row : RegistrationInvite) (after : RegistrationInvite) : Type 0 where
  kept : after ≡ row → Moves row after
  renewed :
      (input : RefreshInviteInput)
      → row.status ≡ pending
      → after ≡ renew input row
      → Moves row after
  claimed :
      (now : ℕ)
      → row.status ≡ pending
      → after ≡ record row { status = consumed; consumed_at = some now }
      → Moves row after
  cancelled : row.status ≡ pending → after ≡ record row { status = revoked } → Moves row after
  given_back : row.status ≡ consumed → after ≡ give_back row → Moves row after

swap_moves :
    (asked : RegistrationInviteStatus → Bool) (f : RegistrationInvite → RegistrationInvite)
    (jti k : String) (s : Store) (row : RegistrationInvite)
    → JsMap.get s.store k ≡ some row
    → (after : RegistrationInvite) × (JsMap.get (swap asked f jti s).1.store k ≡ some after)
      × ((after ≡ row) ⊎ ((asked row.status ≡ true) × (after ≡ f row)))
unfolding swap
swap_moves asked f jti k s row at_k = elim (Option-cases (JsMap.get s.store jti)) [
  | inl e ↦ (row, rw (e, swap) at_k, inl refl)
  | inr (held, e) ↦ elim (Bool-cases (asked held.status)) [
    | inr t ↦ (row, rw (e, swap) (rw t at_k), inl refl)
    | inl t ↦ elim (Bool-cases (jti =ₛ k)) [
      | inr other ↦ (row, rw (e, swap) (rw t (rw (JsMap.get-set, other) at_k)), inl refl)
      | inl same ↦
          (let here : held ≡ row = cc ((eq_iff jti k).0 same, e, at_k) in
            (
              f row,
              rw (e, swap) (rw t (rw (JsMap.get-set, same) (ap (λ r. some (f r)) here))),
              inr (cc (ap asked (ap (λ (r : RegistrationInvite). r.status) here), t), refl),
            ))
    ]
  ]
]

pending_of : (status : RegistrationInviteStatus) → is_pending status ≡ true → status ≡ pending
pending_of status h = ground arith

consumed_of : (status : RegistrationInviteStatus) → is_consumed status ≡ true → status ≡ consumed
consumed_of status h = ground arith

-- Each call leaves every stored invite in place, and either keeps its row, renews or claims or
-- cancels a pending one, or gives back a consumed one: a revoked or expired invite never changes.
pub Call-Moves :
    {s u : Store} (k : String) (row : RegistrationInvite)
    → IsNumbered s
    → Call s u
    → JsMap.get s.store k ≡ some row
    → (after : RegistrationInvite) × (JsMap.get u.store k ≡ some after) × Moves row after
unfolding consume revoke release
Call-Moves {s} k row v (writes (creates input now e)) at_k = (
  row,
  ap (λ (t : Store). JsMap.get t.store k) e ∙ create_keeps s v input now k row at_k,
  kept refl,
)
Call-Moves {s} k row v (writes (refreshes jti input e)) at_k =
    let (after, found, how) = swap_moves is_pending (renew input) jti k s row at_k in
    (
      after,
      ap (λ (t : Store). JsMap.get t.store k) (e ∙ refresh-swap jti input s) ∙ found,
      elim how [
        | inl same ↦ kept same
        | inr (t, new) ↦ renewed input (pending_of row.status t) new
      ],
    )
Call-Moves {s} k row v (writes (consumes jti now e)) at_k =
    let (after, found, how) =
      swap_moves is_pending (λ r. record r { status = consumed; consumed_at = some now }) jti k s
        row at_k in
    (
      after,
      ap (λ (t : Store). JsMap.get t.store k) e ∙ found,
      elim how [ inl same ↦ kept same | inr (t, new) ↦ claimed now (pending_of row.status t) new ],
    )
Call-Moves {s} k row v (writes (revokes jti e)) at_k =
    let (after, found, how) =
      swap_moves is_pending (λ r. record r { status = revoked }) jti k s row at_k in
    (
      after,
      ap (λ (t : Store). JsMap.get t.store k) e ∙ found,
      elim how [ inl same ↦ kept same | inr (t, new) ↦ cancelled (pending_of row.status t) new ],
    )
Call-Moves {s} k row v (releases jti e) at_k =
    let (after, found, how) = swap_moves is_consumed give_back jti k s row at_k in
    (
      after,
      ap (λ (t : Store). JsMap.get t.store k) e ∙ found,
      elim how [ inl same ↦ kept same | inr (t, new) ↦ given_back (consumed_of row.status t) new ],
    )
