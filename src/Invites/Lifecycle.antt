-- ===== src/Invites/Lifecycle.antt =====
-- The life of one invite: a claim wins once, and a revoked invite stays revoked.
use aggregator_dpg.Prelude.{
  ℕ, suc, ◌≤◌, String, ◌≡◌, refl, sym, ap, ◌∙◌, ◌≢◌, inl, inr, Bool, false, none, some, arith,
  eq_iff, eq_refl, ◌=ₛ◌, Bool-cases, Option-cases, any,
}
use mathlib.Core.Path.{subst}
use text.Mathlib.TextLemmas.{append_cancel_left}
use aggregator_dpg.Prelude.Decimal.{decimal, decimal-injective}
use aggregator_dpg.Prelude.Result.{ok}
use aggregator_dpg.Prelude.JsMap
use aggregator_dpg.Invites.{
  consumed, is_pending, RegistrationInviteStatus, RegistrationInvite, CreateInviteInput, Store,
  empty, is_live, new_invite, invite_jti, renew, create, swap, consume, revoke,
}
use aggregator_dpg.Invites.Unique.{
  Step, creates, refreshes, consumes, revokes, Reach, here, next, refresh-swap,
}

pub invite_jti-injective : (m n : ℕ) → invite_jti m ≡ invite_jti n → m ≡ n
unfolding invite_jti
invite_jti-injective m n e =
    decimal-injective m n (append_cancel_left "invite-" (decimal m) (decimal n) e)

-- Every stored invite has an id that the counter has passed.
pub record IsNumbered (s : Store) : Type 0 where
  pub at :
      (k : String) (row : RegistrationInvite)
      → JsMap.get s.store k ≡ some row
      → (n : ℕ) × (n ≤ s.seq) × (k ≡ invite_jti n)

pub IsNumbered-empty : IsNumbered empty
unfolding JsMap.get
IsNumbered-empty = record { at = λ k row e. cc }

module _ (s : Store) (v : IsNumbered s) where
  new_id :
      (k : String) (row : RegistrationInvite)
      → JsMap.get s.store k ≡ some row
      → invite_jti (suc s.seq) ≢ k
  new_id k row e same =
      let (n, small, named) = v.at k row e in
      let equal = invite_jti-injective (suc s.seq) n (same ∙ named) in absurd (omega arith)

  create-IsNumbered : (input : CreateInviteInput) (now : ℕ) → IsNumbered (create input now s).1
  unfolding create new_invite
  create-IsNumbered input now =
      elim (Bool-cases (any (is_live input.parent_org_id input.email) (JsMap.values s.store))) [
        | inl e ↦ rw (e, create) v
        | inr e ↦
            rw (e, create)
              (record {
                at = λ k row at_k.
                    elim (JsMap.get-set_cases s.store (invite_jti (suc s.seq)) k _ at_k) [
                      | inl (named, new) ↦ (suc s.seq, omega arith, sym named)
                      | inr (other, old) ↦
                          (let (n, small, named) = v.at k row old in (n, omega arith, named))
                    ];
              })
      ]

  swap-IsNumbered :
      (asked : RegistrationInviteStatus → Bool) (f : RegistrationInvite → RegistrationInvite)
      (jti : String)
      → IsNumbered (swap asked f jti s).1
  unfolding swap
  swap-IsNumbered asked f jti = elim (Option-cases (JsMap.get s.store jti)) [
    | inl e ↦ rw (e, swap) v
    | inr (row, e) ↦ elim (Bool-cases (asked row.status)) [
      | inl t ↦
          rw (e, swap)
            (rw t (record {
              at = λ k b at_k. elim (JsMap.get-set_cases s.store jti k _ at_k) [
                | inl (named, new) ↦
                    (let (n, small, at) = v.at jti row e in (n, small, sym named ∙ at))
                | inr (other, old) ↦ v.at k b old
              ];
            }))
      | inr t ↦ rw (e, swap) (rw t v)
    ]
  ]

  -- An invite that the write does not ask for keeps its row.
  swap_keeps :
      (asked : RegistrationInviteStatus → Bool) (f : RegistrationInvite → RegistrationInvite)
      (jti k : String) (row : RegistrationInvite)
      → JsMap.get s.store k ≡ some row
      → asked row.status ≡ false
      → JsMap.get (swap asked f jti s).1.store k ≡ some row
  unfolding swap
  swap_keeps asked f jti k row at_k passed = elim (Option-cases (JsMap.get s.store jti)) [
    | inl e ↦ rw (e, swap) at_k
    | inr (held, e) ↦ elim (Bool-cases (asked held.status)) [
      | inl t ↦
          rw (e, swap) (rw t (ground (arith, JsMap.get-set s.store jti k (f held), eq_iff jti k)))
      | inr t ↦ rw (e, swap) (rw t at_k)
    ]
  ]

  pub create_keeps :
      (input : CreateInviteInput) (now : ℕ) (k : String) (row : RegistrationInvite)
      → JsMap.get s.store k ≡ some row
      → JsMap.get (create input now s).1.store k ≡ some row
  unfolding create new_invite
  create_keeps input now k row at_k =
      elim (Bool-cases (any (is_live input.parent_org_id input.email) (JsMap.values s.store))) [
        | inl e ↦ rw (e, create) at_k
        | inr e ↦
            (let other : (invite_jti (suc s.seq) =ₛ k) ≡ false =
                ground (arith, eq_iff (invite_jti (suc s.seq)) k, new_id k row at_k) in
              rw (e, create) (rw (JsMap.get-set, other) at_k))
      ]

Step-IsNumbered : {s u : Store} → Step s u → IsNumbered s → IsNumbered u
unfolding consume revoke
Step-IsNumbered {s} (creates input now e) v =
    subst IsNumbered (sym e) (create-IsNumbered s v input now)
Step-IsNumbered {s} (refreshes jti input e) v =
    subst IsNumbered (sym (e ∙ refresh-swap jti input s))
      (swap-IsNumbered s v is_pending (renew input) jti)
Step-IsNumbered {s} (consumes jti now e) v =
    subst IsNumbered (sym e) (swap-IsNumbered s v is_pending _ jti)
Step-IsNumbered {s} (revokes jti e) v =
    subst IsNumbered (sym e) (swap-IsNumbered s v is_pending _ jti)

-- An invite that is not pending keeps its row, through every call but `release`.
Step_keeps :
    {s u : Store} (k : String) (row : RegistrationInvite)
    → IsNumbered s
    → Step s u
    → JsMap.get s.store k ≡ some row
    → is_pending row.status ≡ false
    → JsMap.get u.store k ≡ some row
unfolding consume revoke
Step_keeps {s} k row v (creates input now e) at_k done =
    ap (λ (t : Store). JsMap.get t.store k) e ∙ create_keeps s v input now k row at_k
Step_keeps {s} k row v (refreshes jti input e) at_k done =
    ap (λ (t : Store). JsMap.get t.store k) (e ∙ refresh-swap jti input s)
    ∙ swap_keeps s v is_pending (renew input) jti k row at_k done
Step_keeps {s} k row v (consumes jti now e) at_k done =
    ap (λ (t : Store). JsMap.get t.store k) e ∙ swap_keeps s v is_pending _ jti k row at_k done
Step_keeps {s} k row v (revokes jti e) at_k done =
    ap (λ (t : Store). JsMap.get t.store k) e ∙ swap_keeps s v is_pending _ jti k row at_k done

pub Reach-IsNumbered : {s u : Store} → IsNumbered s → Reach s u → IsNumbered u
Reach-IsNumbered v here = v
Reach-IsNumbered v (next r st) = Step-IsNumbered st (Reach-IsNumbered v r)

Reach_keeps :
    {s u : Store} (k : String) (row : RegistrationInvite)
    → IsNumbered s
    → Reach s u
    → JsMap.get s.store k ≡ some row
    → is_pending row.status ≡ false
    → JsMap.get u.store k ≡ some row
Reach_keeps k row v here at_k done = at_k
Reach_keeps k row v (next r st) at_k done =
    Step_keeps k row (Reach-IsNumbered v r) st (Reach_keeps k row v r at_k done) done

-- A claim that wins finds a pending invite and leaves a consumed one.
consume_won :
    (jti : String) (now : ℕ) (s : Store) (row : RegistrationInvite)
    → (consume jti now s).0 ≡ ok (some row)
    → (JsMap.get (consume jti now s).1.store jti ≡ some row) × (row.status ≡ consumed)
unfolding consume swap
consume_won jti now s row won = elim (Option-cases (JsMap.get s.store jti)) [
  | inl e ↦ ground arith
  | inr (held, e) ↦ ground (
    arith,
    JsMap.get-set s.store jti jti (record held { status = consumed; consumed_at = some now }),
    eq_refl jti,
  )
]

consume_settled :
    (jti : String) (now : ℕ) (s : Store) (row : RegistrationInvite)
    → JsMap.get s.store jti ≡ some row
    → is_pending row.status ≡ false
    → consume jti now s ≡ (ok none, s)
unfolding consume swap
consume_settled jti now s row held done = rw (held, consume, swap) (rw done refl)

-- An invite is claimed once: after a claim that won, and any calls but `release`, every further
-- claim of it is answered with null and changes nothing.
pub consume_once :
    (jti : String) (now later : ℕ) (s u : Store) (row : RegistrationInvite)
    → IsNumbered s
    → (consume jti now s).0 ≡ ok (some row)
    → Reach (consume jti now s).1 u
    → consume jti later u ≡ (ok none, u)
consume_once jti now later s u row v won r =
    let (held, used) = consume_won jti now s row won in
    let done : is_pending row.status ≡ false = rw used refl in
    consume_settled jti later u row
      (Reach_keeps jti row (Step-IsNumbered (consumes jti now refl) v) r held done) done
