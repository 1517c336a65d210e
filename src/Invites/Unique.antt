-- ===== src/Invites/Unique.antt =====
-- One live invite for each organisation and address.
use aggregator_dpg.Prelude.{
  ℕ, suc, String, ◌≡◌, refl, sym, ap, ◌∙◌, ◌≢◌, inl, inr, Bool, true, false, some, arith, eq_iff,
  eq_refl, ◌=ₛ◌, Bool-cases, Option-cases, any,
}
use mathlib.Core.Path.{subst}
use aggregator_dpg.Prelude.JsMap
use aggregator_dpg.Invites.{
  give_back, renew, pending, consumed, is_pending, RegistrationInviteStatus, RegistrationInvite,
  CreateInviteInput, RefreshInviteInput, Store, empty, is_live, new_invite, create, swap, refresh,
  consume, revoke, release,
}

pub record IsUnique (s : Store) : Type 0 where
  pub at :
      (j k : String) (a b : RegistrationInvite)
      → JsMap.get s.store j ≡ some a
      → JsMap.get s.store k ≡ some b
      → a.parent_org_id ≡ b.parent_org_id
      → a.email ≡ b.email
      → is_pending a.status ≡ true
      → is_pending b.status ≡ true
      → j ≡ k

-- The calls of the methods that write, but `release`.
pub data Step (s u : Store) : Type 0 where
  creates : (input : CreateInviteInput) (now : ℕ) → u ≡ (create input now s).1 → Step s u
  refreshes : (jti : String) (input : RefreshInviteInput) → u ≡ (refresh jti input s).1 → Step s u
  consumes : (jti : String) (now : ℕ) → u ≡ (consume jti now s).1 → Step s u
  revokes : (jti : String) → u ≡ (revoke jti s).1 → Step s u

pub data Reach (s : Store) : Store → Type 0 where
  here : Reach s s
  next : {t u : Store} → Reach s t → Step t u → Reach s u

abbrev org_of : RegistrationInvite → String
org_of inv = inv.parent_org_id

abbrev mail_of : RegistrationInvite → String
mail_of inv = inv.email

module _ (s : Store) (v : IsUnique s) where
  -- No stored invite is live for the address of a new one.
  not_live :
      (input : CreateInviteInput) (k : String) (b : RegistrationInvite)
      → any (is_live input.parent_org_id input.email) (JsMap.values s.store) ≡ false
      → JsMap.get s.store k ≡ some b
      → b.parent_org_id ≡ input.parent_org_id
      → b.email ≡ input.email
      → is_pending b.status ≡ true
      → ⊥
  not_live input k b free eb org mail live = ground (
    arith,
    JsMap.any-values-get (is_live input.parent_org_id input.email) s.store k b free eb,
    eq_iff b.parent_org_id input.parent_org_id,
    eq_iff b.email input.email,
  )

  module _ (input : CreateInviteInput) (now : ℕ)
      (free : any (is_live input.parent_org_id input.email) (JsMap.values s.store) ≡ false) where
    abbrev row : RegistrationInvite
    row = new_invite input now (suc s.seq)

    written :
        (j k : String) (a b : RegistrationInvite)
        → JsMap.get (JsMap.set s.store row.jti row) j ≡ some a
        → JsMap.get (JsMap.set s.store row.jti row) k ≡ some b
        → a.parent_org_id ≡ b.parent_org_id
        → a.email ≡ b.email
        → is_pending a.status ≡ true
        → is_pending b.status ≡ true
        → j ≡ k
    unfolding new_invite
    written j k a b ea eb org mail pa pb = elim (JsMap.get-set_cases s.store row.jti j row ea) [
      | inl (at_j, new_a) ↦ elim (JsMap.get-set_cases s.store row.jti k row eb) [
        | inl (at_k, new_b) ↦ sym at_j ∙ at_k
        | inr (other_k, old_b) ↦ absurd (
            not_live input k b free old_b (sym org ∙ ap org_of new_a) (sym mail ∙ ap mail_of new_a)
              pb)
      ]
      | inr (other_j, old_a) ↦ elim (JsMap.get-set_cases s.store row.jti k row eb) [
        | inl (at_k, new_b) ↦
            absurd
              (not_live input j a free old_a (org ∙ ap org_of new_b) (mail ∙ ap mail_of new_b) pa)
        | inr (other_k, old_b) ↦ v.at j k a b old_a old_b org mail pa pb
      ]
    ]

  create-IsUnique : (input : CreateInviteInput) (now : ℕ) → IsUnique (create input now s).1
  unfolding create new_invite
  create-IsUnique input now =
      elim (Bool-cases (any (is_live input.parent_org_id input.email) (JsMap.values s.store))) [
        | inl e ↦ rw (e, create) v
        | inr e ↦ rw (e, create) (record { at = written input now e })
      ]

  module _ (f : RegistrationInvite → RegistrationInvite) (jti : String)
      (same_org : (row : RegistrationInvite) → (f row).parent_org_id ≡ row.parent_org_id)
      (same_mail : (row : RegistrationInvite) → (f row).email ≡ row.email)
      (row : RegistrationInvite) (found : JsMap.get s.store jti ≡ some row)
      (live : is_pending (f row).status ≡ true → is_pending row.status ≡ true) where
    rewritten :
        (j k : String) (a b : RegistrationInvite)
        → JsMap.get (JsMap.set s.store jti (f row)) j ≡ some a
        → JsMap.get (JsMap.set s.store jti (f row)) k ≡ some b
        → a.parent_org_id ≡ b.parent_org_id
        → a.email ≡ b.email
        → is_pending a.status ≡ true
        → is_pending b.status ≡ true
        → j ≡ k
    rewritten j k a b ea eb org mail pa pb = elim (JsMap.get-set_cases s.store jti j (f row) ea) [
      | inl (at_j, new_a) ↦ elim (JsMap.get-set_cases s.store jti k (f row) eb) [
        | inl (at_k, new_b) ↦ sym at_j ∙ at_k
        | inr (other_k, old_b) ↦
            sym at_j
            ∙ v.at jti k row b found old_b (cc (new_a, org, same_org row))
                (cc (new_a, mail, same_mail row)) (live (cc (new_a, pa))) pb
      ]
      | inr (other_j, old_a) ↦ elim (JsMap.get-set_cases s.store jti k (f row) eb) [
        | inl (at_k, new_b) ↦
            v.at j jti a row old_a found (cc (new_b, org, same_org row))
              (cc (new_b, mail, same_mail row)) pa (live (cc (new_b, pb)))
            ∙ at_k
        | inr (other_k, old_b) ↦ v.at j k a b old_a old_b org mail pa pb
      ]
    ]

  -- A write that keeps the address and makes nothing live.
  swap-IsUnique :
      (asked : RegistrationInviteStatus → Bool) (f : RegistrationInvite → RegistrationInvite)
      (jti : String)
      → ((row : RegistrationInvite) → (f row).parent_org_id ≡ row.parent_org_id)
      → ((row : RegistrationInvite) → (f row).email ≡ row.email)
      → ((row : RegistrationInvite)
          → asked row.status ≡ true
          → is_pending (f row).status ≡ true
          → is_pending row.status ≡ true)
      → IsUnique (swap asked f jti s).1
  unfolding swap
  swap-IsUnique asked f jti org mail live = elim (Option-cases (JsMap.get s.store jti)) [
    | inl e ↦ rw (e, swap) v
    | inr (row, e) ↦ elim (Bool-cases (asked row.status)) [
      | inl t ↦ rw (e, swap) (rw t (record { at = rewritten f jti org mail row e (live row t) }))
      | inr t ↦ rw (e, swap) (rw t v)
    ]
  ]

pub refresh-swap :
    (jti : String) (input : RefreshInviteInput) (s : Store)
    → (refresh jti input s).1 ≡ (swap is_pending (renew input) jti s).1
unfolding refresh
refresh-swap jti input s = ground arith

Step-IsUnique : {s u : Store} → Step s u → IsUnique s → IsUnique u
unfolding refresh consume revoke
Step-IsUnique {s} (creates input now e) v = subst IsUnique (sym e) (create-IsUnique s v input now)
Step-IsUnique {s} (refreshes jti input e) v =
    subst IsUnique (sym (e ∙ refresh-swap jti input s))
      (swap-IsUnique s v is_pending (renew input) jti (λ row. refl) (λ row. refl) (λ row t h. t))
Step-IsUnique {s} (consumes jti now e) v =
    subst IsUnique (sym e)
      (swap-IsUnique s v is_pending _ jti (λ row. refl) (λ row. refl) (λ row t h. t))
Step-IsUnique {s} (revokes jti e) v =
    subst IsUnique (sym e)
      (swap-IsUnique s v is_pending _ jti (λ row. refl) (λ row. refl) (λ row t h. t))

-- From the empty store, whatever calls but `release` are made in whatever order, two live invites
-- never have the same organisation and address.
pub Reach-IsUnique : {s u : Store} → IsUnique s → Reach s u → IsUnique u
Reach-IsUnique v here = v
Reach-IsUnique v (next r st) = Step-IsUnique st (Reach-IsUnique v r)

pub IsUnique-empty : IsUnique empty
unfolding JsMap.get
IsUnique-empty = record { at = λ j k a b ea eb org mail pa pb. cc }

release_lem :
    (s : Store) (j : String) (a : RegistrationInvite)
    → JsMap.get s.store j ≡ some a
    → a.status ≡ consumed
    → (release j s).1 ≡ record s { store = JsMap.set s.store j (give_back a) }
unfolding release swap
release_lem s j a ea used = ground (arith, used)

-- `release` asks nothing of the other invites: where another invite is live for the address of a
-- consumed one, giving the consumed one back leaves two live invites for the address.
pub release-not-IsUnique :
    (s : Store) (j k : String) (a b : RegistrationInvite)
    → JsMap.get s.store j ≡ some a
    → JsMap.get s.store k ≡ some b
    → j ≢ k
    → a.parent_org_id ≡ b.parent_org_id
    → a.email ≡ b.email
    → a.status ≡ consumed
    → b.status ≡ pending
    → ¬ IsUnique (release j s).1
release-not-IsUnique s j k a b ea eb ne org mail used live v =
    let unique = subst IsUnique (release_lem s j a ea used) v in
    let other : (j =ₛ k) ≡ false = ground (arith, eq_iff j k) in
    ne (
      unique.at j k (give_back a) b (rw (JsMap.get-set, eq_refl j) refl)
        (rw (JsMap.get-set, other) eb) org mail refl (rw live refl))
