-- ===== src/Orgs/Unique.antt =====
-- One live organisation for each slug and each display name.
use mathlib.Core.Path.{subst}
use aggregator_dpg.Prelude.{
  ℕ, String, ◌≡◌, refl, sym, ap, ◌≢◌, inl, inr, Bool, true, none, some, arith, eq_iff, Bool-cases,
  Option-cases, any,
}
use aggregator_dpg.Prelude.JsMap
use aggregator_dpg.Prelude.JsMap.{JsMap}
use aggregator_dpg.Prelude.LiveKeys.{
  HasLiveKeys, HasLiveKeys-insert, HasLiveKeys-rewrite, HasLiveKeys-delete, not-HasLiveKeys-set,
}
use aggregator_dpg.Primitives.Contact.{Platform, contact_id}
use aggregator_dpg.Primitives.Aggregator.{AggregatorStatus, active, inactive, is_pending}
use aggregator_dpg.Orgs.{
  non_terminal, AggregatorOrg, CreateOrgInput, UpdateOrgPatch, Store, empty, delete_by_id, patched,
  update, decided, cas_from_pending, approve, reject, name_key, new_org, takes_slug, takes_name,
  create,
}

abbrev pub is_live : AggregatorOrg → Bool
is_live o = non_terminal o.status

abbrev pub slug_of : AggregatorOrg → String
slug_of o = o.slug

module _ (platform : Platform) where
  abbrev pub name_of : AggregatorOrg → String
  name_of o = name_key platform o.display_name

  pub record IsExclusive (s : Store) : Type 0 where
    pub slugs : HasLiveKeys is_live slug_of s.by_id
    pub names : HasLiveKeys is_live name_of s.by_id

  -- The calls of the methods that write; an update may change neither the status nor the name.
  pub data Step (s u : Store) : Type 0 where
    creates :
        (input : CreateOrgInput) (id : String) (now : ℕ)
        → u ≡ (create platform input id now s).1
        → Step s u
    updates :
        (id : String) (patch : UpdateOrgPatch) (now : ℕ)
        → patch.status ≡ none
        → patch.display_name ≡ none
        → u ≡ (update id patch now s).1
        → Step s u
    approves : (id : String) (now : ℕ) → u ≡ (approve id now s).1 → Step s u
    rejects : (id : String) (now : ℕ) → u ≡ (reject id now s).1 → Step s u
    deletes : (id : String) → u ≡ (delete_by_id id s).1 → Step s u

  pub data Reach (s : Store) : Store → Type 0 where
    here : Reach s s
    next : {t u : Store} → Reach s t → Step t u → Reach s u

  rewrite-IsExclusive :
      (s : Store) (id : String) (old v : AggregatorOrg)
      → JsMap.get s.by_id id ≡ some old
      → v.slug ≡ old.slug
      → v.display_name ≡ old.display_name
      → (is_live v ≡ true → is_live old ≡ true)
      → IsExclusive s
      → IsExclusive (record { by_id = JsMap.set s.by_id id v })
  rewrite-IsExclusive s id old v found slug name live u = record {
    slugs = HasLiveKeys-rewrite is_live slug_of s.by_id id v found slug live u.slugs;
    names =
        HasLiveKeys-rewrite is_live name_of s.by_id id v found (ap (name_key platform) name) live
          u.names;
  }

  create-IsExclusive :
      (s : Store) (input : CreateOrgInput) (id : String) (now : ℕ)
      → IsExclusive s
      → IsExclusive (create platform input id now s).1
  unfolding create new_org
  create-IsExclusive s input id now u =
      elim (Bool-cases (any (takes_slug platform input.slug) (JsMap.values s.by_id))) [
        | inl e ↦ rw (e, create) u
        | inr e ↦
            elim (Bool-cases (
              any (takes_name platform (name_key platform input.display_name))
                (JsMap.values s.by_id))) [
                  | inl f ↦ rw (e, create) (rw f u)
                  | inr f ↦
                      elim (Option-cases
                        (contact_id platform input.owner_email input.owner_phone)) [
                          | inl c ↦ rw (e, create) (rw f (rw c u))
                          | inr (contact, c) ↦
                              rw (e, create)
                                (rw f (
                                  rw c (record {
                                    slugs =
                                        HasLiveKeys-insert is_live slug_of s.by_id id _
                                          (λ k b eb lb same. ground (
                                            arith,
                                            JsMap.any-values-get (takes_slug platform input.slug)
                                                s.by_id k b e eb,
                                            eq_iff b.slug input.slug,
                                          ))
                                          u.slugs;
                                    names =
                                        HasLiveKeys-insert is_live name_of s.by_id id _
                                          (λ k b eb lb same. ground (
                                            arith,
                                            JsMap.any-values-get
                                                (takes_name platform
                                                  (name_key platform input.display_name))
                                                s.by_id k b f eb,
                                            eq_iff (name_key platform b.display_name)
                                                (name_key platform input.display_name),
                                          ))
                                          u.names;
                                  })))
                        ]
                ]
      ]

  update-IsExclusive :
      (s : Store) (id : String) (patch : UpdateOrgPatch) (now : ℕ)
      → patch.status ≡ none
      → patch.display_name ≡ none
      → IsExclusive s
      → IsExclusive (update id patch now s).1
  unfolding update patched
  update-IsExclusive s id patch now es en u = elim (Option-cases (JsMap.get s.by_id id)) [
    | inl e ↦ rw (e, update) u
    | inr (row, e) ↦
        rw (e, update)
          (rewrite-IsExclusive s id row (patched patch now row) e refl (rw en refl) (rw es (λ t. t))
            u)
  ]

  cas-IsExclusive :
      (s : Store) (id : String) (decision : AggregatorStatus) (now : ℕ)
      → IsExclusive s
      → IsExclusive (cas_from_pending id decision now s).1
  unfolding cas_from_pending decided
  cas-IsExclusive s id decision now u = elim (Option-cases (JsMap.get s.by_id id)) [
    | inl e ↦ rw (e, cas_from_pending) u
    | inr (row, e) ↦ elim (Bool-cases (is_pending row.status)) [
      | inl t ↦
          rw (e, cas_from_pending)
            (rw t (
              rewrite-IsExclusive s id row (decided decision now row) e refl refl
                (λ _. pending_live row t) u))
      | inr t ↦ rw (e, cas_from_pending) (rw t u)
    ]
  ]
    where
      pending_live : (row : AggregatorOrg) → is_pending row.status ≡ true → is_live row ≡ true
      pending_live row t = ground arith

  Step-IsExclusive : {s u : Store} → Step s u → IsExclusive s → IsExclusive u
  unfolding approve reject delete_by_id
  Step-IsExclusive {s} (creates input id now e) v =
      subst IsExclusive (sym e) (create-IsExclusive s input id now v)
  Step-IsExclusive {s} (updates id patch now es en e) v =
      subst IsExclusive (sym e) (update-IsExclusive s id patch now es en v)
  Step-IsExclusive {s} (approves id now e) v =
      subst IsExclusive (sym e) (cas-IsExclusive s id active now v)
  Step-IsExclusive {s} (rejects id now e) v =
      subst IsExclusive (sym e) (cas-IsExclusive s id inactive now v)
  Step-IsExclusive {s} (deletes id e) v = subst IsExclusive (sym e) (record {
    slugs = HasLiveKeys-delete is_live slug_of s.by_id id v.slugs;
    names = HasLiveKeys-delete is_live name_of s.by_id id v.names;
  })

  -- Along calls that create, approve, reject or delete organisations, or update them without
  -- changing a status or a name, two live organisations never come to share a slug, nor a display
  -- name up to case and outer blanks.
  pub Reach-IsExclusive : {s u : Store} → IsExclusive s → Reach s u → IsExclusive u
  Reach-IsExclusive v here = v
  Reach-IsExclusive v (next r st) = Step-IsExclusive st (Reach-IsExclusive v r)

  pub IsExclusive-empty : IsExclusive empty
  unfolding JsMap.get
  IsExclusive-empty = record {
    slugs = record { at = λ j k a b ea eb same la lb. cc };
    names = record { at = λ j k a b ea eb same la lb. cc };
  }

  -- `update` asks nothing of the other organisations: a patch that makes an organisation active,
  -- while another live one has its slug, leaves two live ones with one slug.
  pub update-not-IsExclusive :
      (s : Store) (id k : String) (a b : AggregatorOrg) (patch : UpdateOrgPatch) (now : ℕ)
      → JsMap.get s.by_id id ≡ some a
      → JsMap.get s.by_id k ≡ some b
      → id ≢ k
      → a.slug ≡ b.slug
      → is_live b ≡ true
      → patch.status ≡ some active
      → ¬ IsExclusive (update id patch now s).1
  unfolding update patched
  update-not-IsExclusive s id k a b patch now ea eb ne slug live es v =
      not-HasLiveKeys-set is_live slug_of s.by_id id k (patched patch now a) b ne eb slug
        (rw es refl) live (subst (λ u. HasLiveKeys is_live slug_of u.by_id) wrote v.slugs)
    where
      wrote :
          (update id patch now s).1 ≡ record { by_id = JsMap.set s.by_id id (patched patch now a) }
      wrote = rw (ea, update) refl
