-- ===== src/CampaignWorker/Effects/Ensures.antt =====
-- What an action that returns has established, where an action throws only if an access of the
-- tables is rejected.
use aggregator_dpg.Prelude.{ℕ, ◌≤◌, ◌<◌, arith, [], ◌∷◌}
use aggregator_dpg.CampaignWorker.Types.{Tables}
use aggregator_dpg.CampaignWorker.Effects.{
  Outcome, done, threw, Access, answered, rejected, table_rejected, settled, noted, written,
  Outside, State, Action, pure, and_then, ◌>>=◌, read, write,
}
use aggregator_dpg.CampaignWorker.Effects.OnTables.{rejections, rejections-append}

-- The action returned with `Q` and lost no rejection, or threw and an access was rejected.
abbrev pub Ensured : {W A : Type 0} → (A → Tables → Type 0) → State W → Outcome A × State W → Type 0
Ensured Q s (done a, t) = Q a t.tables × (rejections s.trace ≤ rejections t.trace)
Ensured Q s (threw e, t) = rejections s.trace < rejections t.trace

pub record Ensures {W A : Type 0} (P : Tables → Type 0) (Q : A → Tables → Type 0) (m : Action W A)
    : Type 0 where
  pub ensures : (s : State W) → P s.tables → Ensured Q s (m s)

module _ {W : Type 0} where
  Ensured-from :
      {A : Type 0} (Q : A → Tables → Type 0) (s t : State W) (m : Outcome A × State W)
      → rejections s.trace ≤ rejections t.trace
      → Ensured Q t m
      → Ensured Q s m
  Ensured-from Q s t (done a, u) le h = (h.0, omega (arith, le, h.1))
  Ensured-from Q s t (threw e, u) le h = omega (arith, le, h)

  -- The rejections are only ever added to.
  pub Ensured-le :
      {A : Type 0} (Q : A → Tables → Type 0) (s : State W) (m : Outcome A × State W)
      → Ensured Q s m
      → rejections s.trace ≤ rejections m.1.trace
  Ensured-le Q s (done a, u) h = h.1
  Ensured-le Q s (threw e, u) h = omega (arith, h)

  module _ {A B : Type 0} {Q : A → Tables → Type 0} {R : B → Tables → Type 0} where
    and_then-Ensured :
        (f : A → Action W B)
        → ((a : A) → Ensures (Q a) R (f a))
        → (s : State W) (r : Outcome A) (t : State W) → Ensured Q s (r, t)
        → Ensured R s (and_then r f t)
    and_then-Ensured f hf s (done a) t h = Ensured-from R s t (f a t) h.1 ((hf a).ensures t h.0)
    and_then-Ensured f hf s (threw e) t h = h

    pub bind-Ensures :
        {P : Tables → Type 0} {m : Action W A} {f : A → Action W B}
        → Ensures P Q m
        → ((a : A) → Ensures (Q a) R (f a))
        → Ensures P R (m >>= f)
    bind-Ensures {P} {m} {f} hm hf = record {
      ensures = λ s p. and_then-Ensured f hf s (m s).0 (m s).1 (hm.ensures s p);
    }

  pub pure-Ensures :
      {A : Type 0} (P : Tables → Type 0) (Q : A → Tables → Type 0) (a : A)
      → ((t : Tables) → P t → Q a t)
      → Ensures P Q (pure {W = W} a)
  pure-Ensures P Q a h = record { ensures = λ s p. (h s.tables p, omega arith) }

  -- One access of the tables, which leaves `new`.
  access-Ensured :
      {A : Type 0} (Q : A → Tables → Type 0) (s : State W) (a : Access) (w : W) (x : A)
      (new : Tables)
      → Q x new
      → Ensured Q s (
        settled a x,
        record s { tables = written a s.tables new; world = w; trace = noted a s.trace },
      )
  access-Ensured Q s answered w x new q = (q, omega arith)
  access-Ensured Q s (rejected committed e) w x new q =
      omega (arith, rejections-append s.trace (table_rejected ∷ []))

  pub write-Ensures :
      (P Q : Tables → Type 0) (o : Outside W) (f : ℕ → Tables → Tables)
      → ((now : ℕ) (t : Tables) → P t → Q (f now t))
      → Ensures P (λ _. Q) (write o f)
  unfolding write
  write-Ensures P Q o f h = record {
    ensures = λ s p.
        access-Ensured (λ _. Q) s (o.access s.world).0 (o.access s.world).1 tt _
          (h (o.clock s.world) s.tables p);
  }

  read-Ensured :
      {A : Type 0} (Q : A → Tables → Type 0) (s : State W) (a : Access) (w : W) (x : A)
      → Q x s.tables
      → Ensured Q s (settled a x, record s { world = w; trace = noted a s.trace })
  read-Ensured Q s answered w x q = (q, omega arith)
  read-Ensured Q s (rejected committed e) w x q =
      omega (arith, rejections-append s.trace (table_rejected ∷ []))

  pub read-Ensures :
      {A : Type 0} (P : Tables → Type 0) (Q : A → Tables → Type 0) (o : Outside W) (f : Tables → A)
      → ((t : Tables) → P t → Q (f t) t)
      → Ensures P Q (read o f)
  unfolding read
  read-Ensures P Q o f h = record {
    ensures = λ s p.
        read-Ensured Q s (o.access s.world).0 (o.access s.world).1 (f s.tables) (h s.tables p);
  }
