-- ===== src/CampaignWorker/Effects/OnTables.antt =====
-- Relations between the states before and after an action.
use aggregator_dpg.Prelude.{ℕ, ◌+◌, ◌≤◌, String, ◌≡◌, true, false, List, [], ◌∷◌, ◌++◌, arith}
use aggregator_dpg.CampaignWorker.Types.{Tables}
use aggregator_dpg.CampaignWorker.Client.Forward.{
  Handles, Handles-refl, Handles-trans, Forward, Forward-refl, Forward-trans, Handles→Forward,
}
use aggregator_dpg.CampaignWorker.Effects.{
  Outcome, Event, table_rejected, Access, answered, rejected, noted, written, Outside, State,
  Action, call, ask, read, write,
}
use aggregator_dpg.CampaignWorker.Effects.Rules.{Order, Keeps}

abbrev pub weight : Event → ℕ
weight table_rejected = 1
weight _ = 0

-- How many accesses of the tables were rejected.
abbrev pub rejections : List Event → ℕ
rejections [] = 0
rejections (e ∷ es) = weight e + rejections es

pub rejections-append : (es fs : List Event) → rejections (es ++ fs) ≡ rejections es + rejections fs
rejections-append [] fs = omega arith
rejections-append (e ∷ es) fs = omega (arith, rejections-append es fs)

pub noted-le : (a : Access) (es : List Event) → rejections es ≤ rejections (noted a es)
noted-le answered es = omega arith
noted-le (rejected committed e) es = omega (arith, rejections-append es (table_rejected ∷ []))

abbrev pub OnTables : {W : Type 0} → (Tables → Tables → Type 0) → State W → State W → Type 0
OnTables R s t = R s.tables t.tables

-- The writes are within `Handles`, and no rejection is lost.
abbrev pub Within : {W : Type 0} → String → State W → State W → Type 0
Within job_id s t = Handles job_id s.tables t.tables × (rejections s.trace ≤ rejections t.trace)

-- A rejected write has left the tables or not.
written-Related :
    (R : Tables → Tables → Type 0) (a : Access) (old new : Tables)
    → R old old
    → R old new
    → R old (written a old new)
written-Related R answered old new same step = step
written-Related R (rejected true e) old new same step = step
written-Related R (rejected false e) old new same step = same

module _ {W : Type 0} (job_id : String) where
  pub Within-Order : Order W (Within job_id)
  Within-Order = record {
    same = λ s. (Handles-refl job_id s.tables, omega arith);
    then_ = λ s t u p q.
        (Handles-trans job_id s.tables t.tables u.tables p.0 q.0, omega (arith, p.1, q.1));
  }

  pub Forward-Order : Order W (OnTables (Forward job_id))
  Forward-Order = record {
    same = λ s. Forward-refl job_id s.tables;
    then_ = λ s t u. Forward-trans job_id s.tables t.tables u.tables;
  }

  -- A call of a collaborator leaves the tables.
  pub call-Within :
      {A : Type 0} (event : Outcome A → Event) (f : W → Outcome A × W)
      → Keeps (Within job_id) (call event f)
  unfolding call
  call-Within event f = record {
    keeps = λ s. (
      Handles-refl job_id s.tables,
      omega (arith, rejections-append s.trace (event (f s.world).0 ∷ [])),
    );
  }

  pub ask-Within : {A : Type 0} (f : W → Outcome A × W) → Keeps (Within job_id) (ask f)
  unfolding ask
  ask-Within f = record { keeps = λ s. (Handles-refl job_id s.tables, omega arith) }

  pub write-Within :
      (o : Outside W) (f : ℕ → Tables → Tables)
      → ((now : ℕ) (t : Tables) → Handles job_id t (f now t))
      → Keeps (Within job_id) (write o f)
  unfolding write
  write-Within o f h = record {
    keeps = λ s. (
      written-Related (Handles job_id) (o.access s.world).0 s.tables _
          (Handles-refl job_id s.tables) (h (o.clock s.world) s.tables),
      noted-le (o.access s.world).0 s.trace,
    );
  }

  pub write-Forward :
      (o : Outside W) (f : ℕ → Tables → Tables)
      → ((now : ℕ) (t : Tables) → Forward job_id t (f now t))
      → Keeps (OnTables (Forward job_id)) (write o f)
  unfolding write
  write-Forward o f h = record {
    keeps = λ s.
        written-Related (Forward job_id) (o.access s.world).0 s.tables _
          (Forward-refl job_id s.tables) (h (o.clock s.world) s.tables);
  }

  pub read-Forward :
      {A : Type 0} (o : Outside W) (f : Tables → A) → Keeps (OnTables (Forward job_id)) (read o f)
  unfolding read
  read-Forward o f = record { keeps = λ s. Forward-refl job_id s.tables }

  pub Keeps→Forward :
      {A : Type 0} (m : Action W A) → Keeps (Within job_id) m → Keeps (OnTables (Forward job_id)) m
  Keeps→Forward m h = record {
    keeps = λ s. Handles→Forward job_id s.tables (m s).1.tables (h.keeps s).0;
  }
