-- ===== src/CampaignWorker/Effects/Rules.antt =====
-- What every action of a kind does to the state: a relation between the state before and after that
-- is kept along `>>=` and along loops, however the action ends.
use aggregator_dpg.Prelude.{Bool, true, false, List, [], ◌∷◌, if◌then◌else◌}
use aggregator_dpg.CampaignWorker.Types.{Failure}
use aggregator_dpg.CampaignWorker.Effects.{
  Outcome, throw, for_each, ◌>>=◌, done, and_then, Failure, State, threw, ◌>>◌, pure, Action,
  try_catch,
}

-- A relation on states that holds of a state and itself, and along two steps.
pub record Order (W : Type 0) (R : State W → State W → Type 0) : Type 0 where
  pub same : (s : State W) → R s s
  pub then_ : (s t u : State W) → R s t → R t u → R s u

-- However the action ends, the state after stands in `R` to the state before.
pub record Keeps {W A : Type 0} (R : State W → State W → Type 0) (m : Action W A) : Type 0 where
  pub keeps : (s : State W) → R s (m s).1

module _ {W : Type 0} {R : State W → State W → Type 0} (order : Order W R) where
  pub pure-Keeps : {A : Type 0} (a : A) → Keeps R (pure a)
  pure-Keeps a = record { keeps = λ s. order.same s }

  pub throw-Keeps : {A : Type 0} (e : Failure) → Keeps {A = A} R (throw e)
  throw-Keeps e = record { keeps = λ s. order.same s }

  module _ {A B : Type 0} where
    and_then-Keeps :
        (r : Outcome A) (f : A → Action W B)
        → ((a : A) → Keeps R (f a))
        → (s : State W) → R s (and_then r f s).1
    and_then-Keeps (done a) f h s = (h a).keeps s
    and_then-Keeps (threw e) f h s = order.same s

    pub bind-Keeps :
        {m : Action W A} {f : A → Action W B}
        → Keeps R m
        → ((a : A) → Keeps R (f a))
        → Keeps R (m >>= f)
    bind-Keeps {m} {f} hm hf = record {
      keeps = λ s.
          let (r, t) = m s in
          order.then_ s t (and_then r f t).1 (hm.keeps s) (and_then-Keeps r f hf t);
    }

    pub then-Keeps : {m : Action W A} {n : Action W B} → Keeps R m → Keeps R n → Keeps R (m >> n)
    then-Keeps hm hn = bind-Keeps hm (λ _. hn)

  pub for_each-Keeps :
      {A : Type 0} (xs : List A) {body : A → Action W (Unit {0})}
      → ((x : A) → Keeps R (body x))
      → Keeps R (for_each xs body)
  unfolding for_each
  for_each-Keeps [] h = pure-Keeps tt
  for_each-Keeps (x ∷ xs) h = then-Keeps (h x) (for_each-Keeps xs h)

  module _ {A : Type 0} where
    abbrev caught : (Failure → Action W A) → Outcome A → Action W A
    caught handler r s = elim r [ done a ↦ (done a, s) | threw e ↦ handler e s ]

    caught-Keeps :
        (r : Outcome A) (handler : Failure → Action W A)
        → ((e : Failure) → Keeps R (handler e))
        → (s : State W) → R s (caught handler r s).1
    caught-Keeps (done a) handler h s = order.same s
    caught-Keeps (threw e) handler h s = (h e).keeps s

    pub try_catch-Keeps :
        {m : Action W A} {handler : Failure → Action W A}
        → Keeps R m
        → ((e : Failure) → Keeps R (handler e))
        → Keeps R (try_catch m handler)
    try_catch-Keeps {m} {handler} hm hh = record {
      keeps = λ s.
          let (r, t) = m s in
          order.then_ s t (caught handler r t).1 (hm.keeps s) (caught-Keeps r handler hh t);
    }

  pub if-Keeps :
      {A : Type 0} (c : Bool) {m n : Action W A}
      → Keeps R m
      → Keeps R n
      → Keeps R (if c then m else n)
  if-Keeps true hm hn = hm
  if-Keeps false hm hn = hn
