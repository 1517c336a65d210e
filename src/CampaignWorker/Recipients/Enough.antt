-- ===== src/CampaignWorker/Recipients/Enough.antt =====
-- The lanes of the sends need no more rounds than `pool_left`.
use native.Mathlib.Nat.{mod-lt}
use aggregator_dpg.Prelude.{
  ℕ, zero, suc, ◌+◌, ◌%◌, ◌≤◌, ◌<◌, String, ◌≡◌, refl, ap, inl, inr, true, ◌&&◌, Option, none, some,
  List, [], ◌∷◌, ◌++◌, arith, ◌==◌, Bool-cases, length, take, drop,
}
use aggregator_dpg.Prelude.Result.{Result, ok, err}
use aggregator_dpg.CampaignTemplate.Mail.{EmailContent, RenderedEmail, MailLibraries}
use aggregator_dpg.CampaignWorker.Types.{ProcessingJob, DecryptedProfile, BaseError}
use aggregator_dpg.CampaignWorker.Chunks.{take-drop, length-drop_pos}
use aggregator_dpg.CampaignWorker.Effects.{
  Outside, Outcome, done, threw, Action, State, and_then, ◌>>=◌, pure, ask,
}
use aggregator_dpg.CampaignWorker.Recipients.{
  Transient, Stage, begins, settles, ends, Shared, Pool, shared_after, after_stage, freed,
  send_rendered, begin_with, beat, settle_send, run_stage, step_lane, run_pool, is_set,
  is_permanent, stages_left, lanes_left, pool_left,
}

-- What an action answers, if it returns.
abbrev Good : {A : Type 0} → (A → Type 0) → Outcome A → Type 0
Good Q (done a) = Q a
Good Q (threw e) = Unit {0}

record Gives {W A : Type 0} (Q : A → Type 0) (m : Action W A) : Type 0 where
  gives : (s : State W) → Good Q (m s).0

module _ {W A B : Type 0} (Q : B → Type 0) where
  and_then-Gives :
      (r : Outcome A) (f : A → Action W B)
      → ((a : A) → Gives Q (f a))
      → (s : State W) → Good Q (and_then r f s).0
  and_then-Gives (done a) f h s = (h a).gives s
  and_then-Gives (threw e) f h s = tt

  bind-Gives : (m : Action W A) (f : A → Action W B) → ((a : A) → Gives Q (f a)) → Gives Q (m >>= f)
  bind-Gives m f h = record { gives = λ s. and_then-Gives (m s).0 f h (m s).1 }

-- The stage behind is shorter.
abbrev Shorter : ℕ → Option Stage → Type 0
Shorter n none = Unit {0}
Shorter n (some stage) = stages_left stage < n

lanes_left-append : (xs ys : List Stage) → lanes_left (xs ++ ys) ≡ lanes_left xs + lanes_left ys
lanes_left-append [] ys = omega arith
lanes_left-append (x ∷ xs) ys = omega (arith, lanes_left-append xs ys)

stages_left-pos : (stage : Stage) → 0 < stages_left stage
stages_left-pos (begins p) = omega arith
stages_left-pos (settles p r) = omega arith
stages_left-pos ends = omega arith

none_left : (lanes : List Stage) → lanes_left lanes ≤ 0 → (length lanes == 0) ≡ true
none_left [] h = refl
none_left (stage ∷ lanes) h = absurd (omega (arith, stages_left-pos stage, h))

freed-less :
    (before after : List Stage) (stage : Stage) (sh : Shared) (pool : Pool)
    (waiting : List DecryptedProfile)
    → before ++ stage ∷ after ≡ pool.lanes
    → waiting ≡ pool.waiting
    → pool_left (freed before after sh pool waiting) < pool_left pool
freed-less before after stage sh pool [] same queue = rw (← same) (
    omega (
      arith,
      lanes_left-append before after,
      lanes_left-append before (stage ∷ after),
      stages_left-pos stage,
    ))
freed-less before after stage sh pool (p ∷ waiting) same queue =
    let longer : suc (length waiting) ≡ length pool.waiting = ap length queue in
    rw (← same) (
      omega (
        arith,
        longer,
        lanes_left-append before (begins p ∷ after),
        lanes_left-append before (stage ∷ after),
        stages_left-pos stage,
      ))

-- A stage leaves less to do.
after_stage-less :
    (before after : List Stage) (stage : Stage) (sh : Shared) (pool : Pool)
    (r : Outcome (Option Stage))
    → before ++ stage ∷ after ≡ pool.lanes
    → Good (Shorter (stages_left stage)) r
    → pool_left (after_stage before after sh pool r) < pool_left pool
unfolding after_stage
after_stage-less before after stage sh pool (threw e) same good = rw (← same) (
    omega (
      arith,
      lanes_left-append before after,
      lanes_left-append before (stage ∷ after),
      stages_left-pos stage,
    ))
after_stage-less before after stage sh pool (done (some next)) same good = rw (← same) (
    omega (
      arith,
      lanes_left-append before (next ∷ after),
      lanes_left-append before (stage ∷ after),
      good,
    ))
after_stage-less before after stage sh pool (done none) same good =
    freed-less before after stage sh pool pool.waiting same refl

module _ {W : Type 0} (o : Outside W) (libraries : MailLibraries) (job : ProcessingJob)
    (content : EmailContent) where
  pure-Shorter :
      (n : ℕ) (next : Option Stage) → Shorter n next → Gives {W = W} (Shorter n) (pure next)
  pure-Shorter n next h = record { gives = λ s. h }

  beat-Gives : (n : ℕ) (sh : Shared) → Gives (Shorter n) (beat o libraries job content sh)
  unfolding beat
  beat-Gives n sh = bind-Gives (Shorter n) _ _ (λ u. pure-Shorter n none tt)

  send_rendered-Gives :
      (p : DecryptedProfile) (address : String) (rendered : Option RenderedEmail)
      → Gives (Shorter 3) (send_rendered o libraries job content p address rendered)
  unfolding send_rendered
  send_rendered-Gives p address none = bind-Gives (Shorter 3) _ _ (λ u. pure-Shorter 3 none tt)
  send_rendered-Gives p address (some rendered) =
      bind-Gives (Shorter 3) _ _ (λ r. pure-Shorter 3 (some (settles p r)) (omega arith))

  begin_with-Gives :
      (p : DecryptedProfile) (address : Option String)
      → Gives (Shorter 3) (begin_with o libraries job content p address)
  unfolding begin_with
  begin_with-Gives p none =
      bind-Gives (Shorter 3) _ _ (λ u. pure-Shorter 3 (some ends) (omega arith))
  begin_with-Gives p (some address) = send_rendered-Gives p address _

  settle_send-Gives :
      (p : DecryptedProfile) (sh : Shared) (r : Result BaseError String)
      → Gives (Shorter 2) (settle_send o libraries job content p sh r)
  unfolding settle_send
  settle_send-Gives p sh (ok message_id) =
      bind-Gives (Shorter 2) _ _ (λ u. pure-Shorter 2 (some ends) (omega arith))
  settle_send-Gives p sh (err e) = elim (Bool-cases (is_permanent e)) [
    | inl h ↦
        rw (h, settle_send)
          (bind-Gives (Shorter 2) _ _ (λ u. pure-Shorter 2 (some ends) (omega arith)))
    | inr h ↦ rw (h, settle_send) (beat-Gives 2 sh)
  ]

  run_stage-Gives :
      (stage : Stage) (sh : Shared)
      → Gives (Shorter (stages_left stage)) (run_stage o libraries job content stage sh)
  unfolding run_stage
  run_stage-Gives (begins p) sh = begin_with-Gives p _
  run_stage-Gives (settles p r) sh = settle_send-Gives p sh r
  run_stage-Gives ends sh = beat-Gives 1 sh

  -- Two ways to go on agree behind a stage if they agree on shorter pools.
  step_lane-agree :
      (f g : Pool → Action W (List Transient)) (before lanes : List Stage) (pool : Pool)
      → before ++ lanes ≡ pool.lanes
      → 0 < length lanes
      → ((next : Pool) (s : State W) → pool_left next < pool_left pool → f next s ≡ g next s)
      → (s : State W)
      → (step_lane o libraries job content before lanes pool >>= f) s
        ≡ (step_lane o libraries job content before lanes pool >>= g) s
  unfolding step_lane
  step_lane-agree f g before [] pool same busy agree s = absurd (omega (arith, busy))
  step_lane-agree f g before (stage ∷ after) pool same busy agree s =
      let sh = shared_after stage pool.shared in
      let m = run_stage o libraries job content stage sh s in
      agree (after_stage before after sh pool m.0) m.1
        (after_stage-less before after stage sh pool m.0 same ((run_stage-Gives stage sh).gives s))

  -- The sends do not depend on the fuel, if it is `pool_left` or more.
  pub run_pool-enough :
      (f g : ℕ) (pool : Pool) (s : State W)
      → pool_left pool ≤ f
      → pool_left pool ≤ g
      → run_pool o libraries job content f pool s ≡ run_pool o libraries job content g pool s
  unfolding run_pool ask
  run_pool-enough zero zero pool s hf hg = refl
  run_pool-enough zero (suc g) pool s hf hg =
      rw (none_left pool.lanes (omega (arith, hf)), run_pool) refl
  run_pool-enough (suc f) zero pool s hf hg =
      rw (none_left pool.lanes (omega (arith, hg)), run_pool) refl
  run_pool-enough (suc f) (suc g) pool s hf hg = elim (Bool-cases (length pool.lanes == 0)) [
    | inl free ↦ rw (free, run_pool) refl
    | inr busy ↦
        let turn = (o.turn s.world).0 in
        let n = length pool.lanes in
        let pos : 0 < n = ground (arith, busy) in
        elim (Bool-cases (turn.delivers && is_set pool.error)) [
          | inl late ↦ rw (busy, run_pool, late) refl
          | inr go ↦
              rw (busy, run_pool, go)
                (step_lane-agree (run_pool o libraries job content f)
                  (run_pool o libraries job content g) (take (turn.lane % n) pool.lanes)
                  (drop (turn.lane % n) pool.lanes) pool (take-drop (turn.lane % n) pool.lanes)
                  (length-drop_pos (turn.lane % n) pool.lanes (mod-lt turn.lane pos))
                  (λ next t less.
                    run_pool-enough f g next t (omega (arith, hf, less)) (omega (arith, hg, less)))
                  _)
        ]
  ]
