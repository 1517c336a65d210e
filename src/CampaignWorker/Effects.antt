-- ===== src/CampaignWorker/Effects.antt =====
-- Asynchronous code of the worker: an action reads and writes the tables, calls the outside world,
-- and returns or throws; what it wrote before it threw stays written. A ghost trace records the
-- calls that leave the process, and the accesses of the tables that were rejected.
pub mod Rules
pub mod OnTables
pub mod Ensures
use Prim.Native.String.{String}
use aggregator_dpg.Prelude.{
  ℕ, zero, suc, ◌+◌, ◌-◌, ◌*◌, ◌/◌, ◌%◌, ◌≤◌, ◌<◌, String, ◌≡◌, refl, sym, ap, ◌∙◌, ◌≢◌, ◌↔◌, ◌⊎◌,
  inl, inr, Bool, true, false, not, ◌&&◌, ◌||◌, Option, none, some, List, [], ◌∷◌, ◌++◌, map, arith,
  eq_iff, eq_refl, ltb, leb, ◌==◌, ◌=ₛ◌, if◌then◌else◌, Bool-cases, Option-cases, option_eq,
  option_eq→eq, &&→left, &&→right, length, take, take_all, drop, keep, any, find, last?, All,
  All-append, has_text, text_ne, Ascending,
}
use aggregator_dpg.Prelude.Json.{Json}
use aggregator_dpg.Prelude.Result.{Result}
use aggregator_dpg.CampaignWorker.Types.{
  Tables, DecryptQuery, DecryptedProfiles, Failure, BaseError, SignedUrl, SendInput, CompletedAudit,
  VoiceDispatch, VoiceDispatched,
}

-- How a promise settles.
pub data Outcome (A : Type 0) : Type 0 where
  done : A → Outcome A
  threw : Failure → Outcome A

-- A call that left the process: the link mail of an export job and the mail of a recipient, each
-- with whether the mailer accepted it, and the rest; and an access of the tables that was rejected.
pub data Event : Type 0 where
  decrypted : (job_id : String) (item_ids : List String) → Event
  stored : (job_id key : String) → Event
  link_mailed : (job_id : String) (accepted : Bool) → Event
  campaign_mailed : (job_id item_id : String) (accepted : Bool) → Event
  dispatched : (job_id : String) (refs : List String) (accepted : Bool) → Event
  audited : CompletedAudit → Event
  table_rejected : Event

-- How an access of the tables settles. A write that is rejected may have been committed or not.
pub data Access : Type 0 where
  answered : Access
  rejected : (committed : Bool) → Failure → Access

-- Which lane of several goes on, and whether an error that one threw reaches the caller first.
pub record Turn : Type 0 where
  pub lane : ℕ
  pub delivers : Bool

-- The collaborators of the worker, over the state `W` of the world behind them.
pub record Outside (W : Type 0) : Type 0 where
  pub clock : W → ℕ
  pub access : W → Access × W
  pub turn : W → Turn × W
  pub fetch_decrypted_profiles : DecryptQuery → W → Outcome (Result BaseError DecryptedProfiles) × W
  pub put_object : String → String → String → W → Outcome (Unit {0}) × W
  pub sign_download_url : String → W → Outcome SignedUrl × W
  pub dispatch : VoiceDispatch → W → Outcome (Result BaseError VoiceDispatched) × W
  pub send_mail : SendInput → W → Outcome (Result BaseError String) × W
  pub record_completed : CompletedAudit → W → Outcome (Result BaseError (Unit {0})) × W

pub record State (W : Type 0) : Type 0 where
  pub tables : Tables
  pub world : W
  pub trace : List Event

abbrev pub settled : {A : Type 0} → Access → A → Outcome A
settled answered a = done a
settled (rejected committed e) a = threw e

abbrev pub noted : Access → List Event → List Event
noted answered trace = trace
noted (rejected committed e) trace = trace ++ table_rejected ∷ []

abbrev pub written : Access → Tables → Tables → Tables
written answered old new = new
written (rejected committed e) old new = if committed then new else old

abbrev pub Action : Type 0 → Type 0 → Type 0
Action W A = State W → Outcome A × State W

module _ {W A : Type 0} where
  abbrev pub pure : A → Action W A
  pure a s = (done a, s)

  abbrev pub throw : Failure → Action W A
  throw e s = (threw e, s)

-- `try { body } catch (err) { handler(err) }`
abbrev pub try_catch : {W A : Type 0} → Action W A → (Failure → Action W A) → Action W A
try_catch body handler s =
    let (r, s') = body s in elim r [ done a ↦ (done a, s') | threw e ↦ handler e s' ]

-- `body` without its exception.
abbrev pub attempted : {W A : Type 0} → Action W A → Action W (Outcome A)
attempted body s = let (r, s') = body s in (done r, s')

module _ {W A B : Type 0} where
  abbrev pub and_then : Outcome A → (A → Action W B) → Action W B
  and_then (done a) f = f a
  and_then (threw e) f = throw e

  infixl 5 ◌>>=◌ ◌>>◌
  abbrev pub ◌>>=◌ : Action W A → (A → Action W B) → Action W B
  m >>= f = λ s. let (r, s') = m s in and_then r f s'

  abbrev pub ◌>>◌ : Action W A → Action W B → Action W B
  m >> n = m >>= λ _. n

module _ {W : Type 0} where
  -- `for (const x of xs) await body(x)`
  unfoldable pub for_each : {A : Type 0} → List A → (A → Action W (Unit {0})) → Action W (Unit {0})
  for_each [] body = pure tt
  for_each (x ∷ xs) body = body x >> for_each xs body

  -- A call of a collaborator; the trace gains `event` of its outcome.
  unfoldable pub call : {A : Type 0} → (Outcome A → Event) → (W → Outcome A × W) → Action W A
  call event f s =
      let (r, w) = f s.world in (r, record s { world = w; trace = s.trace ++ event r ∷ [] })

  -- A call that leaves no trace.
  unfoldable pub ask : {A : Type 0} → (W → Outcome A × W) → Action W A
  ask f s = let (r, w) = f s.world in (r, record s { world = w })

  -- A read of the tables by the client.
  unfoldable pub read : {A : Type 0} → Outside W → (Tables → A) → Action W A
  read o f s =
      let (a, w) = o.access s.world in
      (settled a (f s.tables), record s { world = w; trace = noted a s.trace })

  -- A write of the tables by the client, at the present time.
  unfoldable pub write : Outside W → (ℕ → Tables → Tables) → Action W (Unit {0})
  write o f s =
      let (a, w) = o.access s.world in
      (
        settled a tt,
        record s {
          tables = written a s.tables (f (o.clock s.world) s.tables);
          world = w;
          trace = noted a s.trace;
        },
      )
