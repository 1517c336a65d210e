-- ===== src/Sessions/Deadline.antt =====
-- How long a session lives: its deadline, followed through the calls without the store.
use aggregator_dpg.Prelude.{
  ℕ, ◌+◌, String, Bool, true, false, Option, none, some, List, [], ◌∷◌, ltb, leb, ◌=ₛ◌,
  if◌then◌else◌,
}
use aggregator_dpg.Prelude.JsMap
use aggregator_dpg.Prelude.Result.{Result, ok, err}
use aggregator_dpg.Sessions.{SessionError, Entry, Store, get}
use aggregator_dpg.Sessions.Live.{Call, gets, updates, creates, destroys, run, target}

-- The deadline of a session after a call on it at `now`, where a session lives for `life` from each
-- touch: a read in time moves it, a late one ends the session; an update moves it at any time.
abbrev pub touched : ℕ → Call → ℕ → Option ℕ → Option ℕ
touched life (gets k) now none = none
touched life (gets k) now (some deadline) = if ltb deadline now then none else some (now + life)
touched life (updates k patch) now none = none
touched life (updates k patch) now (some deadline) = some (now + life)
touched life (creates d k) now deadline = some (now + life)
touched life (destroys k) now deadline = none

abbrev pub deadline_after : String → ℕ → List (Call × ℕ) → Option ℕ → Option ℕ
deadline_after sid life [] deadline = deadline
deadline_after sid life ((c, now) ∷ calls) deadline =
    deadline_after sid life calls
      (if target c =ₛ sid then touched life c now deadline else deadline)

-- The store after calls, each at its time.
abbrev pub run_all : List (Call × ℕ) → Store → Store
run_all [] s = s
run_all ((c, now) ∷ calls) s = run_all calls (run c now s)

abbrev pub deadline_of : Option Entry → Option ℕ
deadline_of none = none
deadline_of (some entry) = some entry.expires_at

abbrev pub is_alive : Option ℕ → ℕ → Bool
is_alive none now = false
is_alive (some deadline) now = leb now deadline

abbrev pub is_ok : {A : Type 0} → Result SessionError A → Bool
is_ok (ok a) = true
is_ok (err e) = false

abbrev deadline_in : String → Store → Option ℕ
deadline_in sid s = deadline_of (JsMap.get s.store sid)
