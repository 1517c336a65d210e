-- ===== src/Sessions.antt =====
-- The in-memory session store of the portal: apps/web/src/lib/session/{interface,memory}.ts. Times
-- are milliseconds; the clock and the id that `randomUUID` makes are arguments of the calls, and a
-- call reads the clock once.
pub mod Live
pub mod Deadline
mod Tests
use Prim.Native.String.{◌++◌ as ◌+ₛ◌}
use aggregator_dpg.Prelude.{ℕ, ◌+◌, ◌*◌, String, Option, none, some, [], ltb, ◌=ₛ◌, if◌then◌else◌}
use aggregator_dpg.Prelude.JsMap
use aggregator_dpg.Prelude.JsMap.{JsMap}
use aggregator_dpg.Prelude.Result.{Result, ok, err}

pub record SessionData : Type 0 where
  pub sub : String
  pub email : Option String
  pub phone : Option String
  pub name : Option String
  pub access_token : String
  pub refresh_token : String
  pub id_token : String
  pub access_token_exp : ℕ
  pub refresh_token_exp : ℕ
  pub created_at : ℕ
  pub last_seen_at : ℕ

-- `Partial<SessionData>`: `none` is a field that is not there. A present optional field is set to
-- its value, so the inner option of `email`, `phone` and `name` is undefined. `lastSeenAt` is
-- always written over.
pub record SessionPatch : Type 0 where
  pub sub : Option String
  pub email : Option (Option String)
  pub phone : Option (Option String)
  pub name : Option (Option String)
  pub access_token : Option String
  pub refresh_token : Option String
  pub id_token : Option String
  pub access_token_exp : Option ℕ
  pub refresh_token_exp : Option ℕ
  pub created_at : Option ℕ

pub data SessionErrorCode : Type 0 where
  not_found store_unavailable corrupt : SessionErrorCode

pub record SessionError : Type 0 where
  pub code : SessionErrorCode
  pub message : String

abbrev pub SessionResult : Type 0 → Type 0
SessionResult A = Result SessionError A

pub record Entry : Type 0 where
  pub data_of : SessionData
  pub expires_at : ℕ

-- The state of `MemorySessionStore`.
pub record Store : Type 0 where
  pub store : JsMap Entry
  pub ttl_sec : ℕ

-- The constructor: twelve hours where no time is given.
unfoldable pub new_store : Option ℕ → Store
new_store none = record { store = []; ttl_sec = 60 * 60 * 12 }
new_store (some ttl) = record { store = []; ttl_sec = ttl }

abbrev pub expiry : ℕ → Store → ℕ
expiry now s = now + s.ttl_sec * 1000

unfoldable pub create : SessionData → String → ℕ → Store → String × Store
unfolding JsMap.set
create data_of sid now s = (
  sid,
  record s {
    store = JsMap.set s.store sid (record { data_of = data_of; expires_at = expiry now s });
  },
)

abbrev pub missing : {A : Type 0} → String → Result SessionError A
missing message = err (record { code = not_found; message = message })

abbrev pub or_default {ℓ} : {A : Type ℓ} → Option A → A → A
or_default none d = d
or_default (some x) d = x

unfoldable pub get : String → ℕ → Store → SessionResult SessionData × Store
unfolding JsMap.get JsMap.set JsMap.delete
get sid now s = if sid =ₛ "" then (missing "empty sid", s) else (elim (JsMap.get s.store sid) [
  | none ↦ (missing ("session " +ₛ (sid +ₛ " not found")), s)
  | some entry ↦
      if ltb entry.expires_at now
      then (
        missing ("session " +ₛ (sid +ₛ " expired")),
        record s { store = JsMap.delete s.store sid },
      )
      else (
        ok entry.data_of,
        record s { store = JsMap.set s.store sid (record entry { expires_at = expiry now s }) },
      )
])

-- `{ ...entry.data, ...patch, lastSeenAt: Date.now() }`
unfoldable pub merged : SessionPatch → ℕ → SessionData → SessionData
merged patch now d = record {
  sub = or_default patch.sub d.sub;
  email = or_default patch.email d.email;
  phone = or_default patch.phone d.phone;
  name = or_default patch.name d.name;
  access_token = or_default patch.access_token d.access_token;
  refresh_token = or_default patch.refresh_token d.refresh_token;
  id_token = or_default patch.id_token d.id_token;
  access_token_exp = or_default patch.access_token_exp d.access_token_exp;
  refresh_token_exp = or_default patch.refresh_token_exp d.refresh_token_exp;
  created_at = or_default patch.created_at d.created_at;
  last_seen_at = now;
}

unfoldable pub update : String → SessionPatch → ℕ → Store → SessionResult (Unit {0}) × Store
unfolding merged JsMap.get JsMap.set
update sid patch now s = elim (JsMap.get s.store sid) [
  | none ↦ (missing ("session " +ₛ (sid +ₛ " not found")), s)
  | some entry ↦ (
    ok tt,
    record s {
      store =
          JsMap.set s.store sid
            (record { data_of = merged patch now entry.data_of; expires_at = expiry now s });
    },
  )
]

unfoldable pub destroy : String → Store → Store
unfolding JsMap.delete
destroy sid s = record s { store = JsMap.delete s.store sid }

unfoldable pub close : Store → Store
close s = record s { store = [] }
