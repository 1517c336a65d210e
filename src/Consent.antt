-- ===== src/Consent.antt =====
-- The consent ledger: packages/consent-ledger/src/{interface,memory}.ts.
pub mod Append
mod Tests
use Prim.Native.String.{◌++◌ as ◌+ₛ◌}
use aggregator_dpg.Prelude.{ℕ, suc, String, Option, none, some, List, [], ◌++◌}
use aggregator_dpg.Prelude.Decimal.{decimal}
use aggregator_dpg.Prelude.JsMap
use aggregator_dpg.Prelude.JsMap.{JsMap}
use aggregator_dpg.Prelude.Result.{Result, ok}

pub data SubjectType : Type 0 where
  org aggregator : SubjectType

-- `brand` and `source` may be absent; a null brand is absent too.
pub record RecordConsentInput : Type 0 where
  pub subject_type : SubjectType
  pub subject_id : String
  pub network : String
  pub brand : Option String
  pub terms_version : ℕ
  pub privacy_version : ℕ
  pub source : Option String

pub record ConsentRecord : Type 0 where
  pub id : String
  pub subject_type : SubjectType
  pub subject_id : String
  pub terms_version : ℕ
  pub privacy_version : ℕ
  pub network : String
  pub brand : Option String
  pub source : String
  pub accepted_at : ℕ
  pub created_at : ℕ

-- The state of `InMemoryConsentLedger`.
pub record Ledger : Type 0 where
  pub rows : JsMap ConsentRecord
  pub next_id : ℕ

abbrev pub empty : Ledger
empty = record { rows = []; next_id = 1 }

-- `FIXED_NOW`, 2026-01-01T00:00:00.000Z, in milliseconds.
abbrev pub fixed_now : ℕ
fixed_now = 1767225600000

abbrev pub or_registration : Option String → String
or_registration none = "registration"
or_registration (some source) = source

-- `mem-consent-${n}`
unfoldable pub consent_id : ℕ → String
unfolding decimal
consent_id n = "mem-consent-" +ₛ decimal n

unfoldable pub new_record : RecordConsentInput → ℕ → ConsentRecord
unfolding consent_id
new_record input n = record {
  id = consent_id n;
  subject_type = input.subject_type;
  subject_id = input.subject_id;
  terms_version = input.terms_version;
  privacy_version = input.privacy_version;
  network = input.network;
  brand = input.brand;
  source = or_registration input.source;
  accepted_at = fixed_now;
  created_at = fixed_now;
}

unfoldable pub record_registration_consent :
    {E : Type 0} → RecordConsentInput → Ledger → Result E ConsentRecord × Ledger
unfolding new_record JsMap.set
record_registration_consent input s =
    let row = new_record input s.next_id in
    (ok row, record { rows = JsMap.set s.rows row.id row; next_id = suc s.next_id })

unfoldable pub list : Ledger → List ConsentRecord
unfolding JsMap.values
list s = JsMap.values s.rows
