-- ===== src/Consent/Append.antt =====
-- The ledger only grows, at its end.
use text.Mathlib.TextLemmas.{append_cancel_left}
use mathlib.Core.List.{append-nil, append_assoc}
use aggregator_dpg.Prelude.{
  ℕ, suc, ◌<◌, String, ◌≡◌, sym, ap, ◌∙◌, inl, inr, none, some, List, [], ◌∷◌, ◌++◌, arith,
  Option-cases,
}
use aggregator_dpg.Prelude.Decimal.{decimal, decimal-injective}
use aggregator_dpg.Prelude.JsMap
use aggregator_dpg.Consent.{
  RecordConsentInput, ConsentRecord, Ledger, empty, consent_id, new_record,
  record_registration_consent, list,
}

-- Every key is the id of a number that the counter has passed.
pub record IsNumbered (s : Ledger) : Type 0 where
  pub at :
      (k : String) (row : ConsentRecord)
      → JsMap.get s.rows k ≡ some row
      → (n : ℕ) × (n < s.next_id) × (k ≡ consent_id n)

pub IsNumbered-empty : IsNumbered empty
unfolding JsMap.get
IsNumbered-empty = record { at = λ k row e. cc }

consent_id-injective : (m n : ℕ) → consent_id m ≡ consent_id n → m ≡ n
unfolding consent_id
consent_id-injective m n e =
    decimal-injective m n (append_cancel_left "mem-consent-" (decimal m) (decimal n) e)

next_is_new : (s : Ledger) → IsNumbered s → JsMap.get s.rows (consent_id s.next_id) ≡ none
next_is_new s v = elim (Option-cases (JsMap.get s.rows (consent_id s.next_id))) [
  | inl e ↦ e
  | inr (row, e) ↦
      (let (n, below, same) = v.at (consent_id s.next_id) row e in
        let eq = consent_id-injective s.next_id n same in absurd (omega (arith, below, eq)))
]

-- The ledger after one more record, and its answer.
abbrev pub after : RecordConsentInput → Ledger → Ledger
after input s = (record_registration_consent {E = Unit {0}} input s).1

after-IsNumbered :
    (input : RecordConsentInput) (s : Ledger) → IsNumbered s → IsNumbered (after input s)
unfolding record_registration_consent new_record
after-IsNumbered input s v = record {
  at = λ k row e.
      elim (JsMap.get-set_cases s.rows (consent_id s.next_id) k (new_record input s.next_id) e) [
        | inl (same, new) ↦ (s.next_id, omega arith, sym same)
        | inr (other, old) ↦
            (let (n, below, same) = v.at k row old in (n, omega (arith, below), same))
      ];
}

-- The records of so many inputs, numbered from `n`.
abbrev pub numbered : List RecordConsentInput → ℕ → List ConsentRecord
numbered [] n = []
numbered (input ∷ inputs) n = new_record input n ∷ numbered inputs (suc n)

abbrev pub after_all : List RecordConsentInput → Ledger → Ledger
after_all [] s = s
after_all (input ∷ inputs) s = after_all inputs (after input s)

list-after :
    (input : RecordConsentInput) (s : Ledger)
    → IsNumbered s
    → list (after input s) ≡ list s ++ new_record input s.next_id ∷ []
unfolding list record_registration_consent new_record
list-after input s v =
    JsMap.values-set_new s.rows (consent_id s.next_id) (new_record input s.next_id)
      (next_is_new s v)

-- Recording consents one after the other leaves the records that were there, in their places, and
-- adds one record for each input behind them, in the order of the calls, with consecutive ids.
pub list-after_all :
    (inputs : List RecordConsentInput) (s : Ledger)
    → IsNumbered s
    → list (after_all inputs s) ≡ list s ++ numbered inputs s.next_id
unfolding record_registration_consent
list-after_all [] s v = sym (append-nil (list s))
list-after_all (input ∷ inputs) s v =
    list-after_all inputs (after input s) (after-IsNumbered input s v)
    ∙ ap (λ l. l ++ numbered inputs (suc s.next_id)) (list-after input s v)
    ∙ append_assoc (list s) (new_record input s.next_id ∷ []) (numbered inputs (suc s.next_id))
