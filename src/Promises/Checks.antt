-- ===== src/Promises/Checks.antt =====
-- Which promises pass the checks of create (promise_to_pay.py), with the built-in policy rules.
use voice_os.Prelude.{ℕ, Bool, true, false, ◌&&◌, none, some, ltb, leb, Result, ok, err}
use voice_os.Promises.{EmiTable, next_unpaid_emi}
use voice_os.Promises.Service.{PtpRequest, PtpError, ptp_validation}

-- Is a promise in the future and of at least the next unpaid instalment.
abbrev pub is_sound : PtpRequest → ℕ → EmiTable → Bool
is_sound q now t =
    ltb now q.promise_date.utc_ms && (elim (next_unpaid_emi q.tenant_id q.loan_account_id t) [
      | none ↦ true
      | some emi ↦ leb emi.total_minor q.promised_amount_minor
    ])

abbrev pub passed : Bool → Result PtpError (Unit {0})
passed true = ok tt
passed false = err ptp_validation
