-- ===== src/Examples/Dues.antt =====
-- The theorems about promises and instalments (src/services/collections): a loan account with two
-- instalments, and a caller that asks twice.
use voice_os.Prelude.{
  Key, ℕ, ◌≤◌, ◌≡◌, ◌⊎◌, refl, true, false, none, some, [], ◌∷◌, ◌++◌, length, ok, keep, map, arith,
}
use voice_os.Policy.Tables.{built_in}
use voice_os.Promises.{EmiRow, EmiTable, pending, unpaid_of, calculate_dpd}
use voice_os.Promises.Overdue.{worst, calculate_dpd-worst}
use voice_os.Promises.Service.{
  PromiseToPay, PtpRequest, PtpService, with_key, promise_of, create, validate, check_policy,
  build_idempotency_key,
}
use voice_os.Promises.Once.{key_of, SameBook, create_answers}
use voice_os.Promises.Single.{IsSingle}
use voice_os.Promises.OnDay.{promises_on}
use voice_os.Promises.Book.{opened, asked, announced, promised_once}

abbrev instalment : ℕ → ℕ → EmiRow
instalment number due = record {
  tenant_id = 7;
  loan_account_id = 30;
  entry = record {
    instalment_number = number;
    due_date = due;
    principal_minor = 90_000;
    interest_minor = 10_000;
    total_minor = 100_000;
    paid_minor = 0;
    status = pending;
  };
}

abbrev instalments : EmiTable
instalments = instalment 2 130 ∷ instalment 1 100 ∷ []

abbrev service : PtpService
service = record {
  table = [];
  instalments = instalments;
  policy = some (built_in true false);
  has_publisher = true;
  has_audit = true;
  events = [];
  audited = [];
  decisions = [];
}

abbrev request : PtpRequest
request = record {
  tenant_id = 7;
  call_id = 100;
  customer_id = 200;
  loan_account_id = 30;
  promised_amount_minor = 100_000;
  currency = 1;
  promise_date = record { utc_ms = 863_000_000; local_ms = 882_800_000 };
  actor_id = 5;
  notes = 0;
}

-- The service once the promise is on record.
abbrev asked_once : PtpService
asked_once = record service {
  table = record { promise = promise_of request 1 1_000; idempotency_key = key_of request } ∷ [];
}

asked_once-IsSingle : IsSingle asked_once.table
unfolding build_idempotency_key
asked_once-IsSingle = ((refl, tt), λ k. ground arith)

asked_once-valid : validate 7 30 100_000 request.promise_date 2_000 instalments ≡ ok tt
unfolding validate
asked_once-valid = refl

asked_once-permitted : (check_policy 0 7 30 asked_once).0 ≡ ok tt
unfolding check_policy
asked_once-permitted = refl

calculate_dpd-worst_example :
    calculate_dpd 7 30 135 instalments
    ≡ worst 135 (map (λ r. r.entry) (keep (unpaid_of 7 30) instalments))
calculate_dpd-worst_example = calculate_dpd-worst 7 30 135 instalments

promised_once_example :
    ((tenant call loan : Key) (day : ℕ)
      → promises_on tenant call loan day
          (create 0 request 2 2_000 (create 0 request 1 1_000 service).1).1.table
        ≤ 1)
    × ((create 0 request 2 2_000 (create 0 request 1 1_000 service).1).1.has_publisher ≡ true
        → announced (create 0 request 2 2_000 (create 0 request 1 1_000 service).1).1.events
          ≡ length (create 0 request 2 2_000 (create 0 request 1 1_000 service).1).1.table)
promised_once_example =
    promised_once (asked 0 2 2_000 request (asked 0 1 1_000 request (opened service refl refl)))

create_answers_example :
    let (out, s') = create 0 request 2 2_000 asked_once in
    ((with_key (key_of request) asked_once.table ≡ none)
      × (out ≡ ok (promise_of request 2 2_000))
      × (s'.table
          ≡ asked_once.table
            ++ (record { promise = promise_of request 2 2_000; idempotency_key = key_of request }
                ∷ [])))
    ⊎ ((old : PromiseToPay) × (with_key (key_of request) asked_once.table ≡ some old)
        × (out ≡ ok old)
        × SameBook asked_once s')
create_answers_example =
    create_answers 0 request 2 2_000 asked_once asked_once-IsSingle asked_once-valid
      asked_once-permitted
