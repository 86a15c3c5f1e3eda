-- ===== src/Negotiation.antt =====
-- The negotiation engine (src/engines/negotiation: engine.py, envelope.py, moves.py, and Money of
-- src/libs/contracts/primitives.py). Amounts are minor units, never negative. The fraction
-- `settlement_floor_pct`, a float in the source, is a ratio of two numbers, multiplied and
-- rounded up exactly. Dates are day numbers and `date.today()` is an argument. The texts of
-- `rationale` and of the exceptions are left out.
pub mod Envelope
pub mod Moves
pub mod Amounts
use voice_os.Prelude.{
  ℕ, ◌+◌, ◌-◌, ◌*◌, ◌/◌, Key, Bool, true, false, not, ◌||◌, Option, none, some, List, [], ◌∷◌,
  Result, ok, err, ◌>>=◌, ◌>>◌, raise_if, raise_as, ltb, leb, ◌==◌, if◌then◌else◌, min, max,
}
use voice_os.Invariants.{Violation, assert_ri5_law_of_authority}

pub data Currency : Type 0 where
  inr_currency usd : Currency

abbrev pub currency_value : Currency → ℕ
currency_value inr_currency = 0
currency_value usd = 1

pub record Money : Type 0 where
  pub amount_minor : ℕ
  pub currency : Currency

pub record NegotiationEnvelope : Type 0 where
  pub floor_amount : Money
  pub ceiling_amount : Money
  pub floor_date : ℕ
  pub ceiling_date : ℕ
  pub pct_num : ℕ
  pub pct_den : ℕ

pub data NegotiationError : Type 0 where
  value_error : NegotiationError
  boundary_violation : ℕ → NegotiationEnvelope → NegotiationError
  invariant_violation : Violation → NegotiationError

-- `Money.__eq__`, `__lt__`, `__le__`, `__gt__`; `__lt__` raises at two currencies.
abbrev pub money_eq : Money → Money → Bool
money_eq a b =
    if a.amount_minor == b.amount_minor
    then currency_value a.currency == currency_value b.currency
    else false

abbrev pub money_lt : Money → Money → Result NegotiationError Bool
money_lt a b =
    if currency_value a.currency == currency_value b.currency
    then ok (ltb a.amount_minor b.amount_minor)
    else err value_error

abbrev pub money_gt : Money → Money → Result NegotiationError Bool
money_gt a b = if money_eq a b then ok false else (do less ← money_lt a b; ok (not less))

-- `__le__` and `__ge__`.
abbrev pub money_le : Money → Money → Result NegotiationError Bool
money_le a b = if money_eq a b then ok true else money_lt a b

abbrev pub money_ge : Money → Money → Result NegotiationError Bool
money_ge a b = do less ← money_lt a b; ok (not less)

-- `__add__` and `__sub__`: they raise at two currencies, and at a negative difference.
unfoldable pub money_add : Money → Money → Result NegotiationError Money
money_add a b =
    if currency_value a.currency == currency_value b.currency
    then ok (record { amount_minor = a.amount_minor + b.amount_minor; currency = a.currency })
    else err value_error

unfoldable pub money_sub : Money → Money → Result NegotiationError Money
money_sub a b =
    if currency_value a.currency == currency_value b.currency
    then if ltb a.amount_minor b.amount_minor
      then err value_error
      else ok (record { amount_minor = a.amount_minor - b.amount_minor; currency = a.currency })
    else err value_error

-- The model's validator, after the bounds of the field `allowed_settlement_pct`.
unfoldable pub validate_envelope : NegotiationEnvelope → Result NegotiationError NegotiationEnvelope
validate_envelope e = do
  raise_if (ltb e.pct_den e.pct_num) value_error
  raise_if
      (not (currency_value e.floor_amount.currency == currency_value e.ceiling_amount.currency))
      value_error
  above ← money_gt e.floor_amount e.ceiling_amount
  raise_if above value_error
  raise_if (ltb e.ceiling_date e.floor_date) value_error
  ok e

-- `math.ceil(outstanding_minor * settlement_floor_pct)`
unfoldable pub ceil_fraction : ℕ → ℕ → ℕ → ℕ
ceil_fraction amount num den = (amount * num + (den - 1)) / den

unfoldable pub from_outstanding :
    ℕ → Currency → ℕ → ℕ → ℕ → ℕ → Result NegotiationError NegotiationEnvelope
unfolding validate_envelope
from_outstanding outstanding_minor currency num den max_extension_days reference_date =
    validate_envelope (record {
      floor_amount = record {
        amount_minor = max 1 (ceil_fraction outstanding_minor num den);
        currency = currency;
      };
      ceiling_amount = record { amount_minor = outstanding_minor; currency = currency };
      floor_date = reference_date;
      ceiling_date = reference_date + max_extension_days;
      pct_num = num;
      pct_den = den;
    })

-- The names of the guard's fact and of the sources.
abbrev outstanding_balance : Key
outstanding_balance = 0

abbrev crm : Key
crm = 1

abbrev customer_context : Key
customer_context = 2

-- No outstanding amount: the envelope in which nothing can be offered.
zero_envelope : ℕ → ℕ → ℕ → ℕ → Result NegotiationError NegotiationEnvelope
unfolding validate_envelope
zero_envelope num den max_extension_days today =
    let zero : Money = record { amount_minor = 0; currency = inr_currency } in
    validate_envelope (record {
      floor_amount = zero;
      ceiling_amount = zero;
      floor_date = today;
      ceiling_date = today + max_extension_days;
      pct_num = num;
      pct_den = den;
    })

-- `outstanding` is the total outstanding of the customer's context, if there is one.
unfoldable pub build_envelope :
    Option Money → ℕ → ℕ → ℕ → ℕ → Result NegotiationError NegotiationEnvelope
unfolding from_outstanding zero_envelope assert_ri5_law_of_authority
build_envelope none num den max_extension_days today =
    zero_envelope num den max_extension_days today
build_envelope (some total) num den max_extension_days today =
    if total.amount_minor == 0 then zero_envelope num den max_extension_days today else (do
      raise_as invariant_violation (
          assert_ri5_law_of_authority outstanding_balance (crm ∷ customer_context ∷ [])
            customer_context)
      from_outstanding total.amount_minor total.currency num den max_extension_days today)

unfoldable pub assert_within_envelope : ℕ → NegotiationEnvelope → Result NegotiationError (Unit {0})
assert_within_envelope amount_minor e =
    raise_if
      (ltb amount_minor e.floor_amount.amount_minor
        || ltb e.ceiling_amount.amount_minor amount_minor)
      (boundary_violation amount_minor e)

pub data NegotiationMove : Type 0 where
  offer counter accept hold decline propose_ptp : NegotiationMove

pub record NegotiationResult : Type 0 where
  pub move : NegotiationMove
  pub proposed_amount : Option Money
  pub envelope : NegotiationEnvelope

-- A move with an amount, once the amount is inside the envelope.
abbrev propose :
    NegotiationMove → ℕ → Currency → NegotiationEnvelope → Result NegotiationError NegotiationResult
propose move amount currency e = do
  assert_within_envelope amount e
  ok (record {
    move = move;
    proposed_amount = some (record { amount_minor = amount; currency = currency });
    envelope = e;
  })

abbrev pub max_concessions : ℕ
max_concessions = 2

-- `counter_amount`; the offer is below the floor here, so the subtraction is exact.
counter_amount : ℕ → NegotiationEnvelope → ℕ
counter_amount customer_offer_minor e =
    let floor = e.floor_amount.amount_minor in
    let step_size = max 0 ((floor - customer_offer_minor) / (max_concessions + 1)) in
    let stepped = customer_offer_minor + step_size in
    let clamped = max customer_offer_minor (min stepped e.ceiling_amount.amount_minor) in
    if ltb clamped floor then floor else clamped

unfoldable pub compute_move :
    NegotiationEnvelope → Option ℕ → ℕ → Bool → Result NegotiationError NegotiationResult
unfolding assert_within_envelope counter_amount
compute_move e customer_offer concession_round hardship_verified =
    let floor = e.floor_amount.amount_minor in
    let ceiling = e.ceiling_amount.amount_minor in
    let currency = e.floor_amount.currency in
    if hardship_verified then propose propose_ptp floor currency e else elim customer_offer [
      | none ↦ propose offer ceiling e.ceiling_amount.currency e
      | some customer_offer_minor ↦
          if leb floor customer_offer_minor
          then propose accept (min customer_offer_minor ceiling) currency e
          else if ltb concession_round max_concessions
          then propose counter (counter_amount customer_offer_minor e) currency e
          else ok (record { move = decline; proposed_amount = none; envelope = e })
    ]
