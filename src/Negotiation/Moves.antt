-- ===== src/Negotiation/Moves.antt =====
-- What the engine may propose (`compute_move` in engine.py).
use voice_os.Prelude.{
  ℕ, ◌<◌, ◌≤◌, ◌≡◌, Bool, true, false, Option, none, some, ok, arith, min, ltb, leb, if◌then◌else◌,
  inl, inr, Bool-cases,
}
use voice_os.Negotiation.{
  Money, NegotiationEnvelope, NegotiationResult, NegotiationMove, offer, counter, accept, decline,
  propose_ptp, compute_move, counter_amount, max_concessions,
}

-- A counter-offer below the floor is raised to it, and none is above it: it is the floor.
counter_amount-eq_floor :
    (o : ℕ) (e : NegotiationEnvelope)
    → o < e.floor_amount.amount_minor
    → counter_amount o e ≡ e.floor_amount.amount_minor
unfolding counter_amount
counter_amount-eq_floor o e h = ground arith

-- The moves as a table: by hardship, the customer's offer and the round.
abbrev pub expected_move : NegotiationEnvelope → Option ℕ → ℕ → Bool → NegotiationMove × Option ℕ
expected_move e o round true = (propose_ptp, some e.floor_amount.amount_minor)
expected_move e none round false = (offer, some e.ceiling_amount.amount_minor)
expected_move e (some o) round false =
    if leb e.floor_amount.amount_minor o
    then (accept, some (min o e.ceiling_amount.amount_minor))
    else if ltb round max_concessions
    then (counter, some e.floor_amount.amount_minor)
    else (decline, none)

abbrev pub with_currency : NegotiationEnvelope → Option ℕ → Option Money
with_currency e none = none
with_currency e (some n) = some (record { amount_minor = n; currency = e.floor_amount.currency })

-- In an envelope whose floor is at most its ceiling, in one currency, every call returns the move
-- and the amount of the table: no call raises. A counter-offer is always the floor itself.
pub compute_move_table :
    (e : NegotiationEnvelope) (o : Option ℕ) (round : ℕ) (hardship : Bool)
    → e.floor_amount.amount_minor ≤ e.ceiling_amount.amount_minor
    → e.floor_amount.currency ≡ e.ceiling_amount.currency
    → let (move, amount) = expected_move e o round hardship in
      compute_move e o round hardship
      ≡ ok (record { move = move; proposed_amount = with_currency e amount; envelope = e })
unfolding compute_move
compute_move_table e o round true h c = ground arith
compute_move_table e none round false h c = ground arith
compute_move_table e (some o) round false h c =
    elim (Bool-cases (leb e.floor_amount.amount_minor o)) [
      | inl enough ↦ rw enough (ground arith)
      | inr short ↦ rw short (ground (arith, counter_amount-eq_floor o e (ground arith)))
    ]

-- No amount outside [floor, ceiling] leaves the engine, in any envelope at all: where the
-- envelope would be broken the call raises instead.
pub offers_within :
    (e : NegotiationEnvelope) (o : Option ℕ) (round : ℕ) (hardship : Bool) (r : NegotiationResult)
    (m : Money)
    → compute_move e o round hardship ≡ ok r
    → r.proposed_amount ≡ some m
    → (e.floor_amount.amount_minor ≤ m.amount_minor)
      × (m.amount_minor ≤ e.ceiling_amount.amount_minor)
unfolding compute_move
offers_within e o round true r m h p = ground arith
offers_within e none round false r m h p = ground arith
offers_within e (some o) round false r m h p =
    elim (Bool-cases (leb e.floor_amount.amount_minor o)) [
      | inl enough ↦ ground arith
      | inr short ↦ ground (arith, counter_amount-eq_floor o e (ground arith))
    ]
