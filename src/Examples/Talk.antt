-- ===== src/Examples/Talk.antt =====
-- The theorems about negotiation and the conversation (engines/negotiation,
-- engines/conversation_state) at a debt of 1,000.00 with a floor of 60 percent.
use voice_os.Prelude.{◌≡◌, refl, false, some, List, [], ◌∷◌, ok, arith}
use voice_os.Negotiation.{
  inr_currency, Money, NegotiationEnvelope, NegotiationResult, counter, compute_move,
}
use voice_os.Negotiation.Moves.{expected_move, compute_move_table, with_currency}
use voice_os.Conversation.{
  ConversationState, identity_verification, debt_discussion, closing, post_call,
}

abbrev debt : Money
debt = record { amount_minor = 100_000; currency = inr_currency }

abbrev floor : Money
floor = record { amount_minor = 60_000; currency = inr_currency }

abbrev envelope : NegotiationEnvelope
envelope = record {
  floor_amount = floor;
  ceiling_amount = debt;
  floor_date = 100;
  ceiling_date = 190;
  pct_num = 60;
  pct_den = 100;
}

-- The answer to an offer of 500.00 in the first round.
abbrev answer : NegotiationResult
answer = record { move = counter; proposed_amount = some floor; envelope = envelope }

compute_move_table_example :
    let (move, amount) = expected_move envelope (some 50_000) 1 false in
    compute_move envelope (some 50_000) 1 false
    ≡ ok (record {
      move = move;
      proposed_amount = with_currency envelope amount;
      envelope = envelope;
    })
compute_move_table_example = compute_move_table envelope (some 50_000) 1 false (omega arith) refl

answered : compute_move envelope (some 50_000) 1 false ≡ ok answer
answered = compute_move_table envelope (some 50_000) 1 false (omega arith) refl

abbrev path : List ConversationState
path = identity_verification ∷ debt_discussion ∷ closing ∷ post_call ∷ []

abbrev opening : List ConversationState
opening = identity_verification ∷ debt_discussion ∷ []
