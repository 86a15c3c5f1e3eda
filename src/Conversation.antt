-- ===== src/Conversation.antt =====
-- The conversation state machine (src/engines/conversation_state: engine.py, schema.py and the
-- table of transitions.py). Counters and log lines are left out.
pub mod Paths
use voice_os.Prelude.{ℕ, ◌==◌, Bool, true, false, List, [], ◌∷◌, Result, ok, err, if◌then◌else◌}

pub data ConversationState : Type 0 where
  greeting identity_verification debt_discussion negotiation commitment_capture : ConversationState
  objection_handling escalation closing post_call : ConversationState

-- ALLOWED_TRANSITIONS
unfoldable pub allowed_transitions : ConversationState → List ConversationState
allowed_transitions greeting = identity_verification ∷ closing ∷ escalation ∷ []
allowed_transitions identity_verification = debt_discussion ∷ closing ∷ escalation ∷ []
allowed_transitions debt_discussion =
    negotiation ∷ objection_handling ∷ commitment_capture ∷ escalation ∷ closing ∷ []
allowed_transitions negotiation =
    commitment_capture ∷ objection_handling ∷ debt_discussion ∷ escalation ∷ closing ∷ []
allowed_transitions commitment_capture = closing ∷ negotiation ∷ escalation ∷ []
allowed_transitions objection_handling =
    debt_discussion ∷ negotiation ∷ commitment_capture ∷ escalation ∷ closing ∷ []
allowed_transitions escalation = closing ∷ debt_discussion ∷ negotiation ∷ []
allowed_transitions closing = post_call ∷ []
allowed_transitions post_call = []

-- The members of the enumeration are told apart by their values, here numbers.
abbrev pub state_value : ConversationState → ℕ
state_value greeting = 0
state_value identity_verification = 1
state_value debt_discussion = 2
state_value negotiation = 3
state_value commitment_capture = 4
state_value objection_handling = 5
state_value escalation = 6
state_value closing = 7
state_value post_call = 8

abbrev pub same_state : ConversationState → ConversationState → Bool
same_state a b = state_value a == state_value b

-- `to_state in allowed`
abbrev pub has_state : ConversationState → List ConversationState → Bool
has_state s [] = false
has_state s (x ∷ xs) = if same_state s x then true else has_state s xs

pub record InvalidTransition : Type 0 where
  pub from_state : ConversationState
  pub to_state : ConversationState

unfoldable pub initial_state : ConversationState
initial_state = greeting

unfoldable pub can_transition : ConversationState → ConversationState → Bool
unfolding allowed_transitions
can_transition state to_state = has_state to_state (allowed_transitions state)

-- The new state, or the exception, which leaves the state alone.
unfoldable pub transition :
    ConversationState
    → ConversationState
    → (Result InvalidTransition ConversationState) × ConversationState
unfolding allowed_transitions
transition state to_state =
    if has_state to_state (allowed_transitions state)
    then (ok to_state, to_state)
    else (err (record { from_state = state; to_state = to_state }), state)

unfoldable pub allowed_next_states : ConversationState → List ConversationState
allowed_next_states state = allowed_transitions state
