-- ===== src/Conversation/Paths.antt =====
-- What a conversation can and cannot do (the comment at the top of transitions.py).
use voice_os.Prelude.{
  ◌||◌, Bool-cases, ◌≡◌, ◌≢◌, ◌⊎◌, inl, inr, refl, Bool, true, false, List, [], ◌∷◌, arith,
}
use voice_os.Conversation.{
  has_state, same_state, ConversationState, greeting, identity_verification, debt_discussion,
  negotiation, commitment_capture, objection_handling, escalation, closing, post_call, transition,
  initial_state,
}

-- The requests of a call, each taken or refused.
abbrev pub run : List ConversationState → ConversationState → ConversationState
run [] s = s
run (t ∷ ts) s = run ts (transition s t).1

post_call_step : (t : ConversationState) → (transition post_call t).1 ≡ post_call
unfolding transition
post_call_step t = refl

-- The end of a call is final, whatever is requested.
pub post_call_final : (ts : List ConversationState) → run ts post_call ≡ post_call
post_call_final [] = refl
post_call_final (t ∷ ts) = rw (post_call_step t) (post_call_final ts)

-- Only CLOSING leads to the end of a call.
pub post_call_needs_closing :
    (s t : ConversationState) → s ≢ post_call → (transition s t).1 ≡ post_call → s ≡ closing
unfolding transition
post_call_needs_closing s t h e = ground arith

post_call-cases : (s : ConversationState) → (s ≡ post_call) ⊎ (s ≢ post_call)
post_call-cases post_call = inl refl
post_call-cases _ = inr (λ e. cc)

closing_step :
    (s t : ConversationState)
    → (transition s t).1 ≡ closing
    → (s ≡ closing) ⊎ (same_state closing t ≡ true)
unfolding transition
closing_step s t e = ground arith

-- A live call is closing when it ends, or closing was among its requests.
pub ends_by_closing :
    (ts : List ConversationState) (s : ConversationState)
    → s ≢ post_call
    → run ts s ≡ post_call
    → (s ≡ closing) ⊎ (has_state closing ts ≡ true)
ends_by_closing [] s h e = absurd (h e)
ends_by_closing (t ∷ ts) s h e = elim (post_call-cases (transition s t).1) [
  | inl done ↦ inl (post_call_needs_closing s t h done)
  | inr live ↦ elim (ends_by_closing ts (transition s t).1 live e) [
    | inl at_closing ↦ ground (arith, closing_step s t at_closing)
    | inr asked ↦ inr (ground arith)
  ]
]

-- From every live state two requests end the call: CLOSING, then POST_CALL.
pub can_always_end :
    (s : ConversationState) → s ≢ post_call → run (closing ∷ post_call ∷ []) s ≡ post_call
unfolding transition
can_always_end s h = ground arith

-- The states in which the debt is spoken of.
abbrev pub is_about_debt : ConversationState → Bool
is_about_debt debt_discussion = true
is_about_debt negotiation = true
is_about_debt commitment_capture = true
is_about_debt objection_handling = true
is_about_debt _ = false

-- The states that a call can be in before verification and escalation.
abbrev is_before : ConversationState → Bool
is_before greeting = true
is_before closing = true
is_before post_call = true
is_before _ = false

before_step :
    (t s : ConversationState)
    → is_before s ≡ true
    → (same_state identity_verification t || same_state escalation t) ≡ false
    → is_before (transition s t).1 ≡ true
unfolding transition
before_step t s h e = ground arith

stays_before :
    (ts : List ConversationState) (s : ConversationState)
    → is_before s ≡ true
    → (has_state identity_verification ts || has_state escalation ts) ≡ false
    → is_before (run ts s) ≡ true
stays_before [] s h e = h
stays_before (t ∷ ts) s h e =
    stays_before ts (transition s t).1 (before_step t s h (ground arith)) (ground arith)

-- A call speaks of the debt only if it asked for identity verification or for escalation before.
pub debt_needs_gate :
    (ts : List ConversationState)
    → is_about_debt (run ts initial_state) ≡ true
    → (has_state identity_verification ts || has_state escalation ts) ≡ true
unfolding initial_state
debt_needs_gate ts d =
    elim (Bool-cases (has_state identity_verification ts || has_state escalation ts)) [
      | inl gate ↦ gate
      | inr open_gate ↦ absurd (ground (arith, stays_before ts greeting refl open_gate))
    ]
