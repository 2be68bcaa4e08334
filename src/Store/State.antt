-- ===== src/Store/State.antt =====
-- src/openlinker/runtime/store.py: the states of an assignment and the transitions between them.
use openlinker_python.Prelude.{
  ◌≡◌, Bool, true, ◌||◌, ℕ, nat_eq, ◌==◌, Eq, ◌↔◌, arith, List, [], ◌∷◌, Text, text,
}

pub data State : Type 0 where
  received ack_sent confirmed started finished result_acked reject_sent rejected revoked : State

abbrev pub code : State → ℕ
code received = 0
code ack_sent = 1
code confirmed = 2
code started = 3
code finished = 4
code result_acked = 5
code reject_sent = 6
code rejected = 7
code revoked = 8

abbrev pub state_beq : State → State → Bool
state_beq a b = code a == code b

pub state_beq_iff : (a b : State) → (state_beq a b ≡ true) ↔ (a ≡ b)
state_beq_iff a b = ground arith

instance abbrev pub state_eq : Eq State
state_eq = record { same = state_beq; same_iff = state_beq_iff }

-- `_TRANSITIONS`
unfoldable pub transitions : State → List State
transitions received = ack_sent ∷ reject_sent ∷ revoked ∷ []
transitions ack_sent = confirmed ∷ revoked ∷ []
transitions confirmed = started ∷ revoked ∷ []
transitions started = finished ∷ revoked ∷ []
transitions finished = result_acked ∷ revoked ∷ []
transitions reject_sent = rejected ∷ revoked ∷ []
transitions rejected = []
transitions result_acked = []
transitions revoked = []

-- `state in {ASSIGNMENT_REJECTED, ASSIGNMENT_RESULT_ACKED, ASSIGNMENT_REVOKED}`
unfoldable pub is_terminal : State → Bool
is_terminal s = s == rejected || s == result_acked || s == revoked

-- The values of the constants, and the state that a stored text names.
unfoldable pub state_text : State → Text
state_text received = text "received"
state_text ack_sent = text "ack_sent"
state_text confirmed = text "confirmed"
state_text started = text "started"
state_text finished = text "finished"
state_text result_acked = text "result_acked"
state_text reject_sent = text "reject_sent"
state_text rejected = text "rejected"
state_text revoked = text "revoked"
