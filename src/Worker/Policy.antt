-- ===== src/Worker/Policy.antt =====
-- The policy signals of src/openlinker/runtime/worker.py: which failures announce that the transport
-- policy of the platform changed, and the one retry after it was discovered again.
pub mod Once
use openlinker_python.Prelude.{
  ℕ, Bool, true, false, ◌&&◌, ◌||◌, List, [], ◌∷◌, Text, text, text_eq, nat_eq, Option, none, some,
  ◌==◌, if◌then◌else◌, contains,
}
use openlinker_python.Errors.{Error, Result, ok, err, invalid_value}

-- The code and the reason of a close frame, where they are given.
pub record CloseFrame : Type 0 where
  pub code : Option ℕ
  pub reason : Option Text

-- The exceptions that the worker tells apart. `connection_closed` has the frame received, if any, and
-- what the exception itself gives.
pub data Failure : Type 0 where
  policy_recovery : Failure
  protocol_or_store : Error → Failure
  remote : (status_code : ℕ) (code message : Text) → Failure
  connection_closed : (received : Option CloseFrame) (itself : CloseFrame) → Failure
  other : Text → Failure

unfoldable pub permanent_codes : List Text
permanent_codes =
    text "AUTHENTICATION_FAILED"
    ∷ text "UNAUTHORIZED"
    ∷ text "FORBIDDEN"
    ∷ text "PERMISSION_DENIED"
    ∷ text "RUNTIME_CLIENT_UPGRADE_REQUIRED"
    ∷ text "RUNTIME_REQUIRED_FEATURE_MISSING"
    ∷ text "RUNTIME_SESSION_CONFLICT"
    ∷ text "RUNTIME_SPOOL_CORRUPT"
    ∷ []

unfoldable pub permanent_close_codes : List ℕ
permanent_close_codes = 4401 ∷ 4406 ∷ 4409 ∷ 4412 ∷ []

abbrev is_code : Option ℕ → ℕ → Bool
is_code none n = false
is_code (some m) n = m == n

abbrev is_reason : Option Text → Text → Bool
is_reason none t = false
is_reason (some u) t = u == t

abbrev frame_of : Option CloseFrame → CloseFrame → CloseFrame
frame_of none itself = itself
frame_of (some f) itself = f

-- `is_runtime_policy_recovery_signal`
unfoldable pub is_runtime_policy_recovery_signal : Failure → Bool
is_runtime_policy_recovery_signal policy_recovery = false
is_runtime_policy_recovery_signal (protocol_or_store e) = false
is_runtime_policy_recovery_signal (remote status code message) =
    status == 403
    && code == text "FORBIDDEN"
    && (message == text "RUNTIME_TRANSPORT_FORBIDDEN" || message == text "RUNTIME_POLICY_CHANGED")
is_runtime_policy_recovery_signal (connection_closed received itself) =
    let frame = frame_of received itself in
    is_code frame.code 1008 && is_reason frame.reason (text "RUNTIME_POLICY_CHANGED")
is_runtime_policy_recovery_signal (other t) = false

-- the code alone, of the frame received or else of the exception
abbrev permanent_close : Option ℕ → Bool
permanent_close none = false
permanent_close (some n) = contains permanent_close_codes n

-- `_fatal_error`
unfoldable pub fatal_error : Failure → Bool
unfolding permanent_codes permanent_close_codes is_runtime_policy_recovery_signal
fatal_error policy_recovery = true
fatal_error (protocol_or_store e) = true
fatal_error (remote status code message) =
    is_runtime_policy_recovery_signal (remote status code message) || contains permanent_codes code
fatal_error (connection_closed received itself) =
    is_runtime_policy_recovery_signal (connection_closed received itself)
    || permanent_close (frame_of received itself).code
fatal_error (other t) = false

-- `_session_conflict`
unfoldable pub session_conflict : Failure → Bool
session_conflict (remote status code message) = code == text "RUNTIME_SESSION_CONFLICT"
session_conflict _ = false

-- `resolve_runtime_fallback_reason`
unfoldable pub resolve_runtime_fallback_reason : Text → Text → Result Text
resolve_runtime_fallback_reason configured transition =
    if configured == text "auto" || configured == text "ws" || configured == text "pull"
    then (if transition == text "websocket_to_long_poll"
          || transition == text "failed_websocket_probe_restore_long_poll"
        then ok (text "websocket_unavailable")
        else if transition == text "long_poll_to_websocket"
        then ok (text "recovery")
        else if transition == text "policy_selected"
            || transition == text "same_transport_reconnect"
            || transition == text "policy_rediscovery"
        then ok (if configured == text "auto" then text "policy_forced" else text "explicit")
        else err invalid_value)
    else err invalid_value

pub data Reply {ℓ} (A : Type ℓ) : Type ℓ where
  returned : A → Reply A
  raised : Failure → Reply A

-- `runtime_policy_recover_once`. The operation and the discovery act on the worker and the peer.
module _ {S A : Type 0} (operation : S → Reply A × S)
    (recover_policy : Failure → S → Reply (Unit {0}) × S) where
  -- the second try
  unfoldable pub try_again : S → Reply A × S
  try_again s =
      let (r, t) = operation s in
      elim r [
        | returned a ↦ (returned a, t)
        | raised f ↦
            (raised (if is_runtime_policy_recovery_signal f then policy_recovery else f), t)
      ]

  unfoldable pub runtime_policy_recover_once : S → Reply A × S
  runtime_policy_recover_once s =
      let (r, t) = operation s in
      elim r [
        | returned a ↦ (returned a, t)
        | raised f ↦ elim (is_runtime_policy_recovery_signal f) [
          | false ↦ (raised f, t)
          | true ↦
              let (q, u) = recover_policy f t in
              elim q [ returned done ↦ try_again u | raised g ↦ (raised g, u) ]
        ]
      ]
