-- ===== src/Types/Runs.antt =====
-- The delegated runs of src/openlinker/runtime/types.py: `validate_runtime_run_summary`,
-- `validate_delegated_run`, `validate_runtime_drain_payload` and `build_invocation_proof`.
pub mod States
use openlinker_python.Prelude.{
  ℕ, ◌≡◌, Bool, true, false, not, ◌&&◌, ◌||◌, List, [], ◌∷◌, ◌++◌, Text, text, text_eq, nat_eq,
  ◌==◌, leb, if◌then◌else◌, contains, length, pos, negsuc, none, some, Option,
}
use openlinker_python.Text.{starts_with, strip, is_empty}
use openlinker_python.Json.{
  Json, null, bool, int, str, arr, obj, Fields, end, field, get_field, json_beq,
}
use openlinker_python.Platform.{Platform}
use openlinker_python.Errors.{
  Result, ok, err, require, recast, bad_run_summary, inconsistent_state, run_id_mismatch,
  not_an_object, bad_drain, invalid_value, ◌>>◌, ◌>>=◌,
}
use openlinker_python.Types.Checks.{
  has_keys, require_keys, require_uuid, require_capability, validate_idempotency_key,
}
use openlinker_python.Types.Identity.{item}
use openlinker_python.Types.Time.{parse_datetime}
use openlinker_python.Types.Uuid.{hex_text}

abbrev pub run_keys : List Text
run_keys = text "run_id" ∷ text "status" ∷ text "dispatch_state" ∷ []

-- `allowed.get(status, set())`
unfoldable pub allowed_states : Text → List Text
allowed_states status =
    if status == text "running"
    then text "pending" ∷ text "offered" ∷ text "executing" ∷ text "retry_wait" ∷ []
    else if status == text "success"
    then text "terminal" ∷ []
    else if status == text "failed"
    then text "terminal" ∷ text "dead_letter" ∷ []
    else if status == text "timeout"
    then text "terminal" ∷ []
    else if status == text "canceled"
    then text "terminal" ∷ []
    else []

-- the test of the status and the dispatch state
unfoldable pub is_consistent : Json → Json → Bool
is_consistent (str status) (str dispatch) = contains (allowed_states status) dispatch
is_consistent _ _ = false

-- `validate_runtime_run_summary`
unfoldable pub validate_runtime_run_summary : Json → Result Fields
unfolding has_keys
validate_runtime_run_summary (obj fs) = do
  require (has_keys run_keys [] fs) bad_run_summary
  run_id ← item fs (text "run_id")
  require_uuid run_id
  status ← item fs (text "status")
  dispatch ← item fs (text "dispatch_state")
  require (is_consistent status dispatch) inconsistent_state
  ok fs
validate_runtime_run_summary _ = err bad_run_summary

-- no value, or an object
abbrev pub object_or_none : Option Json → Bool
object_or_none none = true
object_or_none (some (obj fs)) = true
object_or_none (some _) = false

abbrev pub text_or_none : Option Json → Bool
text_or_none none = true
text_or_none (some (str t)) = true
text_or_none (some _) = false

-- `validate_delegated_run`
unfoldable pub validate_delegated_run : Json → Text → Result Fields
unfolding has_keys
validate_delegated_run (obj fs) run_id = do
  require (has_keys run_keys (text "output" ∷ text "error_code" ∷ text "error_message" ∷ []) fs)
      bad_run_summary
  id ← item fs (text "run_id")
  status ← item fs (text "status")
  dispatch ← item fs (text "dispatch_state")
  summary ← validate_runtime_run_summary (
      obj (
        field (text "run_id") id
          (field (text "status") status (field (text "dispatch_state") dispatch end))))
  require (json_beq id (str run_id)) run_id_mismatch
  require (object_or_none (get_field fs (text "output"))) not_an_object
  require (text_or_none (get_field fs (text "error_code"))) bad_run_summary
  require (text_or_none (get_field fs (text "error_message"))) bad_run_summary
  ok fs
validate_delegated_run _ run_id = err bad_run_summary

abbrev pub is_reason : Json → Bool
is_reason (str t) = leb 1 (length t) && leb (length t) 120
is_reason _ = false

abbrev pub is_zero : Json → Bool
is_zero (int (pos n)) = n == 0
is_zero _ = false

abbrev pub is_count : Json → Bool
is_count (int (pos n)) = true
is_count _ = false

abbrev pub drain_keys : List Text
drain_keys = text "deadline_at" ∷ text "reason_code" ∷ text "capacity" ∷ text "inflight" ∷ []

-- `_PROOF_DOMAIN`
abbrev pub proof_domain : Text
proof_domain = text "openlinker/runtime-v2/invocation-proof"

-- `.rstrip(b"=")`
unfoldable pub strip_padding : Text → Text
strip_padding [] = []
strip_padding (c ∷ t) = elim (strip_padding t) [
  | [] ↦ if c == b'=' then [] else c ∷ []
  | d ∷ u ↦ c ∷ d ∷ u
]

module _ ⦃p : Platform⦄ where
  -- `validate_runtime_drain_payload`
  unfoldable pub validate_runtime_drain_payload : Json → Result Fields
  validate_runtime_drain_payload v = do
    fs ← require_keys v drain_keys []
    deadline ← item fs (text "deadline_at")
    time ← recast bad_drain (parse_datetime deadline)
    reason ← item fs (text "reason_code")
    require (is_reason reason) bad_drain
    capacity ← item fs (text "capacity")
    require (is_zero capacity) bad_drain
    inflight ← item fs (text "inflight")
    require (is_count inflight) bad_drain
    ok fs

  -- `build_invocation_proof`; texts are encoded as their code points
  unfoldable pub build_invocation_proof : Text → List ℕ → Text → Text → Text → Result Text
  unfolding strip_padding
  build_invocation_proof token body context idempotency_key path = do
    require_capability token (text "ol_inv_v2.")
    require_capability context (text "ol_ctx_v2.")
    validate_idempotency_key idempotency_key
    require (starts_with path (text "/") && path == strip path) invalid_value
    let canonical : Json = obj (
        field (text "body_sha256") (str (hex_text (p.sha256 body))) (
          field (text "context") (str context) (
            field (text "idempotency_key") (str idempotency_key) (
              field (text "method") (str (text "POST"))
                (field (text "path") (str path) (field (text "version") (str proof_domain) end))))))
    let key = p.sha256 (proof_domain ++ 0 ∷ token)
    ok (strip_padding (p.urlsafe_b64encode (p.hmac_sha256 key (p.dumps canonical))))
