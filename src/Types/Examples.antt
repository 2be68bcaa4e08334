-- ===== src/Types/Examples.antt =====
-- The theorems on src/openlinker/runtime/types.py at concrete values.
use openlinker_python.Prelude.{
  ◌≡◌, refl, true, List, [], ◌∷◌, text, text_beq, contains, all_of, some, ◌++◌,
}
use openlinker_python.Json.{Json, Fields, obj, str, field, end, get_field, json_beq}
use openlinker_python.Errors.{ok}
use openlinker_python.Types.Uuid.{is_uuid, deterministic_uuid, hex_group, dash, has_nonzero}
use openlinker_python.Types.Uuid.Valid.{deterministic_uuid-IsUuid}
use openlinker_python.Types.Time.{parse_datetime, format_datetime, parse_datetime-format_datetime}
use openlinker_python.Types.Checks.{require_uuid, has_keys}
use openlinker_python.Types.Identity.{
  validate, attempt_to_dict, attempt_from_dict, attempt_from_dict-attempt_to_dict,
}
use openlinker_python.Types.Features.{
  required_features, is_feature, text_leb, insert_text, sort_texts, check_features,
  normalize_runtime_optional_features,
}
use openlinker_python.Types.Features.Normal.{
  IsAscending, normalize_runtime_optional_features-IsAscending,
}
use openlinker_python.Types.Messages.{RuntimeReady, check_ready, hello_features}
use openlinker_python.Types.Messages.Echo.{check_ready-hello_features}
use openlinker_python.Types.Runs.{
  allowed_states, is_consistent, validate_runtime_run_summary, validate_delegated_run,
}
use openlinker_python.Types.Runs.States.{
  IsSettled, validate_runtime_run_summary-IsSettled, validate_delegated_run-IsSettled,
}
use openlinker_python.Examples.{flat, attempt, attempt_a}

deterministic_uuid-IsUuid_example : is_uuid (deterministic_uuid (text "offer" ∷ [])) ≡ true
deterministic_uuid-IsUuid_example = (deterministic_uuid-IsUuid ⦃p = flat⦄).0 (text "offer" ∷ [])

parse_datetime-format_datetime_example : parse_datetime (str (format_datetime 7)) ≡ ok 7
parse_datetime-format_datetime_example = parse_datetime-format_datetime 7

attempt_from_dict-attempt_to_dict_example :
    attempt_from_dict (obj (attempt_to_dict attempt)) ≡ ok attempt
unfolding validate is_uuid hex_group dash has_nonzero
attempt_from_dict-attempt_to_dict_example = attempt_from_dict-attempt_to_dict attempt refl

abbrev two_features : List Json
two_features = str (text "zip") ∷ str (text "delegated_run_read.v1") ∷ []

two_accepted :
    normalize_runtime_optional_features two_features
    ≡ ok (text "delegated_run_read.v1" ∷ text "zip" ∷ [])
unfolding normalize_runtime_optional_features check_features required_features is_feature all_of
    contains text_beq sort_texts insert_text text_leb
two_accepted = refl

normalize_runtime_optional_features-IsAscending_example :
    IsAscending (text "delegated_run_read.v1" ∷ text "zip" ∷ [])
normalize_runtime_optional_features-IsAscending_example =
    (normalize_runtime_optional_features-IsAscending two_features
      (text "delegated_run_read.v1" ∷ text "zip" ∷ []) two_accepted).0

abbrev echoed : RuntimeReady
echoed = record {
  core_instance_id = text "core";
  attachment_id = attempt_a;
  features = required_features ++ text "delegated_run_read.v1" ∷ text "zip" ∷ [];
  offer_ttl_seconds = 5;
  lease_ttl_seconds = 60;
  database_time = 0;
}

check_ready-hello_features_example : check_ready echoed ≡ ok tt
unfolding hello_features require_uuid is_uuid hex_group dash has_nonzero
check_ready-hello_features_example =
    check_ready-hello_features two_features echoed.features echoed (rw two_accepted refl) refl refl
      refl refl

abbrev dead_run : Fields
dead_run = field (text "run_id") (str attempt_a) (
    field (text "status") (str (text "failed"))
      (field (text "dispatch_state") (str (text "dead_letter")) end))

validate_runtime_run_summary-IsSettled_example : IsSettled dead_run
unfolding validate_runtime_run_summary has_keys all_of contains text_beq get_field require_uuid
    is_uuid hex_group dash has_nonzero is_consistent allowed_states
validate_runtime_run_summary-IsSettled_example =
    validate_runtime_run_summary-IsSettled (obj dead_run) dead_run refl

abbrev dead_child : Fields
dead_child = field (text "error_code") (str (text "X")) dead_run

validate_delegated_run-IsSettled_example :
    IsSettled dead_child × (get_field dead_child (text "run_id") ≡ some (str attempt_a))
unfolding validate_delegated_run validate_runtime_run_summary has_keys all_of contains text_beq
    get_field require_uuid is_uuid hex_group dash has_nonzero is_consistent allowed_states json_beq
validate_delegated_run-IsSettled_example =
    validate_delegated_run-IsSettled (obj dead_child) attempt_a dead_child refl
