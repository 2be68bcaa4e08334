-- ===== src/Webhook.antt =====
-- src/openlinker/webhook.py: the configuration of a callback and the check of its signature.
pub mod Signed
mod Examples
use openlinker_python.Prelude.{
  ℕ, ◌+◌, ◌*◌, ◌-◌, Bool, true, false, not, ◌&&◌, ◌||◌, List, [], ◌∷◌, leb, ◌==◌, nat_eq, text_eq,
  if◌then◌else◌, drop, length, Option, none, some, Text, text,
}
use openlinker_python.Text.{strip, lower, starts_with, is_empty}
use openlinker_python.Errors.{Result, ok, err, invalid_value}
use openlinker_python.Platform.{Platform}
use openlinker_python.Types.Uuid.{hex_text, utf8}

-- `WebhookRunCallbackOptions`
pub record WebhookRunCallbackOptions (A M : Type 0) : Type 0 where
  pub secret : Text
  pub token : Text
  pub authentication : Option A
  pub metadata : Option M
  pub event_types : Option (List Text)

-- `TaskCallbackConfig` of src/openlinker/types.py
pub record TaskCallbackConfig (A M : Type 0) : Type 0 where
  pub url : Option Text
  pub token : Option Text
  pub secret : Option Text
  pub authentication : Option A
  pub metadata : Option M
  pub event_types : List Text

-- `list(opts.event_types or [])`
abbrev pub list_or_empty : Option (List Text) → List Text
list_or_empty none = []
list_or_empty (some types) = types

module _ {A M : Type 0} where
  -- `opts or WebhookRunCallbackOptions()`
  unfoldable pub options_or_default :
      Option (WebhookRunCallbackOptions A M) → WebhookRunCallbackOptions A M
  options_or_default (some opts) = opts
  options_or_default none = record {
    secret = [];
    token = [];
    authentication = none;
    metadata = none;
    event_types = none;
  }

  -- `new_webhook_run_callback`, with the text that `generate_task_callback_secret` draws
  unfoldable pub new_webhook_run_callback :
      Text → Option (WebhookRunCallbackOptions A M) → Text → Result (TaskCallbackConfig A M)
  new_webhook_run_callback url opts generated =
      let trimmed = strip url in
      let options = options_or_default opts in
      let chosen = strip options.secret in
      if is_empty trimmed
      then err invalid_value
      else ok (record {
        url = some trimmed;
        token = some (strip options.token);
        secret = some (if is_empty chosen then generated else chosen);
        authentication = options.authentication;
        metadata = options.metadata;
        event_types = list_or_empty options.event_types;
      })

-- `s.removeprefix(prefix)`
unfoldable pub remove_prefix : Text → Text → Text
remove_prefix s prefix = if starts_with s prefix then drop (length prefix) s else s

-- `_normalize_signature`
unfoldable pub normalize_signature : Text → Text
normalize_signature signature = remove_prefix (lower (strip signature)) (text "sha256=")

-- the value of a hexadecimal digit
unfoldable pub hex_value : ℕ → Option ℕ
hex_value c =
    if leb b'0' c && leb c b'9'
    then some (c - 48)
    else if leb b'a' c && leb c b'f'
    then some (c - 87)
    else if leb b'A' c && leb c b'F'
    then some (c - 55)
    else none

-- the ASCII white space that `bytes.fromhex` skips between bytes
abbrev pub is_blank : ℕ → Bool
is_blank c = (leb 9 c && leb c 13) || c == 32

-- `bytes.fromhex(s)`; `none` stands for a ValueError. It keeps the first digit of a byte.
unfoldable pub from_hex_after : Option ℕ → Text → Option (List ℕ)
from_hex_after none [] = some []
from_hex_after (some high) [] = none
from_hex_after none (c ∷ t) = elim (is_blank c) [
  | true ↦ from_hex_after none t
  | false ↦ elim (hex_value c) [ none ↦ none | some high ↦ from_hex_after (some high) t ]
]
from_hex_after (some high) (c ∷ t) = elim (hex_value c) [
  | none ↦ none
  | some low ↦ elim (from_hex_after none t) [
    | none ↦ none
    | some bytes ↦ some ((high * 16 + low) ∷ bytes)
  ]
]

abbrev pub from_hex : Text → Option (List ℕ)
from_hex t = from_hex_after none t

-- `hmac.compare_digest(bytes.fromhex(expected), bytes.fromhex(actual))`, false on a ValueError
unfoldable pub compare_hex : Text → Text → Bool
compare_hex expected actual = elim (from_hex expected) [
  | none ↦ false
  | some left ↦ elim (from_hex actual) [ none ↦ false | some right ↦ left == right ]
]

abbrev pub signature_header : Text
signature_header = text "x-openlinker-signature"

-- `task_callback_signature_from_header`, of the items of the headers in order
unfoldable pub task_callback_signature_from_header : List (Text × Text) → Text
task_callback_signature_from_header [] = []
task_callback_signature_from_header ((key, value) ∷ headers) =
    elim (lower key == signature_header) [
      | true ↦ value
      | false ↦ task_callback_signature_from_header headers
    ]

module _ ⦃p : Platform⦄ where
  -- `sign_task_callback_payload`
  unfoldable pub sign_task_callback_payload : List ℕ → Text → Text
  sign_task_callback_payload payload secret = hex_text (p.hmac_sha256 (utf8 secret) payload)

  -- `verify_task_callback_signature`
  unfoldable pub verify_task_callback_signature : List ℕ → Text → Text → Bool
  verify_task_callback_signature payload secret signature =
      let expected = normalize_signature (sign_task_callback_payload payload secret) in
      let actual = normalize_signature signature in
      if is_empty expected || is_empty actual then false else compare_hex expected actual

  -- `verify_task_callback_request_body`
  unfoldable pub verify_task_callback_request_body :
      List ℕ → List (Text × Text) → Text → List ℕ × Bool
  verify_task_callback_request_body payload headers secret =
      let signature = task_callback_signature_from_header headers in
      (payload, not (is_empty signature) && verify_task_callback_signature payload secret signature)
