-- ===== src/Types/Checks.antt =====
-- The small checks of src/openlinker/runtime/types.py on values that come from the platform.
use openlinker_python.Prelude.{
  Bool, not, ◌&&◌, ◌||◌, List, Text, text_eq, nat_eq, ◌==◌, if◌then◌else◌, contains, all_of, leb,
  is_some, length,
}
use openlinker_python.Text.{is_empty, strip, starts_with, split_at}
use openlinker_python.Json.{Json, null, str, obj, Fields, end, get_field, keys}
use openlinker_python.Errors.{
  Result, ok, err, bad_uuid, unexpected_fields, not_an_object, bad_capability, invalid_value,
  require, ◌>>◌,
}
use openlinker_python.Types.Uuid.{is_uuid}

-- All required keys are there, and no key beyond the required and the optional ones.
unfoldable pub has_keys : List Text → List Text → Fields → Bool
has_keys required optional fs =
    all_of (λ k. is_some (get_field fs k)) required
    && all_of (λ k. contains required k || contains optional k) (keys fs)

-- `_require_keys`, which hands on the object
unfoldable pub require_keys : Json → List Text → List Text → Result Fields
unfolding has_keys
require_keys (obj fs) required optional =
    if has_keys required optional fs then ok fs else err unexpected_fields
require_keys _ required optional = err not_an_object

-- `_require_uuid`. `uuid.UUID(None)` raises a TypeError that the check does not catch.
unfoldable pub require_uuid : Json → Result (Unit {0})
require_uuid (str t) = require (is_uuid t) bad_uuid
require_uuid null = err invalid_value
require_uuid _ = err bad_uuid

-- `_require_object`
unfoldable pub require_object : Json → Result Fields
require_object (obj fs) = ok fs
require_object _ = err not_an_object

-- `_optional_object`
unfoldable pub optional_object : Json → Result Fields
unfolding require_object
optional_object null = ok end
optional_object v = require_object v

-- `_require_capability`
unfoldable pub is_capability : Text → Text → Bool
is_capability value prefix =
    let parts = split_at b'.' value in
    not (is_empty value)
    && value == strip value
    && leb (length value) 8192
    && starts_with value prefix
    && length parts == 4
    && all_of (λ part. not (is_empty part)) parts

abbrev pub require_capability : Text → Text → Result (Unit {0})
require_capability value prefix = require (is_capability value prefix) bad_capability

-- `validate_idempotency_key`
unfoldable pub validate_idempotency_key : Text → Result (Unit {0})
validate_idempotency_key value = do
  require (not (is_empty value) && leb (length value) 255 && value == strip value) invalid_value
  require (all_of (λ c. leb 0x20 c && leb c 0x7E) value) invalid_value
