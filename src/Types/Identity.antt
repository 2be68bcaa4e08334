-- ===== src/Types/Identity.antt =====
-- `RuntimeAttemptIdentity` of src/openlinker/runtime/types.py, its JSON form, and the conversions that
-- its decoder and others share. An integer that validation refuses below 1 is a natural number.
use openlinker_python.Prelude.{
  ℕ, ◌≡◌, List, [], ◌∷◌, text, contains, all_of, text_beq, ℤ, pos, negsuc, Bool, ◌&&◌, Text,
  text_eq, nat_eq, ◌==◌, leb, length, map,
}
use openlinker_python.Json.{Json, arr, items, keys, Fields, end, field, str, int, obj, get_field}
use openlinker_python.Json.Convert.{str_of, int_of}
use openlinker_python.Platform.{Platform}
use openlinker_python.Types.Checks.{require_keys}
use openlinker_python.Errors.{
  Result, ok, err, bad_uuid, bad_attempt_identity, missing_key, not_an_integer, invalid_value, ◌>>◌,
  ◌>>=◌, require, some_or, recast,
}
use openlinker_python.Types.Uuid.{is_uuid}

pub record RuntimeAttemptIdentity : Type 0 where
  pub run_id : Text
  pub attempt_id : Text
  pub lease_id : Text
  pub fencing_token : ℕ
  pub node_id : Text
  pub agent_id : Text
  pub worker_id : Text
  pub runtime_session_id : Text

-- the generated `__eq__`
unfoldable pub attempt_beq : RuntimeAttemptIdentity → RuntimeAttemptIdentity → Bool
attempt_beq a b =
    (a.run_id == b.run_id && a.attempt_id == b.attempt_id)
    && (a.lease_id == b.lease_id && a.fencing_token == b.fencing_token)
    && (a.node_id == b.node_id && a.agent_id == b.agent_id)
    && (a.worker_id == b.worker_id && a.runtime_session_id == b.runtime_session_id)

-- `validate`
unfoldable pub validate : RuntimeAttemptIdentity → Result (Unit {0})
validate i = do
  require (is_uuid i.run_id) bad_uuid
  require (is_uuid i.attempt_id) bad_uuid
  require (is_uuid i.lease_id) bad_uuid
  require (is_uuid i.node_id) bad_uuid
  require (is_uuid i.agent_id) bad_uuid
  require (is_uuid i.runtime_session_id) bad_uuid
  require (leb 1 (length i.worker_id) && leb (length i.worker_id) 200 && leb 1 i.fencing_token)
      bad_attempt_identity

-- An integer for a field that is refused below 1, where 0 stands for every number below.
abbrev pub nat_of : ℤ → ℕ
nat_of (pos n) = n
nat_of (negsuc n) = 0

abbrev pub identity_keys : List Text
identity_keys =
    text "run_id"
    ∷ text "attempt_id"
    ∷ text "lease_id"
    ∷ text "fencing_token"
    ∷ text "node_id"
    ∷ text "agent_id"
    ∷ text "worker_id"
    ∷ text "runtime_session_id"
    ∷ []

-- `value[key]`
abbrev pub item : Fields → Text → Result Json
item fs k = some_or (get_field fs k) missing_key

-- `int(value)`
abbrev pub to_int : Json → Result ℤ
to_int v = some_or (int_of v) not_an_integer

-- what a loop over a value goes through
abbrev pub elements : Json → Result (List Json)
elements (arr xs) = ok (items xs)
elements (str t) = ok (map (λ c. str (c ∷ [])) t)
elements (obj fs) = ok (map str (keys fs))
elements _ = err invalid_value

-- `to_dict`
unfoldable pub attempt_to_dict : RuntimeAttemptIdentity → Fields
attempt_to_dict a = field (text "run_id") (str a.run_id) (
    field (text "attempt_id") (str a.attempt_id) (
      field (text "lease_id") (str a.lease_id) (
        field (text "fencing_token") (int (pos a.fencing_token)) (
          field (text "node_id") (str a.node_id) (
            field (text "agent_id") (str a.agent_id) (
              field (text "worker_id") (str a.worker_id)
                (field (text "runtime_session_id") (str a.runtime_session_id) end)))))))

module _ ⦃p : Platform⦄ where
  -- the fields of `from_dict`
  unfoldable pub attempt_fields : Fields → Result RuntimeAttemptIdentity
  attempt_fields fs = do
    run_id ← item fs (text "run_id")
    attempt_id ← item fs (text "attempt_id")
    lease_id ← item fs (text "lease_id")
    token ← item fs (text "fencing_token")
    fencing_token ← to_int token
    node_id ← item fs (text "node_id")
    agent_id ← item fs (text "agent_id")
    worker_id ← item fs (text "worker_id")
    runtime_session_id ← item fs (text "runtime_session_id")
    ok (record {
      run_id = str_of run_id;
      attempt_id = str_of attempt_id;
      lease_id = str_of lease_id;
      fencing_token = nat_of fencing_token;
      node_id = str_of node_id;
      agent_id = str_of agent_id;
      worker_id = str_of worker_id;
      runtime_session_id = str_of runtime_session_id;
    })

  -- `from_dict`
  unfoldable pub attempt_from_dict : Json → Result RuntimeAttemptIdentity
  unfolding attempt_fields
  attempt_from_dict v = do
    fs ← require_keys v identity_keys []
    a ← recast bad_attempt_identity (attempt_fields fs)
    validate a
    ok a

  -- A valid identity is decoded as it was encoded.
  pub attempt_from_dict-attempt_to_dict :
      (a : RuntimeAttemptIdentity)
      → validate a ≡ ok tt
      → attempt_from_dict (obj (attempt_to_dict a)) ≡ ok a
  unfolding attempt_from_dict attempt_to_dict require_keys get_field contains all_of text_beq str_of
      int_of recast
  attempt_from_dict-attempt_to_dict a h = rw h
