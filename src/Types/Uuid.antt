-- ===== src/Types/Uuid.antt =====
-- Identifiers of src/openlinker/runtime: the check that a text is a lowercase non-zero UUID, and
-- the UUIDs that are computed from a digest.
pub mod Valid
use openlinker_python.Prelude.{
  ℕ, zero, suc, ◌+◌, ◌/◌, ◌%◌, Bool, true, false, ◌&&◌, ◌||◌, not, List, [], ◌∷◌, ◌++◌, ltb, leb,
  ◌==◌, nat_eq, if◌then◌else◌, take, drop, Option, none, some, Text, text,
}
use openlinker_python.Platform.{Platform}

abbrev pub is_hex : ℕ → Bool
is_hex c = (leb b'0' c && leb c b'9') || (leb b'a' c && leb c b'f')

-- `n` lowercase hexadecimal digits, and what follows them
unfoldable pub hex_group : ℕ → Text → Option Text
hex_group zero t = some t
hex_group (suc n) [] = none
hex_group (suc n) (c ∷ t) = elim (is_hex c) [ true ↦ hex_group n t | false ↦ none ]

unfoldable pub dash : Text → Option Text
dash [] = none
dash (c ∷ t) = if c == b'-' then some t else none

infixl 5 ◌>>=◌
abbrev ◌>>=◌ {ℓ} : {A B : Type ℓ} → Option A → (A → Option B) → Option B
none >>= f = none
some a >>= f = f a

abbrev ends : Option Text → Bool
ends (some []) = true
ends _ = false

-- The form that `str(uuid.UUID(...))` has: 8-4-4-4-12 lowercase digits.
unfoldable pub uuid_form : Text → Option Text
uuid_form t = do
  a ← hex_group 8 t
  b ← dash a
  c ← hex_group 4 b
  d ← dash c
  e ← hex_group 4 d
  f ← dash e
  g ← hex_group 4 f
  h ← dash g
  hex_group 12 h

-- `parsed.int != 0`: some digit is not 0
unfoldable pub has_nonzero : Text → Bool
has_nonzero [] = false
has_nonzero (c ∷ t) = not (c == b'0' || c == b'-') || has_nonzero t

-- `str(uuid.UUID(value)) == value and uuid.UUID(value).int != 0`. A value that `uuid.UUID` refuses
-- has not this form either.
unfoldable pub is_uuid : Text → Bool
unfolding uuid_form
is_uuid t = ends (uuid_form t) && has_nonzero t

abbrev pub hex_digit : ℕ → ℕ
hex_digit n = if ltb n 10 then n + 48 else n + 87

unfoldable pub hex_text : List ℕ → Text
hex_text [] = []
hex_text (b ∷ bs) = hex_digit (b / 16) ∷ hex_digit (b % 16) ∷ hex_text bs

-- `str(uuid.UUID(bytes=b))`
unfoldable pub uuid_text : List ℕ → Text
uuid_text b =
    hex_text (take 4 b)
    ++ b'-'
      ∷ (hex_text (take 2 (drop 4 b))
          ++ b'-'
            ∷ (hex_text (take 2 (drop 6 b))
                ++ b'-' ∷ (hex_text (take 2 (drop 8 b)) ++ b'-' ∷ hex_text (take 6 (drop 10 b)))))

-- `digest[6] = (digest[6] & 0x0F) | 0x50; digest[8] = (digest[8] & 0x3F) | 0x80`
unfoldable pub stamp : List ℕ → List ℕ
stamp (b0 ∷ b1 ∷ b2 ∷ b3 ∷ b4 ∷ b5 ∷ b6 ∷ b7 ∷ b8 ∷ rest) =
    b0 ∷ b1 ∷ b2 ∷ b3 ∷ b4 ∷ b5 ∷ (b6 % 16 + 0x50) ∷ b7 ∷ (b8 % 64 + 0x80) ∷ rest
stamp bs = bs

-- `value.encode()`, for code points that are no surrogates
unfoldable pub utf8 : Text → List ℕ
utf8 [] = []
utf8 (c ∷ t) =
    (if ltb c 0x80
      then c ∷ []
      else if ltb c 0x800
      then (0xC0 + c / 64) ∷ (0x80 + c % 64) ∷ []
      else if ltb c 0x10000
      then (0xE0 + c / 4096) ∷ (0x80 + (c / 64) % 64) ∷ (0x80 + c % 64) ∷ []
      else (0xF0 + c / 262144)
        ∷ (0x80 + (c / 4096) % 64)
        ∷ (0x80 + (c / 64) % 64)
        ∷ (0x80 + c % 64)
        ∷ [])
    ++ utf8 t

abbrev pub deterministic_domain : Text
deterministic_domain = text "openlinker/runtime/deterministic-id"

-- `"".join("\x00" + part for part in parts)`
unfoldable pub join_parts : List Text → Text
join_parts [] = []
join_parts (p ∷ ps) = 0 ∷ (p ++ join_parts ps)

module _ ⦃p : Platform⦄ where
  unfoldable pub digest_uuid : List ℕ → Text
  digest_uuid raw = uuid_text (stamp (take 16 (p.sha256 raw)))

  -- `deterministic_uuid`
  unfoldable pub deterministic_uuid : List Text → Text
  deterministic_uuid parts = digest_uuid (utf8 (deterministic_domain ++ join_parts parts))

  -- `_token_scoped_runtime_node_id` of worker.py
  unfoldable pub token_scoped_runtime_node_id : Text → Text
  token_scoped_runtime_node_id agent_token =
      digest_uuid (text "openlinker/runtime-worker/token-scoped-node/v1" ++ 0 ∷ utf8 agent_token)
