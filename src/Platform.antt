-- ===== src/Platform.antt =====
-- What the program takes from its platform: `hashlib`, `hmac`, `base64`, `json.dumps`, `datetime`, and
-- the text that `str` gives for a container. The values are bytes or code points, as numbers.
use openlinker_python.Prelude.{
  ℕ, ◌<◌, ◌≡◌, false, ◌||◌, List, ◌++◌, Option, some, All, length, Text, text, ◌==◌, nat_eq,
}
use openlinker_python.Json.{Json}

pub record Platform : Type 0 where
  -- `hashlib.sha256(raw).digest()`: 32 bytes
  pub sha256 : List ℕ → List ℕ
  pub digest_length : (raw : List ℕ) → length (sha256 raw) ≡ 32
  pub digest_bytes : (raw : List ℕ) → All (λ b. b < 256) (sha256 raw)
  -- `hmac.new(key, message, hashlib.sha256).digest()`
  pub hmac_sha256 : (key message : List ℕ) → List ℕ
  pub hmac_length : (key message : List ℕ) → length (hmac_sha256 key message) ≡ 32
  pub hmac_bytes : (key message : List ℕ) → All (λ b. b < 256) (hmac_sha256 key message)
  -- `base64.urlsafe_b64encode`
  pub urlsafe_b64encode : List ℕ → Text
  -- `json.dumps` with `ensure_ascii=False`, sorted keys and no spaces
  pub dumps : Json → Text
  -- `repr` of a list or an object
  pub repr : Json → Text
  -- `datetime.isoformat()` at UTC without its offset: digits, `-`, `:`, `.` and `T`
  pub stamp : ℕ → Text
  pub stamp_plain : (t : ℕ) → All (λ c. (c == b'+' || c == b'Z') ≡ false) (stamp t)
  -- `datetime.fromisoformat`: `none` for a ValueError, `some none` for a time without an offset, and
  -- otherwise the time at UTC
  pub fromisoformat : Text → Option (Option ℕ)
  pub fromisoformat-stamp : (t : ℕ) → fromisoformat (stamp t ++ text "+00:00") ≡ some (some t)
