-- ===== src/Examples.antt =====
-- Concrete platforms, identities and records for the tests of the other modules.
use openlinker_python.Prelude.{
  zero, suc, ◌≡◌, ap, some, ◌++◌, ◌||◌, false, ◌==◌, nat_eq, if◌then◌else◌, ℕ, ◌<◌, refl, List, [],
  ◌∷◌, Text, text, arith, All, pos,
}
use openlinker_python.Json.{end}
use openlinker_python.Platform.{Platform}
use openlinker_python.Types.Identity.{RuntimeAttemptIdentity}
use openlinker_python.Store.State.{received}
use openlinker_python.Store.Records.{AssignmentRecord, from_attempt}

abbrev pub zeros : List ℕ
zeros =
    0 ∷ 0 ∷ 0 ∷ 0 ∷ 0 ∷ 0 ∷ 0 ∷ 0 ∷ 0 ∷ 0 ∷ 0 ∷ 0 ∷ 0 ∷ 0 ∷ 0 ∷ 0 ∷ 0 ∷ 0 ∷ 0 ∷ 0 ∷ 0 ∷ 0 ∷ 0 ∷ 0
    ∷ 0 ∷ 0 ∷ 0 ∷ 0 ∷ 0 ∷ 0 ∷ 0 ∷ 0 ∷ []

pub zeros-bytes : All (λ b. b < 256) zeros
zeros-bytes = omega arith

-- a time as a row of digits
abbrev ones : ℕ → Text
ones zero = []
ones (suc n) = b'1' ∷ ones n

pub ones-plain : (n : ℕ) → All (λ c. (c == b'+' || c == b'Z') ≡ false) (ones n)
ones-plain zero = tt
ones-plain (suc n) = (refl, ones-plain n)

-- the digits before another character
abbrev count_ones : Text → ℕ
count_ones [] = 0
count_ones (c ∷ t) = if c == b'1' then suc (count_ones t) else 0

pub count_ones-ones : (n : ℕ) → count_ones (ones n ++ text "+00:00") ≡ n
count_ones-ones zero = refl
count_ones-ones (suc n) = ap suc (count_ones-ones n)

-- A hash function that does not depend on its input.
instance abbrev pub flat : Platform
flat = record {
  sha256 = λ raw. zeros;
  digest_length = λ raw. refl;
  digest_bytes = λ raw. zeros-bytes;
  hmac_sha256 = λ key message. zeros;
  hmac_length = λ key message. refl;
  hmac_bytes = λ key message. zeros-bytes;
  urlsafe_b64encode = λ raw. raw;
  dumps = λ v. [];
  repr = λ v. [];
  stamp = ones;
  stamp_plain = ones-plain;
  fromisoformat = λ t. some (some (count_ones t));
  fromisoformat-stamp = λ t. ap (λ n. some (some n)) (count_ones-ones t);
}

abbrev pub attempt_a : Text
attempt_a = text "00000000-0000-4000-8000-00000000000a"

abbrev pub attempt : RuntimeAttemptIdentity
attempt = record {
  run_id = text "00000000-0000-4000-8000-000000000001";
  attempt_id = attempt_a;
  lease_id = text "00000000-0000-4000-8000-000000000003";
  fencing_token = 1;
  node_id = text "00000000-0000-4000-8000-000000000004";
  agent_id = text "00000000-0000-4000-8000-000000000005";
  worker_id = text "worker";
  runtime_session_id = text "00000000-0000-4000-8000-000000000006";
}

abbrev pub assignment : AssignmentRecord
assignment = record {
  identity = from_attempt attempt 1;
  input = end;
  metadata = end;
  node_envelope = [];
  agent_invocation_token = [];
  offer_expires_at = 10;
  attempt_deadline_at = 20;
  run_deadline_at = 30;
  state = received;
  last_client_event_seq = 0;
  acked_client_event_seq = 0;
  acked_out_of_order_event_seqs = [];
  result_id = [];
  final_client_event_seq = pos 0;
  updated_at = 0;
}
