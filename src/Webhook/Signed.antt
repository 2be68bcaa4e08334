-- ===== src/Webhook/Signed.antt =====
-- Which signatures src/openlinker/webhook.py accepts.
use openlinker_python.Prelude.{
  ℕ, ◌+◌, ◌*◌, ◌/◌, ◌%◌, ◌<◌, ◌≡◌, ◌↔◌, ◌⊎◌, refl, sym, ap, ◌∙◌, Bool, true, false, not, ◌&&◌, List,
  [], ◌∷◌, ◌++◌, All, length, leb, some, none, Text, text, arith, nat_eq, text_eq, text_beq, ◌==◌,
  inl, inr, Option-cases, Bool-cases, text_beq_sound, text_beq_complete,
}
use openlinker_python.Text.{strip, strip_left, strip_right, is_space, lower, starts_with, is_empty}
use openlinker_python.Platform.{Platform}
use openlinker_python.Types.Uuid.{is_hex, hex_digit, hex_text, utf8}
use openlinker_python.Types.Uuid.Valid.{is_hex-hex_digit}
use openlinker_python.Webhook.{
  remove_prefix, normalize_signature, hex_value, is_blank, from_hex, from_hex_after, compare_hex,
  signature_header, task_callback_signature_from_header, sign_task_callback_payload,
  verify_task_callback_signature, verify_task_callback_request_body,
}

-- neither white space nor a capital
abbrev is_plain : ℕ → Bool
is_plain c = not (is_space c) && not (leb b'A' c && leb c b'Z')

abbrev IsPlain : Text → Type 0
IsPlain = All (λ c. is_plain c ≡ true)

is_plain_of_hex : (c : ℕ) → is_hex c ≡ true → is_plain c ≡ true
unfolding is_space
is_plain_of_hex c h = ground arith

strip_left-plain : (t : Text) → IsPlain t → strip_left t ≡ t
unfolding strip_left
strip_left-plain [] h = refl
strip_left-plain (c ∷ t) h = ground arith

strip_right-plain : (t : Text) → IsPlain t → strip_right t ≡ t
unfolding strip_right
strip_right-plain [] h = refl
strip_right-plain (c ∷ []) h = ground arith
strip_right-plain (c ∷ d ∷ t) h = let ih = strip_right-plain (d ∷ t) h.1 in rw ih (ground arith)

lower-plain : (t : Text) → IsPlain t → lower t ≡ t
unfolding lower
lower-plain [] h = refl
lower-plain (c ∷ t) h = ground (arith, lower-plain t)

hex_text-IsPlain : (bs : List ℕ) → All (λ b. b < 256) bs → IsPlain (hex_text bs)
unfolding hex_text
hex_text-IsPlain [] h = tt
hex_text-IsPlain (b ∷ bs) h = (
  is_plain_of_hex _ (is_hex-hex_digit (b / 16) (omega (arith, h.0))),
  (is_plain_of_hex _ (is_hex-hex_digit (b % 16) (omega arith)), hex_text-IsPlain bs h.1),
)

hex_value-hex_digit : (n : ℕ) → n < 16 → hex_value (hex_digit n) ≡ some n
unfolding hex_value
hex_value-hex_digit n h = ground arith

hex_not_blank : (c : ℕ) → is_hex c ≡ true → is_blank c ≡ false
hex_not_blank c h = ground arith

from_hex_pair :
    (c d high low : ℕ) (t : Text) (bs : List ℕ)
    → is_blank c ≡ false
    → hex_value c ≡ some high
    → hex_value d ≡ some low
    → from_hex t ≡ some bs
    → from_hex (c ∷ d ∷ t) ≡ some ((high * 16 + low) ∷ bs)
unfolding from_hex_after
from_hex_pair c d high low t bs solid e f g = ground arith

from_hex-hex_text : (bs : List ℕ) → All (λ b. b < 256) bs → from_hex (hex_text bs) ≡ some bs
unfolding from_hex_after hex_text
from_hex-hex_text [] h = refl
from_hex-hex_text (b ∷ bs) h =
    let high : b / 16 < 16 = omega (arith, h.0) in
    let low : b % 16 < 16 = omega arith in
    let whole : b / 16 * 16 + b % 16 ≡ b = omega arith in
    from_hex_pair (hex_digit (b / 16)) (hex_digit (b % 16)) (b / 16) (b % 16) (hex_text bs) bs
      (hex_not_blank (hex_digit (b / 16)) (is_hex-hex_digit (b / 16) high))
      (hex_value-hex_digit (b / 16) high) (hex_value-hex_digit (b % 16) low)
      (from_hex-hex_text bs h.1)
    ∙ ap (λ n. some (n ∷ bs)) whole

normalize_signature-plain :
    (t : Text) → IsPlain t → normalize_signature t ≡ remove_prefix t (text "sha256=")
unfolding normalize_signature strip
normalize_signature-plain t h =
    rw (strip_left-plain t h, strip_right-plain t h, lower-plain t h) refl

-- the prefix does not start a text of digits
remove_prefix-hex_text :
    (bs : List ℕ)
    → All (λ b. b < 256) bs
    → remove_prefix (hex_text bs) (text "sha256=") ≡ hex_text bs
unfolding remove_prefix starts_with hex_text
remove_prefix-hex_text [] h = refl
remove_prefix-hex_text (b ∷ bs) h =
    let digit = is_hex-hex_digit (b / 16) (omega (arith, h.0)) in ground arith

normalize_signature-hex_text :
    (bs : List ℕ) → All (λ b. b < 256) bs → normalize_signature (hex_text bs) ≡ hex_text bs
normalize_signature-hex_text bs h =
    normalize_signature-plain (hex_text bs) (hex_text-IsPlain bs h) ∙ remove_prefix-hex_text bs h

normalize_signature-prefixed :
    (bs : List ℕ)
    → All (λ b. b < 256) bs
    → normalize_signature (text "sha256=" ++ hex_text bs) ≡ hex_text bs
unfolding remove_prefix starts_with is_space
normalize_signature-prefixed bs h =
    normalize_signature-plain (text "sha256=" ++ hex_text bs)
      (refl, (refl, (refl, (refl, (refl, (refl, (refl, hex_text-IsPlain bs h)))))))

is_empty-hex_text : (bs : List ℕ) → length bs ≡ 32 → is_empty (hex_text bs) ≡ false
unfolding hex_text
is_empty-hex_text [] h = absurd (omega arith)
is_empty-hex_text (b ∷ bs) h = refl

compare_hex-some :
    (expected actual : Text) (bs cs : List ℕ)
    → from_hex expected ≡ some bs
    → from_hex actual ≡ some cs
    → compare_hex expected actual ≡ text_beq bs cs
unfolding compare_hex
compare_hex-some expected actual bs cs e f = ground arith

compare_hex-none :
    (expected actual : Text) → from_hex actual ≡ none → compare_hex expected actual ≡ false
unfolding compare_hex
compare_hex-none expected actual e = ground arith

compare_hex_iff :
    (expected actual : Text) (bs : List ℕ)
    → from_hex expected ≡ some bs
    → (compare_hex expected actual ≡ true) ↔ (from_hex actual ≡ some bs)
compare_hex_iff expected actual bs e = elim (Option-cases (from_hex actual)) [
  | inl q ↦
      rw (compare_hex-none expected actual q, q)
        (λ h. absurd (ground arith), λ h. absurd (ground arith))
  | inr (cs, q) ↦
      rw (compare_hex-some expected actual bs cs e q, q)
        (λ h. ap some (sym (text_beq_sound bs cs h)), λ h. text_beq_complete bs cs (ground arith))
]

from_hex_empty : (t : Text) → is_empty t ≡ true → from_hex t ≡ some []
unfolding from_hex_after
from_hex_empty [] h = refl
from_hex_empty (c ∷ t) h = absurd (ground arith)

from_header-found :
    (before after : List (Text × Text)) (key signature : Text)
    → All (λ header. (lower header.0 == signature_header) ≡ false) before
    → lower key ≡ signature_header
    → task_callback_signature_from_header (before ++ (key, signature) ∷ after) ≡ signature
unfolding task_callback_signature_from_header
from_header-found [] after key signature others name =
    let found = text_beq_complete (lower key) signature_header name in ground arith
from_header-found ((k, v) ∷ before) after key signature others name =
    let other = others.0 in
    ground (arith, from_header-found before after key signature others.1 name)

module _ ⦃p : Platform⦄ (payload : List ℕ) (secret : Text) where
  abbrev mac : List ℕ
  mac = p.hmac_sha256 (utf8 secret) payload

  mac-bytes : All (λ b. b < 256) mac
  mac-bytes = p.hmac_bytes (utf8 secret) payload

  -- A signature is accepted just when, stripped, in lower case and without the prefix, it is read by
  -- `bytes.fromhex` as the HMAC of the payload.
  pub verify_task_callback_signature_iff :
      (signature : Text)
      → (verify_task_callback_signature payload secret signature ≡ true)
        ↔ (from_hex (normalize_signature signature) ≡ some mac)
  unfolding verify_task_callback_signature sign_task_callback_payload
  verify_task_callback_signature_iff signature =
      let digits = normalize_signature-hex_text mac mac-bytes in
      let full = is_empty-hex_text mac (p.hmac_length (utf8 secret) payload) in
      rw (digits, full)
        (elim (Bool-cases (is_empty (normalize_signature signature))) [
          | inr filled ↦ rw filled (
              compare_hex_iff (hex_text mac) (normalize_signature signature) mac
                (from_hex-hex_text mac mac-bytes))
          | inl empty ↦
              let nothing = from_hex_empty (normalize_signature signature) empty in
              let long = p.hmac_length (utf8 secret) payload in
              rw (empty, nothing) (λ h. absurd (ground arith), λ h. absurd (ground arith))
        ])

  -- A signature that the platform may send for the payload.
  abbrev pub IsSignature : Text → Type 0
  IsSignature signature =
      (signature ≡ sign_task_callback_payload payload secret)
      ⊎ (signature ≡ text "sha256=" ++ sign_task_callback_payload payload secret)

  IsSignature-verified :
      (signature : Text)
      → IsSignature signature
      → (is_empty signature ≡ false)
        × (verify_task_callback_signature payload secret signature ≡ true)
  unfolding sign_task_callback_payload
  IsSignature-verified signature h =
      let decoded = from_hex-hex_text mac mac-bytes in
      let verified = verify_task_callback_signature_iff in
      elim h [
        | inl e ↦ rw e (
          is_empty-hex_text mac (p.hmac_length (utf8 secret) payload),
          (verified (hex_text mac)).1
              (ap from_hex (normalize_signature-hex_text mac mac-bytes) ∙ decoded),
        )
        | inr e ↦ rw e (
          refl,
          (verified (text "sha256=" ++ hex_text mac)).1
              (ap from_hex (normalize_signature-prefixed mac mac-bytes) ∙ decoded),
        )
      ]

  -- A request with a signature of its body in the signature header, whatever the case of its name and
  -- behind any other headers, is accepted, and its body comes back.
  pub verify_task_callback_request_body-signed :
      (before after : List (Text × Text)) (key signature : Text)
      → All (λ header. (lower header.0 == signature_header) ≡ false) before
      → lower key ≡ signature_header
      → IsSignature signature
      → verify_task_callback_request_body payload (before ++ (key, signature) ∷ after) secret
        ≡ (payload, true)
  unfolding verify_task_callback_request_body
  verify_task_callback_request_body-signed before after key signature others name h =
      let (filled, verified) = IsSignature-verified signature h in
      rw (from_header-found before after key signature others name, filled, verified) refl
