-- ===== src/Webhook/Examples.antt =====
-- The theorems on src/openlinker/webhook.py at concrete values.
use openlinker_python.Prelude.{
  ◌≡◌, ◌↔◌, refl, true, [], ◌∷◌, ◌++◌, inr, some, none, text, nat_eq, text_eq, text_beq,
}
use openlinker_python.Examples.{flat, zeros}
use openlinker_python.Text.{lower, strip, strip_left, strip_right, is_space, starts_with}
use openlinker_python.Webhook.{
  from_hex, from_hex_after, hex_value, normalize_signature, remove_prefix,
  sign_task_callback_payload, verify_task_callback_signature, verify_task_callback_request_body,
}
use openlinker_python.Webhook.Signed.{
  verify_task_callback_signature_iff, verify_task_callback_request_body-signed,
}

from_hex_runs : from_hex (text "0a fF") ≡ some (10 ∷ 255 ∷ [])
unfolding from_hex_after hex_value
from_hex_runs = refl

from_hex_odd : from_hex (text "0a f") ≡ none
unfolding from_hex_after hex_value
from_hex_odd = refl

normalize_signature_runs : normalize_signature (text " SHA256=0A ") ≡ text "0a"
unfolding normalize_signature remove_prefix strip strip_left strip_right is_space lower starts_with
normalize_signature_runs = refl

verify_task_callback_signature_iff_example :
    (verify_task_callback_signature (1 ∷ 2 ∷ []) (text "secret") (text "sha256=00") ≡ true)
    ↔ (from_hex (normalize_signature (text "sha256=00")) ≡ some zeros)
verify_task_callback_signature_iff_example =
    verify_task_callback_signature_iff (1 ∷ 2 ∷ []) (text "secret") (text "sha256=00")

verify_task_callback_request_body-signed_example :
    verify_task_callback_request_body
      (1 ∷ 2 ∷ [])
      ((text "Host", text "x")
        ∷ (
          text "X-OpenLinker-Signature",
          text "sha256=" ++ sign_task_callback_payload (1 ∷ 2 ∷ []) (text "secret"),
        )
        ∷ [])
      (text "secret")
    ≡ (1 ∷ 2 ∷ [], true)
unfolding lower text_beq
verify_task_callback_request_body-signed_example =
    verify_task_callback_request_body-signed (1 ∷ 2 ∷ []) (text "secret")
      ((text "Host", text "x") ∷ []) [] (text "X-OpenLinker-Signature")
      (text "sha256=" ++ sign_task_callback_payload (1 ∷ 2 ∷ []) (text "secret")) (refl, tt) refl
      (inr refl)
