-- ===== src/Webhook/Signature.antt =====
-- internal/githubx/signature.go: `VerifySignature`. HMAC-SHA256 is the parameter `hmac`.
use arcticworks_codepeer.Base.{
  ◌<◌, ◌≡◌, ap, Bool, true, false, ◌||◌, not, Option, none, some, inl, inr, ◌++◌, if◌then◌else◌,
  is_nil, arith, All, Option-cases,
}
use arcticworks_codepeer.Base.Text.{Text, codes, text_eq, has_prefix, trim_prefix, strip_prefix}
use arcticworks_codepeer.Base.Text.Hex.{encode_hex, decode_hex, decode_hex-encode_hex}
use arcticworks_codepeer.Base.Text.Prefix.{strip_prefix-eq-some}
use arcticworks_codepeer.Base.Text.Order.{text_eq_refl, text_eq→eq}

abbrev pub signature_prefix : Text
signature_prefix = codes "sha256="

-- hmac.Equal on the decoded signature.
equal_digest : Option Text → Text → Bool
equal_digest none digest = false
equal_digest (some provided) digest = text_eq provided digest

module _ (hmac : Text → Text → Text) where
  unfoldable pub verify_signature : Text → Text → Text → Bool
  unfolding equal_digest
  verify_signature secret body header =
      if is_nil header || not (has_prefix header signature_prefix)
      then false
      else equal_digest (decode_hex (trim_prefix header signature_prefix)) (hmac secret body)

equal_digest-true : (o : Option Text) (d : Text) → equal_digest o d ≡ true → o ≡ some d
unfolding equal_digest
equal_digest-true none d h = absurd cc
equal_digest-true (some x) d h = ap some (text_eq→eq x d h)

-- For bytes of a digest: the header "sha256=" with the hexadecimal digest of the body is accepted; a
-- header that is accepted is "sha256=" with a text that decodes to this digest.
pub verify_signature_iff :
    (hmac : Text → Text → Text) (secret body : Text)
    → All (λ b. b < 256) (hmac secret body)
    → (verify_signature hmac secret body (signature_prefix ++ encode_hex (hmac secret body)) ≡ true)
      × ((header : Text)
          → verify_signature hmac secret body header ≡ true
          → (digits : Text) × (header ≡ signature_prefix ++ digits)
            × (decode_hex digits ≡ some (hmac secret body)))
unfolding verify_signature has_prefix trim_prefix strip_prefix
verify_signature_iff hmac secret body h = (
  rw (decode_hex-encode_hex (hmac secret body) h, equal_digest) (text_eq_refl (hmac secret body)),
  λ header e. elim (Option-cases (strip_prefix header signature_prefix)) [
    | inl no_prefix ↦ absurd (ground arith)
    | inr (digits, found) ↦ (
      digits,
      strip_prefix-eq-some header signature_prefix digits found,
      equal_digest-true (decode_hex digits) (hmac secret body) (ground arith),
    )
  ],
)
