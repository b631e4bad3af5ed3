-- ===== src/Version/Validate.antt =====
-- `apk_version_validate` accepts the grammar, and nothing else.
mod Sound
mod Complete
use apk_tools.Version.Validate.Complete.{IsVersion-validate}
use apk_tools.Version.Validate.Sound.{validate-IsVersion}
use apk_tools.Version.Grammar.{IsVersion}
use apk_tools.Version.Total.{version_loops_total}
use apk_tools.Blob.Number.{apk_blob_pull_uint, pull_digits}
use apk_tools.Version.{token_first, token_parse_digits, apk_blob_pull_uint}
use apk_tools.Blob.{blob, null}
use apk_tools.Prelude.{Bytes, Bool, length, ◌≡◌, ◌+◌, true, some, ◌↔◌, false, ◌∙◌, refl, ap, sym}
use apk_tools.Version.Loop.{apk_version_validate, validate_loop}

loop_value :
    (b : Bytes)
    → (r : Bool) × (validate_loop (length b + 2) (token_first b).0 (token_first b).1 ≡ some r)
      × (apk_version_validate (blob b) ≡ r)
loop_value b = (version_loops_total b b false).0

-- A text passes the validation exactly when the grammar
-- digit{.digit}...{letter}{_suf{#}}...{~hash}{-r#} derives it.
pub apk_version_validate_iff : (b : Bytes) → (apk_version_validate (blob b) ≡ true) ↔ IsVersion b
apk_version_validate_iff b =
    let (r, e, er) = loop_value b in
    (λ h. validate-IsVersion b (e ∙ ap some (sym er ∙ h)), λ v. er ∙ IsVersion-validate b v e)

-- A NULL blob is no valid version.
pub apk_version_validate_null : apk_version_validate null ≡ false
unfolding apk_version_validate validate_loop token_first token_parse_digits apk_blob_pull_uint
    pull_digits
apk_version_validate_null = refl
