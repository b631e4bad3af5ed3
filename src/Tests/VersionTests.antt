-- ===== src/Tests/VersionTests.antt =====
-- Versions: lines of test/unit/version.data, and the results at such texts.
use Prim.Native.String.{String}
use apk_tools.Version.Total.{version_loops_total}
use apk_tools.Version.Match.{operator, negate_if, accepts, apk_version_match_lem}
use apk_tools.Version.Order.Laws.{flip_result}
use apk_tools.Version.Compare.{AtMost, apk_version_compare_flip, apk_version_compare_trans}
use apk_tools.Version.Validate.{apk_version_validate_iff}
use apk_tools.Version.Grammar.{IsVersion}
use apk_tools.Version.{apk_version_less, token_first}
use apk_tools.Prelude.{
  ◌≡◌, true, ◌↔◌, codes, Bool, false, ◌⊎◌, length, inl, ◌&&◌, ◌+◌, ◌||◌, some, refl, ℕ,
}
use apk_tools.Blob.{Blob, blob}
use apk_tools.Version.Loop.{
  apk_version_compare, apk_version_compare_fuzzy, apk_version_validate, compare_loop, version_run,
  apk_version_match, validate_loop,
}

abbrev ver : String → Blob
ver s = blob (codes s)

abbrev rc1 : Blob
rc1 = ver "1.2.0_rc1-r1"

abbrev final : Blob
final = ver "1.2.0-r0"

abbrev patched : Blob
patched = ver "1.2.0_p2"

rc1_less : apk_version_compare rc1 final ≡ apk_version_less
unfolding version_run
rc1_less = refl

final_less : apk_version_compare final patched ≡ apk_version_less
unfolding version_run
final_less = refl

-- Numbers with a leading zero are compared as text, so 1.09 is less than 1.1.
leading_zero : apk_version_compare (ver "1.09") (ver "1.1") ≡ apk_version_less
unfolding version_run
leading_zero = refl

two_letters : apk_version_validate (ver "1.0bc") ≡ false
unfolding version_run
two_letters = refl

full_version : apk_version_validate (ver "1.0.2k_p1~abcdef0-r12") ≡ true
unfolding version_run
full_version = refl

apk_version_validate_iff_example :
    (apk_version_validate (ver "1.2.0-r0") ≡ true) ↔ IsVersion (codes "1.2.0-r0")
apk_version_validate_iff_example = apk_version_validate_iff (codes "1.2.0-r0")

apk_version_compare_trans_example :
    AtMost rc1 patched
    × ((apk_version_compare rc1 final ≡ apk_version_less)
          ⊎ (apk_version_compare final patched ≡ apk_version_less)
        → apk_version_compare rc1 patched ≡ apk_version_less)
apk_version_compare_trans_example =
    apk_version_compare_trans rc1 final patched (inl rc1_less) (inl final_less)

apk_version_compare_flip_example :
    apk_version_compare final rc1 ≡ flip_result (apk_version_compare rc1 final)
apk_version_compare_flip_example = apk_version_compare_flip rc1 final

-- `>=`, not fuzzy, and no conflict.
apk_version_match_lem_example :
    apk_version_match final (operator true false true false false) rc1
    ≡ negate_if false (
        (true && false && true)
        || accepts true false true (apk_version_compare_fuzzy final rc1 false))
apk_version_match_lem_example = apk_version_match_lem final rc1 true false true false false

version_loops_total_example :
    ((r : Bool) × (validate_loop
          (length (codes "1.2_rc") + 2)
          (token_first (codes "1.2_rc")).0
          (token_first (codes "1.2_rc")).1
        ≡ some r)
      × (apk_version_validate (blob (codes "1.2_rc")) ≡ r))
    × ((r : ℕ) × (compare_loop
            (length (codes "1.2_rc") + 2)
            true
            (token_first (codes "1.2_rc")).0
            (token_first (codes "1.2_rc")).1
            (token_first (codes "1.2")).0
            (token_first (codes "1.2")).1
          ≡ some r)
        × (apk_version_compare_fuzzy (blob (codes "1.2_rc")) (blob (codes "1.2")) true ≡ r))
version_loops_total_example = version_loops_total (codes "1.2_rc") (codes "1.2") true
