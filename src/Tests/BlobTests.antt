-- ===== src/Tests/BlobTests.antt =====
-- Blobs: the results at small texts.
use apk_tools.Blob.Number.Digits.{dx-digit_value}
use apk_tools.Blob.Number.RoundTrip.{NoDigit, apk_blob_pull_uint-apk_blob_push_uint}
use apk_tools.Blob.Number.{apk_blob_push_uint, apk_blob_pull_uint}
use apk_tools.Blob.{apk_blob_sort, room, apk_blob_push_blob}
use apk_tools.Prelude.{codes, [], Bytes, ◌≡◌, some, ◌++◌, arith}
use apk_tools.Blob.Compare.{apk_blob_sort-lex, lex}

apk_blob_sort-lex_example : apk_blob_sort (codes "ab") (codes "b") ≡ lex (codes "ab") (codes "b")
apk_blob_sort-lex_example = apk_blob_sort-lex (codes "ab") (codes "b") (omega arith) (omega arith)

apk_blob_pull_uint-apk_blob_push_uint_example :
    (digits : Bytes) × (apk_blob_push_uint (room [] 20) 755 8
      ≡ some (apk_blob_push_blob (room [] 20) digits))
    × (apk_blob_pull_uint (digits ++ codes " x") 8 ≡ (755, codes " x"))
apk_blob_pull_uint-apk_blob_push_uint_example =
    apk_blob_pull_uint-apk_blob_push_uint (room [] 20) 755 8 (codes " x") (omega arith)
      (omega arith) (omega arith) (space_no_digit)
  where
    space_no_digit : NoDigit 8 (codes " x")
    space_no_digit = omega (arith, dx-digit_value 32)
