-- ===== src/Database/Acl/RoundTrip.antt =====
-- An acl that is written is read back.
use apk_tools.Prelude.Table.{all_below, agree_below}
use apk_tools.Blob.Number.{apk_blob_pull_uint, dx}
use apk_tools.Blob.Digest.{Digest, apk_digest_reset}
use mathlib.Core.Option
use apk_tools.Prelude.{
  ℕ, Bytes, refl, ◌<◌, ◌^◌, ◌≤◌, ◌≡◌, some, [], ◌∷◌, codes, ◌++◌, arith, ◌∙◌, subst, append-nil, ap,
  bit_and, ◌%◌, sym,
}
use apk_tools.Blob.{blob, apk_blob_pull_char, Buffer, apk_blob_push_blob, apk_blob_pull_blob_match}
use apk_tools.Blob.Number.RoundTrip.{NoDigit, printed_digits}
use apk_tools.Package.Parse.RoundTrip.{push_blob-append}
use apk_tools.Database.Acl.{
  Acl, read_acl, apk_blob_push_db_acl, pull_number, push_xattr, Digest, some, [], codes, bit_and,
  apk_db_acl_atomize_digest,
}

colon-NoDigit : (radix : ℕ) (b : Bytes) → radix ≤ 10 → NoDigit radix (b':' ∷ b)
unfolding dx
colon-NoDigit radix b h = omega arith

push_five :
    (b : Buffer) (du dg dm : Bytes)
    → apk_blob_push_blob
        (apk_blob_push_blob
          (apk_blob_push_blob (apk_blob_push_blob (apk_blob_push_blob b du) (codes ":")) dg)
          (codes ":"))
        dm
      ≡ apk_blob_push_blob b (du ++ (b':' ∷ (dg ++ (b':' ∷ dm))))
push_five b du dg dm =
    push_blob-append
      (apk_blob_push_blob (apk_blob_push_blob (apk_blob_push_blob b du) (codes ":")) dg) (codes ":")
      dm
    ∙ push_blob-append (apk_blob_push_blob (apk_blob_push_blob b du) (codes ":")) dg (b':' ∷ dm)
    ∙ push_blob-append (apk_blob_push_blob b du) (codes ":") (dg ++ (b':' ∷ dm))
    ∙ push_blob-append b du (b':' ∷ (dg ++ (b':' ∷ dm)))

mode_masked : (m : ℕ) → m < 4096 → bit_and m 4095 ≡ m
unfolding all_below
mode_masked = agree_below 4096 (λ m. bit_and m 4095) (λ m. m) refl

acl_kept :
    (acl : Acl)
    → acl.uid < 2 ^ 32
    → acl.gid < 2 ^ 32
    → acl.mode < 2 ^ 12
    → acl.xattr_hash ≡ []
    → record {
      mode = bit_and (acl.mode % 2 ^ 32) 4095;
      uid = acl.uid % 2 ^ 32;
      gid = acl.gid % 2 ^ 32;
      xattr_hash = [];
    }
      ≡ acl
acl_kept acl hu hg hm none_left =
    let m : acl.mode % 2 ^ 32 ≡ acl.mode = omega arith in
    let u : acl.uid % 2 ^ 32 ≡ acl.uid = omega arith in
    let g : acl.gid % 2 ^ 32 ≡ acl.gid = omega arith in
    rw (m, u, g, mode_masked acl.mode (omega arith), sym none_left) refl

read_text :
    (du dg dm : Bytes) (acl : Acl) (dig : Digest)
    → acl.uid < 2 ^ 32
    → acl.gid < 2 ^ 32
    → acl.mode < 2 ^ 12
    → acl.xattr_hash ≡ []
    → ((rest : Bytes) → NoDigit 10 rest → apk_blob_pull_uint (du ++ rest) 10 ≡ (acl.uid, rest))
    → ((rest : Bytes) → NoDigit 10 rest → apk_blob_pull_uint (dg ++ rest) 10 ≡ (acl.gid, rest))
    → ((rest : Bytes) → NoDigit 8 rest → apk_blob_pull_uint (dm ++ rest) 8 ≡ (acl.mode, rest))
    → read_acl (blob (du ++ (b':' ∷ (dg ++ (b':' ∷ dm))))) dig ≡ some (blob [], acl)
unfolding read_acl pull_number apk_blob_pull_char
read_text du dg dm acl dig hu hg hm none_left gu gg gm =
    let last : apk_blob_pull_uint dm 8 ≡ (acl.mode, []) =
      subst (λ b. apk_blob_pull_uint b 8 ≡ (acl.mode, [])) (append-nil dm) (gm [] tt) in
    rw
      (
        gu (b':' ∷ (dg ++ (b':' ∷ dm))) (colon-NoDigit 10 (dg ++ (b':' ∷ dm)) (omega arith)),
        gg (b':' ∷ dm) (colon-NoDigit 10 dm (omega arith)),
        last,
      )
      (unfold apk_blob_pull_blob_match in
        unfold apk_digest_reset in
        unfold apk_db_acl_atomize_digest in
        ap some (ap (λ a. (blob [], a)) (acl_kept acl hu hg hm none_left)))

-- An owner, a group and a mode with no extended attributes are read back from the line that
-- `apk_blob_push_db_acl` writes: the field, a colon, a text and the end of the line, where the text
-- is read to its end as the same acl, whatever digest was read before.
pub read_acl-apk_blob_push_db_acl :
    (b : Buffer) (field : ℕ) (acl : Acl) (dig : Digest)
    → acl.uid < 2 ^ 32
    → acl.gid < 2 ^ 32
    → acl.mode < 2 ^ 12
    → acl.xattr_hash ≡ []
    → (text : Bytes) × (apk_blob_push_db_acl b field acl
        ≡ some (
            apk_blob_push_blob
              (apk_blob_push_blob (apk_blob_push_blob b (field ∷ b':' ∷ [])) text)
              (codes "\n")))
      × (read_acl (blob text) dig ≡ some (blob [], acl))
unfolding apk_blob_push_db_acl push_xattr Option.bind
read_acl-apk_blob_push_db_acl b field acl dig hu hg hm none_left =
    let b0 = apk_blob_push_blob b (field ∷ b':' ∷ []) in
    let (du, pu, gu) = printed_digits b0 acl.uid 10 (omega arith) (omega arith) (omega arith) in
    let (dg, pg, gg) =
      printed_digits (apk_blob_push_blob (apk_blob_push_blob b0 du) (codes ":")) acl.gid 10
        (omega arith) (omega arith) (omega arith) in
    let (dm, pm, gm) =
      printed_digits
        (apk_blob_push_blob
          (apk_blob_push_blob (apk_blob_push_blob (apk_blob_push_blob b0 du) (codes ":")) dg)
          (codes ":"))
        acl.mode 8 (omega arith) (omega arith) (omega arith) in
    (
      du ++ (b':' ∷ (dg ++ (b':' ∷ dm))),
      rw (pu, pg, pm, none_left)
          (ap some (ap (λ t. apk_blob_push_blob t (codes "\n")) (push_five b0 du dg dm))),
      read_text du dg dm acl dig hu hg hm none_left gu gg gm,
    )
