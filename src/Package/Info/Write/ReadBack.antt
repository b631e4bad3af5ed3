-- ===== src/Package/Info/Write/ReadBack.antt =====
-- The lines of an index that are written are read back.
use apk_tools.Blob.Hex.RoundTrip.{AreBytes}
use apk_tools.Blob.Digest.{Digest, apk_digest_sha1, apk_blob_pull_digest}
use apk_tools.Blob.Search.Laws.{Without}
use apk_tools.Package.Info.Write.OneLine.{push_hash-Without}
use mathlib.Core.Option
use apk_tools.Prelude.{
  ℕ, Bytes, List, some, [], ◌∷◌, refl, ◌++◌, Bool, ◌≡◌, subst, ap, sym, append-nil, ◌<◌, ◌^◌, arith,
  Bool-cases, inl, inr, ltb, length, false, take, replicate, ◌%◌, if◌then◌else◌, codes,
}
use apk_tools.Blob.{room, blob, apk_blob_push_blob, apk_blob_pushed}
use apk_tools.Blob.Digest.RoundTrip.{apk_blob_pull_digest-apk_blob_push_hash}
use apk_tools.Errors.{ok, err, enobufs}
use apk_tools.Package.Parse.RoundTrip.{push_blob-append}
use apk_tools.Package.Info.{
  Template, Compat, apk_pkgtmpl_add_info, apk_pkgtmpl_reset, Bool, Digest, false, text_or_other,
  replicate, text_field, number_or_list, number_field, list_field, digest_field,
}
use apk_tools.Package.Info.Write.{
  push_all, length, header_lines, take, name_of, apk_pkg_write_index_header, push_header,
  write_pushed, codes, write_lists,
}
use apk_tools.Package.Info.Write.Lines.{
  lines_text, AreLines, Adds, Step, Step-nil, Step-cons, Step-field, Step-optional, Step-number,
  Step-nonzero,
}

-- What the index says of a package: texts with no end of line, numbers that fit their fields, and a
-- digest of at least 20 bytes.
pub record IsIndexable (info : Template) : Type 0 where
  pub package_name : Bytes
  pub name_eq : info.name ≡ some package_name
  pub name_line : Without b'\n' package_name
  pub version_line : Without b'\n' info.version
  pub arch_line : Without b'\n' info.arch
  pub description_line : Without b'\n' info.description
  pub url_line : Without b'\n' info.url
  pub license_line : Without b'\n' info.license
  pub origin_line : Without b'\n' info.origin
  pub maintainer_line : Without b'\n' info.maintainer
  pub commit_line : Without b'\n' info.commit
  pub size_fits : info.size < 2 ^ 64
  pub installed_fits : info.installed_size < 2 ^ 64
  pub time_fits : info.build_time < 2 ^ 64
  pub priority_fits : info.provider_priority < 2 ^ 16
  pub hash_length : length (take 20 info.id.contents) ≡ 20
  pub hash_bytes : AreBytes (take 20 info.id.contents)

abbrev read_digest : Template → Digest
read_digest info = record {
  alg = apk_digest_sha1;
  len = 20;
  contents = take 20 info.id.contents ++ replicate 44 0;
}

-- What is read: the package without its lists, which stand in lines of their own.
abbrev pub indexed : Template → Template
indexed info = record info {
  depends = [];
  provides = [];
  install_if = [];
  uninstallable = false;
  id = read_digest info;
}

module _ (islower : ℕ → Bool) (db : Compat) where
  lines-Step :
      (info : Template) (c : IsIndexable info)
      → Step islower db
          (push_all (header_lines info))
          (record apk_pkgtmpl_reset { id = read_digest info })
          (indexed info)
  unfolding header_lines apk_pkgtmpl_add_info text_or_other text_field number_or_list number_field
      apk_pkgtmpl_reset
  lines-Step info c =
      let t0 : Template = record apk_pkgtmpl_reset { id = read_digest info } in
      let t1 : Template = record t0 { name = some (name_of info.name) } in
      let t2 : Template = record t1 { version = info.version } in
      let t3 : Template = record t2 { arch = info.arch } in
      let t4 : Template = record t3 { size = info.size } in
      let t5 : Template = record t4 { installed_size = info.installed_size } in
      let t6 : Template = record t5 { description = info.description } in
      let t7 : Template = record t6 { url = info.url } in
      let t8 : Template = record t7 { license = info.license } in
      let t9 : Template = record t8 { origin = info.origin } in
      let t10 : Template = record t9 { maintainer = info.maintainer } in
      let t11 : Template = record t10 { build_time = info.build_time } in
      let t12 : Template = record t11 { commit = info.commit } in
      let t13 : Template = record t12 { provider_priority = info.provider_priority } in
      let named : some (name_of info.name) ≡ info.name = rw c.name_eq refl in
      subst (λ u. Step islower db (push_all (header_lines info)) t0 u)
        (ap (λ n. record (indexed info) { name = n }) named)
        (Step-cons islower db _ _ t0 t1 _
          (Step-field islower db b'P' (name_of info.name) t0 t1 (rw c.name_eq c.name_line) refl)
          (Step-cons islower db _ _ t1 t2 _
            (Step-field islower db b'V' info.version t1 t2 c.version_line refl)
            (Step-cons islower db _ _ t2 t3 _
              (Step-optional islower db b'A' info.arch t2 t3 c.arch_line
                (λ e. ap (λ x. record t2 { arch = x }) (sym e)) refl)
              (Step-cons islower db _ _ t3 t4 _
                (Step-number islower db b'S' info.size t3 t4 c.size_fits (λ d e. rw e refl))
                (Step-cons islower db _ _ t4 t5 _
                  (Step-number islower db b'I' info.installed_size t4 t5 c.installed_fits
                    (λ d e. rw e refl))
                  (Step-cons islower db _ _ t5 t6 _
                    (Step-field islower db b'T' info.description t5 t6 c.description_line refl)
                    (Step-cons islower db _ _ t6 t7 _
                      (Step-field islower db b'U' info.url t6 t7 c.url_line refl)
                      (Step-cons islower db _ _ t7 t8 _
                        (Step-field islower db b'L' info.license t7 t8 c.license_line refl)
                        (Step-cons islower db _ _ t8 t9 _
                          (Step-optional islower db b'o' info.origin t8 t9 c.origin_line
                            (λ e. ap (λ x. record t8 { origin = x }) (sym e)) refl)
                          (Step-cons islower db _ _ t9 t10 _
                            (Step-optional islower db b'm' info.maintainer t9 t10 c.maintainer_line
                              (λ e. ap (λ x. record t9 { maintainer = x }) (sym e)) refl)
                            (Step-cons islower db _ _ t10 t11 _
                              (Step-nonzero islower db b't' info.build_time t10 t11 c.time_fits
                                (λ e. ap (λ x. record t10 { build_time = x }) (sym e))
                                (λ d e. rw e refl))
                              (Step-cons islower db _ _ t11 t12 _
                                (Step-optional islower db b'c' info.commit t11 t12 c.commit_line
                                  (λ e. ap (λ x. record t11 { commit = x }) (sym e)) refl)
                                (Step-cons islower db _ _ t12 t13 _
                                  (Step-nonzero islower db b'k' info.provider_priority t12 t13
                                    (omega (arith, c.priority_fits))
                                    (λ e. ap (λ x. record t12 { provider_priority = x }) (sym e))
                                    (λ d e.
                                      let small : info.provider_priority % 2 ^ 16
                                          ≡ info.provider_priority =
                                        omega (arith, c.priority_fits) in
                                      rw (e, small) refl))
                                  (Step-nil islower db t13))))))))))))))

  written :
      (info : Template) (os hash lines : Bytes)
      → Option.map
          (λ to. write_pushed info os (apk_blob_pushed (apk_blob_push_blob to (codes "\n"))))
          (some (apk_blob_push_blob (room (codes "C:" ++ hash) 2016) lines))
        ≡ some (
            if ltb 2016 (length (lines ++ codes "\n"))
            then err enobufs
            else write_lists info (os ++ (codes "C:" ++ (hash ++ (lines ++ codes "\n")))))
  unfolding write_pushed
  written info os hash lines =
      rw (push_blob-append (room (codes "C:" ++ hash) 2016) lines (codes "\n")) (
        unfold apk_blob_push_blob in
        unfold apk_blob_pushed in
        elim (Bool-cases (ltb 2016 (length (lines ++ codes "\n")))) [
          | inl s ↦ rw s refl
          | inr n ↦ rw n refl
        ])

  digest-added :
      (hash : Bytes) (id : Digest)
      → apk_blob_pull_digest (blob (hash ++ [])) apk_pkgtmpl_reset.id ≡ some (blob [], id)
      → apk_pkgtmpl_add_info islower apk_pkgtmpl_reset db b'C' (blob hash)
        ≡ some (ok 0, (record apk_pkgtmpl_reset { id = id }, db))
  unfolding apk_pkgtmpl_add_info text_or_other text_field number_or_list number_field list_field
      digest_field
  digest-added hash id h =
      let e =
        subst (λ b. apk_blob_pull_digest (blob b) apk_pkgtmpl_reset.id ≡ some (blob [], id))
          (append-nil hash) h in
      rw e refl

  -- What `apk_pkg_write_index_header` writes for a package is the line "C:" with a hash, one line for
  -- each of some entries, with the field, a colon and the value, and then the package's lists: neither
  -- the hash nor a value has an end of line. `apk_pkgtmpl_add_info`, called with 'C' and the hash and
  -- then with the field and the value of each entry in their order, returns 0 each time and leaves the
  -- database as it is. It makes of an empty template the package with two changes: its lists are empty
  -- and it is not uninstallable, and its digest is the SHA1 of the first 20 bytes of the package's
  -- digest. Where the lines behind the first do not fit `buf` nothing is written, and the error is
  -- ENOBUFS. This is for a package with a name and with no end of line in its texts, whose numbers fit
  -- their fields and whose digest has at least 20 bytes.
  pub apk_pkgtmpl_add_info-apk_pkg_write_index_header :
      (info : Template) (os : Bytes)
      → IsIndexable info
      → (hash : Bytes) × (es : List (ℕ × Bytes)) × (apk_pkg_write_index_header info os
          ≡ some (
              if ltb 2016 (length (lines_text es ++ codes "\n"))
              then err enobufs
              else write_lists info
                  (os ++ (codes "C:" ++ (hash ++ (lines_text es ++ codes "\n"))))))
        × AreLines ((b'C', hash) ∷ es)
        × Adds islower db apk_pkgtmpl_reset ((b'C', hash) ∷ es) (indexed info)
  unfolding apk_pkg_write_index_header push_header write_pushed apk_blob_push_blob apk_pkgtmpl_reset
      apk_blob_pushed apk_pkgtmpl_add_info text_or_other text_field number_or_list number_field
      list_field digest_field Step
  apk_pkgtmpl_add_info-apk_pkg_write_index_header info os c =
      let (hash, put, get) =
        apk_blob_pull_digest-apk_blob_push_hash (codes "C:") 2046 (take 20 info.id.contents) []
          apk_pkgtmpl_reset.id c.hash_length c.hash_bytes (omega arith) (omega arith)
          (omega arith) in
      let (es, e, l, a) = lines-Step info c (room (codes "C:" ++ hash) 2016) in
      (
        hash,
        es,
        rw (put, e) (written info os hash (lines_text es)),
        (push_hash-Without b'C' b':' 2046 2016 (take 20 info.id.contents) hash put, l),
        (record apk_pkgtmpl_reset { id = read_digest info }, digest-added hash _ get, a),
      )
