-- ===== src/Tests/IndexTests.antt =====
-- The entry of a package in an index, at a small package.
use apk_tools.Blob.Hex.RoundTrip.{AreBytes}
use apk_tools.Errors.{err, enobufs}
use apk_tools.Prelude.{
  Bytes, List, [], ◌∷◌, codes, ◌≡◌, refl, arith, some, replicate, false, ℕ, Bool, if◌then◌else◌,
  leb, ltb, ◌&&◌, length, ◌++◌, suc, zero,
}
use apk_tools.Package.Info.{Template, Compat, apk_pkgtmpl_reset}
use apk_tools.Package.Info.Write.{apk_pkg_write_index_header, write_lists}
use apk_tools.Package.Info.Write.Lines.{Adds, lines_text, AreLines}
use apk_tools.Package.Info.Write.ReadBack.{
  apk_pkgtmpl_add_info-apk_pkg_write_index_header, IsIndexable, indexed,
}

abbrev hello : Template
hello = record apk_pkgtmpl_reset {
  name = some (codes "hello");
  version = codes "2.12-r1";
  license = codes "GPL";
  size = 4096;
  build_time = 1700000000;
  provider_priority = 10;
  id = record { alg = 2; len = 20; contents = replicate 64 7 };
}

seven-AreBytes : (n : ℕ) → AreBytes (replicate n 7)
seven-AreBytes zero = tt
seven-AreBytes (suc n) = (omega arith, seven-AreBytes n)

hello-IsIndexable : IsIndexable hello
unfolding apk_pkgtmpl_reset
hello-IsIndexable = record {
  package_name = codes "hello";
  name_eq = refl;
  name_line = (omega arith, (omega arith, (omega arith, (omega arith, (omega arith, tt)))));
  version_line = (
    omega arith,
    (omega arith, (omega arith, (omega arith, (omega arith, (omega arith, (omega arith, tt)))))),
  );
  license_line = (omega arith, (omega arith, (omega arith, tt)));
  arch_line = tt;
  description_line = tt;
  url_line = tt;
  origin_line = tt;
  maintainer_line = tt;
  commit_line = tt;
  size_fits = omega arith;
  installed_fits = omega arith;
  time_fits = omega arith;
  priority_fits = omega arith;
  hash_length = refl;
  hash_bytes = seven-AreBytes 20;
}

abbrev fresh : Compat
fresh = record { tags = []; depversions = false; newfeatures = false; notinstallable = false }

abbrev is_lower_case : ℕ → Bool
is_lower_case c = leb 97 c && leb c 122

apk_pkgtmpl_add_info-apk_pkg_write_index_header_example :
    (hash : Bytes) × (es : List (ℕ × Bytes)) × (apk_pkg_write_index_header hello []
      ≡ some (
          if ltb 2016 (length (lines_text es ++ codes "\n"))
          then err enobufs
          else write_lists hello ([] ++ (codes "C:" ++ (hash ++ (lines_text es ++ codes "\n"))))))
    × AreLines ((b'C', hash) ∷ es)
    × Adds is_lower_case fresh apk_pkgtmpl_reset ((b'C', hash) ∷ es) (indexed hello)
apk_pkgtmpl_add_info-apk_pkg_write_index_header_example =
    apk_pkgtmpl_add_info-apk_pkg_write_index_header is_lower_case fresh hello [] hello-IsIndexable
