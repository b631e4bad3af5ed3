-- ===== src/Tests/TextTests.antt =====
-- Searches, words, formats and lists of dependencies: the results at small texts.
use apk_tools.Package.Pull.Total.{apk_blob_pull_deps-total}
use apk_tools.Blob.Number.{apk_blob_pull_uint, pull_digits, dx}
use apk_tools.Package.Pull.{apk_blob_pull_deps}
use apk_tools.Version.{apk_version_equal, apk_version_greater}
use apk_tools.Errors.{ok}
use apk_tools.Package.{Dependency}
use apk_tools.Blob.Subst.{apk_blob_subst}
use apk_tools.Blob.{blob}
use apk_tools.Blob.Search.{apk_blob_foreach_word}
use apk_tools.Blob.Search.Tokens.{apk_blob_foreach_word_lem, AreWords, spaces, spaced, words}
use apk_tools.Blob.Subst.Expands.{
  Part, IsPart, apk_blob_subst-expanded, expanded, format, push_value,
}
use apk_tools.Prelude.{
  Bytes, List, [], ◌∷◌, codes, ◌≡◌, refl, arith, some, ℕ, ◌++◌, ◌+◌, true, false, Returns,
}

abbrev two_words : List (Bytes × ℕ)
two_words = (codes "ab", 1) ∷ (codes "c", 2) ∷ []

two_words-AreWords : AreWords two_words
two_words-AreWords = (
  (λ e. ground arith, (omega arith, (omega arith, tt))),
  ((λ e. ground arith, (omega arith, tt)), tt),
)

apk_blob_foreach_word_lem_example :
    apk_blob_foreach_word (spaces 2 ++ spaced two_words) ≡ words two_words
apk_blob_foreach_word_lem_example = apk_blob_foreach_word_lem 2 two_words two_words-AreWords

-- "${arch:3}".
abbrev arch_part : Part
arch_part = record { text = codes "a/"; key = codes "arch"; limit = some (codes "3", 3) }

arch_part-IsPart : IsPart arch_part
unfolding apk_blob_pull_uint pull_digits dx
arch_part-IsPart = (
  (omega arith, (omega arith, tt)),
  (omega arith, (omega arith, (omega arith, (omega arith, tt)))),
  (omega arith, (omega arith, (omega arith, (omega arith, tt)))),
  ((omega arith, tt), refl, omega arith),
)

abbrev shout : Bytes → Bytes
shout key = key ++ codes "!"

apk_blob_subst-expanded_example :
    apk_blob_subst (push_value shout) 20 (format (arch_part ∷ []) (codes "/b"))
    ≡ some (ok (expanded shout (arch_part ∷ []) (codes "/b")))
apk_blob_subst-expanded_example =
    apk_blob_subst-expanded shout 20 (arch_part ∷ []) (codes "/b") (arch_part-IsPart, tt)
      (omega arith) (omega arith) (omega arith)

abbrev so_dep : Dependency
so_dep = record {
  name = codes "so:z";
  version = blob (codes "1.2");
  op = apk_version_equal + apk_version_greater;
  broken = false;
  repository_tag = 0;
  layer = 0;
}

apk_blob_pull_deps-total_example : Returns (apk_blob_pull_deps (blob (codes "a>=1 b@c")) [] [] true)
apk_blob_pull_deps-total_example = apk_blob_pull_deps-total (blob (codes "a>=1 b@c")) [] [] true
