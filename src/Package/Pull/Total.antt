-- ===== src/Package/Pull/Total.antt =====
-- The loop of `apk_blob_pull_deps` ends.
use apk_tools.Blob.Search.{apk_blob_split}
use apk_tools.Package.Parse.{DepParse, apk_dep_parse}
use apk_tools.Package.{Dependency, Option, some, false}
use apk_tools.Blob.{Blob, bytes, blob, null}
use apk_tools.Database.Tags.{RepoTag}
use apk_tools.Ctype.{
  apk_blob_spn, apk_blob_cspn, span_until, apk_ctype_dependency_separator, in_class,
}
use apk_tools.Prelude.{
  ℕ, Bytes, List, refl, Bool, Returns, length, Option, ◌≤◌, ◌<◌, ◌∷◌, ◌+◌, arith, Bool-cases, none,
  inl, ◌==◌, ◌≡◌, not, inr, false, zero, [], true, codes,
}
use apk_tools.Ctype.Spans.{span_rest}
use apk_tools.Package.Pull.{
  apk_blob_pull_deps, apk_blob_pull_dep, pull_parsed, apk_blob_spn, RepoTag, pull_deps_round,
  pull_deps_loop, Blob, pull_tagged, Bool, DepsPull, Dependency, pull_fail, length, DepParse,
  DepPull, suc, not, apk_blob_split, codes,
}

tagged_rest :
    (b : Bytes) (tags : List RepoTag) (allow : Bool) (p : DepParse) (o : Option (Bytes × Bytes))
    → length (bytes (pull_tagged b tags allow p o).b) ≤ length b
unfolding pull_tagged pull_fail
tagged_rest b tags allow p none = omega arith
tagged_rest b tags true p (some (name, tag)) = omega arith
tagged_rest b tags false p (some (name, tag)) = omega arith

parsed_rest :
    (b : Bytes) (tags : List RepoTag) (allow : Bool) (p : DepParse)
    → length (bytes (pull_parsed b tags allow p).b) ≤ length b
unfolding pull_parsed pull_fail
parsed_rest b tags allow p =
    elim (p.ret)
      as (λ r. length (bytes (pull_parsed b tags allow (record p { ret = r })).b) ≤ length b) [
        | some e ↦ omega arith
        | none ↦
            tagged_rest b tags allow (record p { ret = none })
              (apk_blob_split (bytes p.name) (codes "@"))
      ]

-- A token or a separator is taken.
token_shorter :
    (c : ℕ) (b : Bytes)
    → length
        (apk_blob_spn apk_ctype_dependency_separator
          (apk_blob_cspn apk_ctype_dependency_separator (c ∷ b)).r).r
      ≤ length b
unfolding apk_blob_spn apk_blob_cspn span_until
token_shorter c b = elim (Bool-cases (in_class apk_ctype_dependency_separator c)) [
  | inl s ↦ rw (s, s) (span_rest (λ ch. not (in_class apk_ctype_dependency_separator ch)) b)
  | inr n ↦
      let r = (span_until (in_class apk_ctype_dependency_separator) b).r in
      rw n (
        omega (
          arith,
          span_rest (in_class apk_ctype_dependency_separator) b,
          span_rest (λ ch. not (in_class apk_ctype_dependency_separator ch)) r,
        ))
]

pull_shorter :
    (c : ℕ) (b : Bytes) (tags : List RepoTag) (allow : Bool)
    → length (bytes (apk_blob_pull_dep (blob (c ∷ b)) tags allow).b) ≤ length b
unfolding apk_blob_pull_dep
pull_shorter c b tags allow = omega (
  arith,
  token_shorter c b,
  parsed_rest
      (apk_blob_spn apk_ctype_dependency_separator
        (apk_blob_cspn apk_ctype_dependency_separator (c ∷ b)).r).r
      tags allow (apk_dep_parse (blob (apk_blob_cspn apk_ctype_dependency_separator (c ∷ b)).l)),
)

round-total :
    (next : Blob → DepsPull → Option DepsPull) (s : DepsPull) (p : DepPull) (o : Option Dependency)
    → ((s' : DepsPull) → Returns (next p.b s'))
    → Returns (pull_deps_round next s p o)
unfolding pull_deps_round
round-total next s p none h = h _
round-total next s p (some dep) h = h _

loop-total :
    (fuel : ℕ) (b : Blob) (allow : Bool) (s : DepsPull)
    → length (bytes b) < fuel
    → Returns (pull_deps_loop fuel b allow s)
unfolding pull_deps_loop
loop-total zero b allow s h = absurd (omega arith)
loop-total (suc fuel) null allow s h = (s, refl)
loop-total (suc fuel) (blob []) allow s h = (s, refl)
loop-total (suc fuel) (blob (c ∷ b)) allow s h =
    let p = apk_blob_pull_dep (blob (c ∷ b)) s.tags allow in
    let some_text : (length (c ∷ b) == 0) ≡ false = ground arith in
    rw some_text (
      round-total (λ b' s'. pull_deps_loop fuel b' allow s') s p p.dep
        (λ s'. loop-total fuel p.b allow s' (omega (arith, pull_shorter c b s.tags allow))))

-- `apk_blob_pull_deps` returns, on every text: each round takes at least one character, or gives the
-- text up.
pub apk_blob_pull_deps-total :
    (b : Blob) (tags : List RepoTag) (deps : List Dependency) (allow_tag : Bool)
    → Returns (apk_blob_pull_deps b tags deps allow_tag)
unfolding apk_blob_pull_deps
apk_blob_pull_deps-total b tags deps allow_tag =
    loop-total (length (bytes b) + 1) b allow_tag _ (omega arith)
