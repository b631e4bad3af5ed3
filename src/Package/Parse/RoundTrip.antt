-- ===== src/Package/Parse/RoundTrip.antt =====
-- A dependency is read back from its text.
use apk_tools.Ctype.Spans.{apk_blob_spn-run, apk_blob_cspn-run, apk_blob_cspn-whole}
use apk_tools.Blob.Compare.{apk_blob_pull_blob_match_iff}
use apk_tools.Package.{Dependency}
use apk_tools.Blob.{
  apk_blob_push_blob, apk_blob_pull_blob_match, blob, memcmp, room, Buffer, overflow, null,
}
use apk_tools.Ctype.Classes.{is_comparer, in_class-dependency_comparer}
use apk_tools.Package.Parse.{
  parse_operator, parse_name, parse_spec, parse_conflict, apk_dep_parse, push_version, push_tag,
  apk_blob_push_dep, none, apk_blob_push_blob, apk_blob_pull_blob_match, some, Dependency,
  apk_depmask_any,
}
use apk_tools.Version.{apk_version_conflict, apk_depmask_any}
use apk_tools.Version.Ops.{without_conflict, apk_version_op_string}
use apk_tools.Version.Loop.{has}
use apk_tools.Ctype.{in_class, apk_ctype_dependency_comparer, apk_blob_spn}
use apk_tools.Prelude.Table.{all_below, all_below_sound}
use apk_tools.Prelude.{
  ℕ, Bytes, Bool, All, ◌∷◌, if◌then◌else◌, not, ◌≡◌, true, ◌||◌, refl, false, codes, bit_or, ◌++◌,
  [], ◌==◌, ◌<◌, ◌≢◌, ==_iff, arith, sym, ◌∙◌, none, length, ap, Bool-cases, inl, inr, some,
  length-append, ltb, append_assoc, All-imp, ◌⊎◌, ◌+◌, append-nil,
}
use apk_tools.Version.OpText.{
  is_printed, apk_version_result_mask_blob_iff, result_mask-op_string, premise_holds,
}

-- No character of the text is one of `<=>~`.
abbrev pub NoComparer : Bytes → Type 0
NoComparer b = All (λ c. in_class apk_ctype_dependency_comparer c ≡ false) b

-- What `apk_blob_push_dep` adds to the text.
abbrev pub dep_text : ℕ → Bytes → Bytes → Bytes
dep_text op name version =
    (if has op apk_version_conflict then codes "!" else [])
    ++ (name ++ (apk_version_op_string op ++ version))

op_parts : (op : ℕ) → Bool
op_parts op =
    not (is_printed (without_conflict op))
    || (bit_or (if has op apk_version_conflict then apk_version_conflict else 0)
          (without_conflict op)
        == op)

op_parts_table : all_below 32 op_parts ≡ true
unfolding all_below op_parts
op_parts_table = refl

-- The characters of an operator are in the class.
in_class-operator :
    (op : Bytes)
    → All (λ x. is_comparer x ≡ true) op
    → All (λ x. in_class apk_ctype_dependency_comparer x ≡ true) op
in_class-operator op =
    All-imp (λ x. is_comparer x ≡ true) (λ x. in_class apk_ctype_dependency_comparer x ≡ true) op
      (λ x h. in_class-dependency_comparer x ∙ h)

-- The flag for the `!` in front of the text.
abbrev flag : ℕ → ℕ
flag op = if has op apk_version_conflict then apk_version_conflict else 0

flag-without :
    (op : ℕ)
    → op < 32
    → is_printed (without_conflict op) ≡ true
    → bit_or (flag op) (without_conflict op) ≡ op
unfolding op_parts
flag-without op h p = (==_iff _ _).0 (
    premise_holds (is_printed (without_conflict op)) _ p
      (all_below_sound 32 op_parts op op_parts_table h))

printed-pos : (n : ℕ) → is_printed n ≡ true → n ≢ 0
printed-pos n h = ground arith

pub printed_text :
    (op : ℕ)
    → op < 32
    → is_printed (without_conflict op) ≡ true
    → (apk_version_op_string op ≢ []) × All (λ x. is_comparer x ≡ true) (apk_version_op_string op)
printed_text op h p =
    (apk_version_result_mask_blob_iff (apk_version_op_string op)).0
      (λ e. printed-pos (without_conflict op) p (sym (result_mask-op_string op h p) ∙ e))

parse_operator-text :
    (op : ℕ) (name : Bytes) (c : ℕ) (version : Bytes)
    → op < 32
    → is_printed (without_conflict op) ≡ true
    → in_class apk_ctype_dependency_comparer c ≡ false
    → parse_operator
        (flag op)
        name
        (apk_blob_spn apk_ctype_dependency_comparer (apk_version_op_string op ++ (c ∷ version)))
      ≡ record { ret = none; name = blob name; rop = op; version = blob (c ∷ version) }
unfolding parse_operator
parse_operator-text op name c version h p k =
    let not_none : (without_conflict op == 0) ≡ false =
      ground (arith, printed-pos (without_conflict op) p) in
    rw
      (
        apk_blob_spn-run apk_ctype_dependency_comparer (apk_version_op_string op) version c
            (in_class-operator _ (printed_text op h p).1) k,
        result_mask-op_string op h p,
        flag-without op h p,
        not_none,
      )
      refl

parse_name-text :
    (op : ℕ) (name text : Bytes) (c : ℕ) (version : Bytes)
    → op < 32
    → is_printed (without_conflict op) ≡ true
    → NoComparer name
    → in_class apk_ctype_dependency_comparer c ≡ false
    → apk_version_op_string op ≡ text
    → text ≢ []
    → All (λ x. is_comparer x ≡ true) text
    → parse_spec (flag op) (name ++ (text ++ (c ∷ version)))
      ≡ record { ret = none; name = blob name; rop = op; version = blob (c ∷ version) }
unfolding parse_spec parse_name
parse_name-text op name [] c version h p n k e ne a = absurd (ne refl)
parse_name-text op name (x ∷ text) c version h p n k e ne (ax, a) =
    rw
      (apk_blob_cspn-run apk_ctype_dependency_comparer name (text ++ (c ∷ version)) x n
        (in_class-dependency_comparer x ∙ ax))
      (ap
          (λ t.
            parse_operator (flag op) name
              (apk_blob_spn apk_ctype_dependency_comparer (t ++ (c ∷ version))))
          (sym e)
        ∙ parse_operator-text op name c version h p k)

-- Two pushes are one, whether they fit or not.
pub push_blob-append :
    (to : Buffer) (x y : Bytes)
    → apk_blob_push_blob (apk_blob_push_blob to x) y ≡ apk_blob_push_blob to (x ++ y)
unfolding apk_blob_push_blob
push_blob-append overflow x y = refl
push_blob-append (room w len) x y =
    let n = length-append x y in
    elim (Bool-cases (ltb len (length x))) [
      | inl s ↦ rw (s, n) (ground arith)
      | inr f ↦ rw (f, n, append_assoc) (ground arith)
    ]

pub pull_bang : (b : Bytes) → apk_blob_pull_blob_match (b'!' ∷ b) (codes "!") ≡ some b
pull_bang b = (apk_blob_pull_blob_match_iff (b'!' ∷ b) (codes "!") b).1 refl

pub pull_other :
    (x : ℕ) (b : Bytes) → x ≢ b'!' → apk_blob_pull_blob_match (x ∷ b) (codes "!") ≡ none
unfolding apk_blob_pull_blob_match memcmp
pull_other x b h = ground arith

pub parse_dep-text :
    (op x : ℕ) (name : Bytes) (c : ℕ) (version : Bytes)
    → op < 32
    → is_printed (without_conflict op) ≡ true
    → NoComparer (x ∷ name)
    → x ≢ b'!'
    → in_class apk_ctype_dependency_comparer c ≡ false
    → apk_dep_parse (blob (dep_text op (x ∷ name) (c ∷ version)))
      ≡ record { ret = none; name = blob (x ∷ name); rop = op; version = blob (c ∷ version) }
unfolding apk_dep_parse parse_conflict
parse_dep-text op x name c version h p n other k =
    let (ne, a) = printed_text op h p in
    let spec = parse_name-text op (x ∷ name) _ c version h p n k refl ne a in
    elim (Bool-cases (has op apk_version_conflict)) [
      | inl f ↦
          rw (f, pull_bang (x ∷ name ++ (apk_version_op_string op ++ (c ∷ version))))
            (ap
                (λ b.
                  parse_spec (if b then apk_version_conflict else 0)
                    (x ∷ name ++ (apk_version_op_string op ++ (c ∷ version))))
                (sym f)
              ∙ spec)
      | inr f ↦
          rw (f, pull_other x (name ++ (apk_version_op_string op ++ (c ∷ version))) other)
            (ap
                (λ b.
                  parse_spec (if b then apk_version_conflict else 0)
                    (x ∷ name ++ (apk_version_op_string op ++ (c ∷ version))))
                (sym f)
              ∙ spec)
    ]

push_three :
    (to : Buffer) (x y z : Bytes)
    → apk_blob_push_blob (apk_blob_push_blob (apk_blob_push_blob to x) y) z
      ≡ apk_blob_push_blob to (x ++ (y ++ z))
push_three to x y z =
    push_blob-append (apk_blob_push_blob to x) y z ∙ push_blob-append to x (y ++ z)

pub push_dep-text :
    (to : Buffer) (dep : Dependency) (version : Bytes)
    → dep.version ≡ blob version
    → apk_blob_push_dep to none dep ≡ apk_blob_push_blob to (dep_text dep.op dep.name version)
unfolding apk_blob_push_dep push_version push_tag
push_dep-text to dep version e =
    let op = apk_version_op_string dep.op in
    elim (Bool-cases (has dep.op apk_version_conflict)) [
      | inl f ↦
          rw (f, ap (push_version _ dep.op) e)
            (push_three (apk_blob_push_blob to (codes "!")) dep.name op version
              ∙ push_blob-append to (codes "!") (dep.name ++ (op ++ version)))
      | inr f ↦ rw (f, ap (push_version _ dep.op) e) (push_three to dep.name op version)
    ]

parse_name-whole :
    (op : ℕ) (name : Bytes)
    → NoComparer name
    → parse_spec op name
      ≡ record { ret = none; name = blob name; rop = bit_or op apk_depmask_any; version = null }
unfolding parse_spec parse_name
parse_name-whole op name n = rw (apk_blob_cspn-whole apk_ctype_dependency_comparer name n) refl

-- A name with no operator, behind `!` or not.
pub parse_any-text :
    (op x : ℕ) (name : Bytes)
    → (op ≡ apk_depmask_any) ⊎ (op ≡ apk_depmask_any + apk_version_conflict)
    → NoComparer (x ∷ name)
    → x ≢ b'!'
    → apk_dep_parse (blob (dep_text op (x ∷ name) []))
      ≡ record { ret = none; name = blob (x ∷ name); rop = op; version = null }
unfolding apk_dep_parse parse_conflict apk_version_op_string
parse_any-text op x name (inl e) n other =
    rw (e, append-nil name, pull_other x name other) (parse_name-whole 0 (x ∷ name) n)
parse_any-text op x name (inr e) n other =
    rw (e, append-nil name, pull_bang (x ∷ name))
      (parse_name-whole apk_version_conflict (x ∷ name) n)
