-- ===== src/Version/Validate/Sound.antt =====
-- What the validation accepts is in the grammar: each token is one of its pieces.
use apk_tools.Ctype.Spans.{apk_blob_spn-append, apk_blob_spn-All}
use apk_tools.Blob.Compare.{apk_blob_pull_blob_match_iff}
use apk_tools.Ctype.{Span, apk_blob_spn, apk_ctype_version_suffix, apk_ctype_hexdigit, in_class}
use apk_tools.Version.Reads.{
  token_parse_digits-NoDigit, token_parse_digits_sound, suffix_value_sound,
}
use apk_tools.Blob.Number.Digits.{dx-digit_value}
use apk_tools.Blob.Number.RoundTrip.{NoDigit}
use apk_tools.Version.Cases.{
  Next, letter, number, point, suffixed, hash, revision, stop, token_next-Next,
}
use apk_tools.Version.Grammar.{
  Tail, IsNumber, Numbers-Tail, no_number, IsVersion, with_number, with_letter, Revision-Tail,
  with_revision, Suffixes-Tail, Revision, no_suffix, nil-Tail, AfterSuffix, Suffixes, Hash,
  with_hash, with_suffix,
}
use apk_tools.Ctype.Classes.{is_digit, is_hexdigit, in_class-hexdigit}
use apk_tools.Prelude.{
  ℕ, Bytes, ◌≡◌, length, ◌∷◌, true, arith, ◌≢◌, some, ◌≤◌, ◌+◌, ◌++◌, zero, refl, subst, ◌⊎◌, inl,
  [], Bool-cases, ap₂, inr, sym, ◌==◌, codes, All-imp, ◌∙◌, ap, append-nil,
}
use apk_tools.Version.{
  TokenState, next_suffix, Token, number_token, index, is_digit, next_hash, token_parse_digits,
  token_invalid, token_first, token_revision_no, token_digit, Span, apk_blob_spn,
  token_initial_digit, token_end, token_suffix, suffix_value, suffix_invalid, token_suffix_no,
  token_next, suffix_index,
}
use Prim.Native.Nat.{ℕ, suc}
use apk_tools.Version.Loop.{validate_loop, is_active}

-- A number is followed by no digit, since it took all there were.
abbrev MaximalNumber : TokenState → Bytes → Type 0
MaximalNumber t b = index t.token ≤ 1 → NoDigit 10 b

digit_not_stopped : (c : ℕ) (b : Bytes) → is_digit c ≡ true → ¬ (NoDigit 10 (c ∷ b))
digit_not_stopped c b h k = ground (arith, dx-digit_value c)

Next-MaximalNumber :
    (t : TokenState) (c : ℕ) (b : Bytes) (res : TokenState × Bytes)
    → Next t c b res
    → MaximalNumber res.0 res.1
unfolding next_suffix next_hash
Next-MaximalNumber t c b _ stop h = absurd (omega arith)
Next-MaximalNumber t c b _ (letter l p) h = absurd (omega arith)
Next-MaximalNumber t c b _ (number l k e) h = token_parse_digits-NoDigit _ (c ∷ b)
Next-MaximalNumber t c b _ (point l k e p) h = token_parse_digits-NoDigit _ b
Next-MaximalNumber t c b _ (suffixed l p) h = absurd (ground arith)
Next-MaximalNumber t c b _ (hash l p) h = absurd (ground arith)
Next-MaximalNumber t c b _ (revision l p r e) h = token_parse_digits-NoDigit _ r

active_valid : (k : Token) (b : Bytes) → Tail k b → k ≢ token_invalid
active_valid token_invalid b h e = h
active_valid _ b h e = cc

-- The text of a number token, with what is read behind it.
numbered :
    (t : TokenState) (b : Bytes)
    → Tail (token_parse_digits t b).0.token (token_parse_digits t b).1
    → (n : Bytes) × (s : Bytes) × IsNumber n × Tail t.token s × (b ≡ n ++ s)
numbered t b h =
    let (n, ne, ds, e, k) = token_parse_digits_sound t b (active_valid _ _ h) in
    (
      n,
      (token_parse_digits t b).1,
      (ne, ds),
      subst (λ (x : Token). Tail x (token_parse_digits t b).1) k h,
      e,
    )

point_kind : (j k : Token) → number_token j ≡ some k → index j ≤ 1 → k ≡ token_digit
unfolding number_token
point_kind j k e h = ground arith

number_kind :
    (j k : Token)
    → number_token j ≡ some k
    → (index j ≤ 1) ⊎ ((j ≡ token_suffix) × (k ≡ token_suffix_no))
unfolding number_token
number_kind j k e = ground arith

abbrev Numbered : Token → Bytes → Type 0
Numbered k b = (n : Bytes) × (s : Bytes) × IsNumber n × Tail k s × (b ≡ n ++ s)

point_sound :
    (j : Token) (c : ℕ) (b : Bytes) (k : Token)
    → c ≡ b'.'
    → number_token j ≡ some k
    → index j ≤ 1
    → Numbered k b
    → Tail j (c ∷ b)
point_sound j c b k dot e h (n, s, num, tail, split) =
    Numbers-Tail j (c ∷ b) h
      (with_number n s num (subst (λ x. Tail x s) (point_kind j k e h) tail) (ap₂ ◌∷◌ dot split))

number_sound :
    (j : Token) (c : ℕ) (b : Bytes) (k : Token)
    → (index j ≤ 1 → NoDigit 10 (c ∷ b))
    → is_digit c ≡ true
    → number_token j ≡ some k
    → Numbered k (c ∷ b)
    → Tail j (c ∷ b)
number_sound j c b k most d e (n, s, num, tail, split) = elim (number_kind j k e) [
  | inl early ↦ absurd (digit_not_stopped c b d (most early))
  | inr (js, ks) ↦
      subst (λ x. Tail x (c ∷ b)) (sym js) (n, s, num.1, subst (λ x. Tail x s) ks tail, split)
]

suffix_sound :
    (t : TokenState) (s : Span)
    → Tail (next_suffix t s).0.token (next_suffix t s).1
    → (suffix_value s.l ≢ suffix_invalid) × AfterSuffix s.r
unfolding next_suffix
suffix_sound t s h = elim (Bool-cases (suffix_index (suffix_value s.l) == 0)) [
  | inl bad ↦ absurd (rw bad at h)
  | inr good ↦ (ground arith, rw good at h)
]

hash_sound :
    (t : TokenState) (s : Span)
    → Tail (next_hash t s).0.token (next_hash t s).1
    → (s.l ≢ []) × Revision s.r
unfolding next_hash
hash_sound t s h = elim (Bool-cases (length s.l == 0)) [
  | inl bad ↦ absurd (rw bad at h)
  | inr good ↦ (ground arith, rw good at h)
]

suffixed_sound :
    (t : TokenState) (c : ℕ) (b : Bytes)
    → c ≡ b'_'
    → Tail
        (next_suffix t (apk_blob_spn apk_ctype_version_suffix b)).0.token
        (next_suffix t (apk_blob_spn apk_ctype_version_suffix b)).1
    → Suffixes (c ∷ b)
suffixed_sound t c b u h =
    let span = apk_blob_spn apk_ctype_version_suffix b in
    let (good, (n, s, ds, tail, split)) = suffix_sound t span h in
    let (text, real) = suffix_value_sound span.l good in
    with_suffix (suffix_value span.l) n s good real ds tail
      (ap₂ ◌∷◌ u (sym (apk_blob_spn-append apk_ctype_version_suffix b) ∙ ap₂ ◌++◌ text split))

hashed_sound :
    (t : TokenState) (c : ℕ) (b : Bytes)
    → c ≡ b'~'
    → Tail
        (next_hash t (apk_blob_spn apk_ctype_hexdigit b)).0.token
        (next_hash t (apk_blob_spn apk_ctype_hexdigit b)).1
    → Hash (c ∷ b)
hashed_sound t c b u h =
    let span = apk_blob_spn apk_ctype_hexdigit b in
    let (ne, rev) = hash_sound t span h in
    with_hash span.l span.r ne
      (All-imp (λ x. in_class apk_ctype_hexdigit x ≡ true) (λ x. is_hexdigit x ≡ true) span.l
        (λ x e. sym (in_class-hexdigit x) ∙ e) (apk_blob_spn-All apk_ctype_hexdigit b))
      rev (ap₂ ◌∷◌ u (sym (apk_blob_spn-append apk_ctype_hexdigit b)))

Next-Tail :
    (t : TokenState) (c : ℕ) (b : Bytes) (res : TokenState × Bytes)
    → Next t c b res
    → MaximalNumber t (c ∷ b)
    → Tail res.0.token res.1
    → Tail t.token (c ∷ b)
Next-Tail t c b _ stop most h = absurd h
Next-Tail t c b _ (letter l p) most h =
    Numbers-Tail t.token (c ∷ b) p (no_number (with_letter c b l h refl))
Next-Tail t c b _ (number l k e) most h = number_sound t.token c b k most l e (numbered _ (c ∷ b) h)
Next-Tail t c b _ (point l k e p) most h = point_sound t.token c b k l e p (numbered _ b h)
Next-Tail t c b _ (suffixed l p) most h = Suffixes-Tail t.token (c ∷ b) p (suffixed_sound t c b l h)
Next-Tail t c b _ (hash l p) most h =
    Suffixes-Tail t.token (c ∷ b) (omega arith) (no_suffix (hashed_sound t c b l h))
Next-Tail t c b _ (revision l p r e) most h =
    let (n, s, num, end, split) = numbered (record t { token = token_revision_no }) r h in
    Revision-Tail t.token (c ∷ b) p (
      with_revision n num (
        (apk_blob_pull_blob_match_iff (c ∷ b) (codes "-r") r).0 e
        ∙ ap (◌++◌ (codes "-r")) (split ∙ ap (◌++◌ n) end ∙ append-nil n)))

end-Tail : (k : Token) (b : Bytes) → index k ≡ 7 → Tail k b
end-Tail token_end b h = tt
end-Tail _ b h = absurd (omega arith)

nil-Tail_of_end : (k : Token) → index k ≤ 7 → Tail k []
nil-Tail_of_end token_end h = tt
nil-Tail_of_end k h = nil-Tail k (ground arith)

validate_loop-Tail :
    (fuel : ℕ) (t : TokenState) (b : Bytes)
    → MaximalNumber t b
    → validate_loop fuel t b ≡ some true
    → Tail t.token b
unfolding validate_loop
validate_loop-Tail zero t b most e = cc
validate_loop-Tail (suc fuel) t [] most e = nil-Tail_of_end t.token (ground arith)
validate_loop-Tail (suc fuel) t (c ∷ b) most e = elim (Bool-cases (is_active t)) [
  | inl going ↦
      let next = token_next t (c ∷ b) in
      Next-Tail t c b next (token_next-Next t c b) most (
        validate_loop-Tail fuel next.0 next.1
          (Next-MaximalNumber t c b next (token_next-Next t c b)) (rw going at e))
  | inr over ↦ end-Tail t.token (c ∷ b) (ground arith)
]

pub validate-IsVersion :
    (b : Bytes)
    → validate_loop (length b + 2) (token_first b).0 (token_first b).1 ≡ some true
    → IsVersion b
unfolding token_first
validate-IsVersion b e =
    let fresh : TokenState = record {
      token = token_initial_digit;
      suffix = suffix_invalid;
      number = 0;
      value = [];
    } in
    numbered fresh b (
      validate_loop-Tail (length b + 2) (token_first b).0 (token_first b).1
        (λ _. token_parse_digits-NoDigit fresh b) e)
