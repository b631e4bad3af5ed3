-- ===== src/Version/Validate/Complete.antt =====
-- What the grammar derives is accepted: the tokens are read as the grammar has them.
use apk_tools.Blob.Compare.{apk_blob_pull_blob_match_iff}
use apk_tools.Version.Reads.{token_parse_digits_complete, suffix_value-literal}
use apk_tools.Blob.Number.Digits.{dx-digit_value}
use apk_tools.Blob.Number.RoundTrip.{NoDigit}
use apk_tools.Ctype.Classes.{
  is_digit, is_lower, is_hexdigit, in_class-hexdigit, in_class-version_suffix,
}
use apk_tools.Version.Grammar.{
  Tail, Revision, Suffixes, Numbers, IsNumber, IsVersion, no_revision, no_suffix, Hash, AfterSuffix,
  Letter, no_number, no_hash, no_letter, with_revision, with_suffix, with_number, with_hash,
  with_letter,
}
use apk_tools.Ctype.{
  apk_blob_spn, span_until, in_class, apk_ctype_version_suffix, apk_ctype_hexdigit, Span,
}
use apk_tools.Prelude.{
  ℕ, Bytes, ◌≡◌, Bool, [], ◌⊎◌, All, ltb, some, length, ◌<◌, ◌≤◌, ◌∷◌, false, arith, true, ◌+◌, inl,
  ◌++◌, ◌==◌, inr, ap, codes, Bool-cases, refl, ◌∙◌, zero, append-nil, ◌≢◌, All-imp,
}
use apk_tools.Version.{
  TokenState, token_next, Token, token_first, Suffix, is_digit, index, first, token_suffix,
  token_parse_digits, token_initial_digit, suffix_invalid, token_digit, token_invalid, token_letter,
  token_suffix_no, token_commit_hash, token_revision_no, next_revision, next_hash, next_suffix,
  next_number, suffix_literal, number_token, suffix_index, suffix_alpha, suffix_none,
}
use Prim.Native.Nat.{ℕ, suc}
use mathlib.Core.List.{cons-ne-nil}
use apk_tools.Version.Loop.{validate_loop, is_active}

-- The state behind the next token lets the rest follow.
abbrev Step : TokenState → Bytes → Type 0
Step t b = Tail (token_next t b).0.token (token_next t b).1

Step-nil : (t : TokenState) (b : Bytes) → b ≡ [] → Step t b
unfolding token_next
Step-nil t [] e = tt
Step-nil t (c ∷ b) e = cc

-- How a tail begins; 0 stands for its end.
abbrev Mark : ℕ → Type 0
Mark c = (c ≡ 0) ⊎ ((c ≡ b'-') ⊎ ((c ≡ b'~') ⊎ (c ≡ b'_')))

Revision-Mark : (b : Bytes) → Revision b → (first b ≡ 0) ⊎ (first b ≡ b'-')
Revision-Mark b (no_revision e) = rw e (inl refl)
Revision-Mark b (with_revision n num e) = rw e (inr refl)

Suffixes-Mark : {b : Bytes} → Suffixes b → Mark (first b)
Suffixes-Mark {b} (no_suffix (no_hash r)) = let m = Revision-Mark b r in ground arith
Suffixes-Mark (no_suffix (with_hash h r ne hs rev e)) = rw e (inr (inr (inl refl)))
Suffixes-Mark (with_suffix k n s i j ds rest e) = rw e (inr (inr (inr refl)))

Numbers-Mark : {b : Bytes} → Numbers b → is_digit (first b) ≡ false
Numbers-Mark (no_number (no_letter s)) = let m = Suffixes-Mark s in ground arith
Numbers-Mark (no_number (with_letter c s l rest e)) = rw e (ground arith)
Numbers-Mark (with_number n s num rest e) = rw e refl

first-NoDigit : (b : Bytes) → is_digit (first b) ≡ false → NoDigit 10 b
first-NoDigit [] h = tt
first-NoDigit (c ∷ b) h = ground (arith, dx-digit_value c)

Suffixes-NoDigit : {b : Bytes} → Suffixes b → NoDigit 10 b
Suffixes-NoDigit {b} s = first-NoDigit b (let m = Suffixes-Mark s in ground arith)

-- A class takes a run of its characters, up to one that is not in it.
spn_run :
    (ctype : ℕ) (l r : Bytes)
    → All (λ c. in_class ctype c ≡ true) l
    → in_class ctype (first r) ≡ false
    → ((apk_blob_spn ctype (l ++ r)).l ≡ l) × ((apk_blob_spn ctype (l ++ r)).r ≡ r)
unfolding apk_blob_spn span_until
spn_run ctype [] [] h k = (refl, refl)
spn_run ctype [] (c ∷ r) h k = rw k (refl, refl)
spn_run ctype (c ∷ l) r (h, hs) k =
    let (el, er) = spn_run ctype l r hs k in rw h (ap (◌∷◌ c) el, er)

-- A number token, with a rest that may follow it.
Step-number :
    (t : TokenState) (n s : Bytes)
    → IsNumber n
    → NoDigit 10 s
    → Tail t.token s
    → Tail (token_parse_digits t (n ++ s)).0.token (token_parse_digits t (n ++ s)).1
Step-number t n s num stop tail =
    let (k, r) = token_parse_digits_complete t n s num.0 num.1 stop in rw (k, r) tail

next_at_dash :
    (t : TokenState) (n : Bytes)
    → index t.token < 6
    → token_next t (codes "-r" ++ n) ≡ token_parse_digits (record t { token = token_revision_no }) n
unfolding token_next next_revision
next_at_dash t n h =
    ground (arith, (apk_blob_pull_blob_match_iff (codes "-r" ++ n) (codes "-r") n).1 refl)

next_at_tilde :
    (t : TokenState) (b : Bytes)
    → index t.token < 5
    → token_next t (b'~' ∷ b) ≡ next_hash t (apk_blob_spn apk_ctype_hexdigit b)
unfolding token_next
next_at_tilde t b h = ground arith

next_at_underscore :
    (t : TokenState) (b : Bytes)
    → index t.token ≤ 4
    → token_next t (b'_' ∷ b) ≡ next_suffix t (apk_blob_spn apk_ctype_version_suffix b)
unfolding token_next
next_at_underscore t b h = ground arith

next_at_point :
    (t : TokenState) (b : Bytes)
    → index t.token ≤ 1
    → token_next t (b'.' ∷ b) ≡ token_parse_digits (record t { token = token_digit }) b
unfolding token_next next_number number_token
next_at_point t b h = ground arith

next_at_letter :
    (t : TokenState) (c : ℕ) (b : Bytes)
    → index t.token ≤ 1
    → is_lower c ≡ true
    → token_next t (c ∷ b) ≡ (record t { value = c ∷ []; token = token_letter }, b)
unfolding token_next
next_at_letter t c b h l = ground arith

next_at_digit :
    (t : TokenState) (c : ℕ) (b : Bytes)
    → t.token ≡ token_suffix
    → is_digit c ≡ true
    → token_next t (c ∷ b) ≡ token_parse_digits (record t { token = token_suffix_no }) (c ∷ b)
unfolding token_next next_number number_token
next_at_digit t c b h d = ground arith

Step-Revision : (t : TokenState) (b : Bytes) → index t.token < 6 → Revision b → Step t b
Step-Revision t b h (no_revision e) = Step-nil t b e
Step-Revision t b h (with_revision n num e) =
    rw (e, next_at_dash t n h)
      (rw (append-nil n) at (Step-number (record t { token = token_revision_no }) n [] num tt refl))

hash_run :
    (x r : Bytes)
    → All (λ c. is_hexdigit c ≡ true) x
    → Revision r
    → ((apk_blob_spn apk_ctype_hexdigit (x ++ r)).l ≡ x)
      × ((apk_blob_spn apk_ctype_hexdigit (x ++ r)).r ≡ r)
hash_run x r hs rev =
    let m = Revision-Mark r rev in
    spn_run apk_ctype_hexdigit x r
      (All-imp (λ c. is_hexdigit c ≡ true) (λ c. in_class apk_ctype_hexdigit c ≡ true) x
        (λ c e. in_class-hexdigit c ∙ e) hs)
      (in_class-hexdigit (first r) ∙ ground arith)

not_empty : (c : ℕ) (x : Bytes) → (length (c ∷ x) == 0) ≡ false
not_empty c x = ground arith

hash_step :
    (t : TokenState) (x r : Bytes) (s : Span)
    → x ≢ []
    → Revision r
    → (s.l ≡ x) × (s.r ≡ r)
    → Tail (next_hash t s).0.token (next_hash t s).1
unfolding next_hash
hash_step t [] r s ne rev e = absurd (ne refl)
hash_step t (c ∷ x) r s ne rev (l, e) = rw (l, e, not_empty c x) rev

Step-Hash : (t : TokenState) (b : Bytes) → index t.token < 5 → Hash b → Step t b
Step-Hash t b h (no_hash r) = Step-Revision t b (omega arith) r
Step-Hash t b h (with_hash x r ne hs rev e) =
    rw (e, next_at_tilde t (x ++ r) h) (hash_step t x r _ ne rev (hash_run x r hs rev))

literal_lower : (k : Suffix) → All (λ c. is_lower c ≡ true) (suffix_literal k)
literal_lower suffix_invalid = tt
literal_lower suffix_alpha = (refl, (refl, (refl, (refl, (refl, tt)))))
literal_lower _ = ground arith

behind_suffix :
    (n s : Bytes) → All (λ c. is_digit c ≡ true) n → Suffixes s → is_lower (first (n ++ s)) ≡ false
behind_suffix [] s ds rest = let m = Suffixes-Mark rest in ground arith
behind_suffix (c ∷ n) s (d, ds) rest = ground arith

valid_index : (k : Suffix) → k ≢ suffix_invalid → (suffix_index k == 0) ≡ false
valid_index k h = ground arith

-- A suffix's text is in lower case, and what may stand behind it is not.
suffix_run :
    (k : Suffix) (n s : Bytes)
    → All (λ c. is_digit c ≡ true) n
    → Suffixes s
    → ((apk_blob_spn apk_ctype_version_suffix (suffix_literal k ++ (n ++ s))).l ≡ suffix_literal k)
      × ((apk_blob_spn apk_ctype_version_suffix (suffix_literal k ++ (n ++ s))).r ≡ n ++ s)
suffix_run k n s ds rest =
    spn_run apk_ctype_version_suffix (suffix_literal k) (n ++ s)
      (All-imp (λ c. is_lower c ≡ true) (λ c. in_class apk_ctype_version_suffix c ≡ true)
        (suffix_literal k) (λ c e. in_class-version_suffix c ∙ e) (literal_lower k))
      (in_class-version_suffix (first (n ++ s)) ∙ behind_suffix n s ds rest)

suffix_step :
    (t : TokenState) (k : Suffix) (s : Span)
    → k ≢ suffix_invalid
    → k ≢ suffix_none
    → {r : Bytes} → (s.l ≡ suffix_literal k) × (s.r ≡ r)
    → AfterSuffix r
    → Tail (next_suffix t s).0.token (next_suffix t s).1
unfolding next_suffix
suffix_step t k s i j (l, e) after = rw (l, suffix_value-literal k j, valid_index k i, e) after

Step-Suffixes : (t : TokenState) (b : Bytes) → index t.token ≤ 4 → Suffixes b → Step t b
Step-Suffixes t b h (no_suffix r) = Step-Hash t b (omega arith) r
Step-Suffixes t b h (with_suffix k n s i j ds rest e) =
    rw (e, next_at_underscore t (suffix_literal k ++ (n ++ s)) h)
      (suffix_step t k _ i j (suffix_run k n s ds rest) (n, s, ds, rest, refl))

Step-AfterSuffix : (t : TokenState) (b : Bytes) → t.token ≡ token_suffix → AfterSuffix b → Step t b
Step-AfterSuffix t b h ([], s, ds, rest, e) = rw e (Step-Suffixes t s (ground arith) rest)
Step-AfterSuffix t b h (c ∷ n, s, ds, rest, e) =
    rw (e, next_at_digit t c (n ++ s) h ds.0)
      (Step-number (record t { token = token_suffix_no }) (c ∷ n) s (cons-ne-nil c n, ds)
        (Suffixes-NoDigit rest) rest)

Step-Letter : (t : TokenState) (b : Bytes) → index t.token ≤ 1 → Letter b → Step t b
Step-Letter t b h (no_letter s) = Step-Suffixes t b (omega arith) s
Step-Letter t b h (with_letter c s l rest e) = rw (e, next_at_letter t c s h l) rest

Step-Numbers : (t : TokenState) (b : Bytes) → index t.token ≤ 1 → Numbers b → Step t b
Step-Numbers t b h (no_number r) = Step-Letter t b h r
Step-Numbers t b h (with_number n s num rest e) =
    rw (e, next_at_point t (n ++ s) h)
      (Step-number (record t { token = token_digit }) n s num (first-NoDigit s (Numbers-Mark rest))
        rest)

Step-Tail :
    (t : TokenState) (k : Token) (b : Bytes) → t.token ≡ k → index k < 7 → Tail k b → Step t b
Step-Tail t token_initial_digit b e h tail = Step-Numbers t b (ground arith) tail
Step-Tail t token_digit b e h tail = Step-Numbers t b (ground arith) tail
Step-Tail t token_letter b e h tail = Step-Suffixes t b (ground arith) tail
Step-Tail t token_suffix b e h tail = Step-AfterSuffix t b e tail
Step-Tail t token_suffix_no b e h tail = Step-Suffixes t b (ground arith) tail
Step-Tail t token_commit_hash b e h tail = Step-Revision t b (ground arith) tail
Step-Tail t token_revision_no b e h tail = Step-nil t b tail
Step-Tail t _ b e h tail = absurd (omega arith)

Tail-over : (k : Token) (b : Bytes) → Tail k b → ltb (index k) 7 ≡ false → (index k == 7) ≡ true
Tail-over token_invalid b tail h = absurd tail
Tail-over _ b tail h = ground arith

loop_accepts :
    (fuel : ℕ) (t : TokenState) (b : Bytes) {r : Bool}
    → Tail t.token b
    → validate_loop fuel t b ≡ some r
    → r ≡ true
unfolding validate_loop
loop_accepts zero t b tail e = cc
loop_accepts (suc fuel) t b tail e = elim (Bool-cases (is_active t)) [
  | inl going ↦
      loop_accepts fuel (token_next t b).0 (token_next t b).1
        (Step-Tail t t.token b refl (ground arith) tail) (rw going at e)
  | inr over ↦ ground (arith, Tail-over t.token b tail over)
]

pub IsVersion-validate :
    (b : Bytes)
    → IsVersion b
    → {r : Bool} → validate_loop (length b + 2) (token_first b).0 (token_first b).1 ≡ some r
    → r ≡ true
unfolding token_first
IsVersion-validate b (n, s, num, rest, split) e =
    let fresh : TokenState = record {
      token = token_initial_digit;
      suffix = suffix_invalid;
      number = 0;
      value = [];
    } in
    loop_accepts (length b + 2) (token_first b).0 (token_first b).1
      (rw split (Step-number fresh n s num (first-NoDigit s (Numbers-Mark rest)) rest)) e
