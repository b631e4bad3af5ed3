-- ===== src/Version/Match.antt =====
-- `apk_version_match`: what the bits of an operator ask of the comparison.
use apk_tools.Ctype.Classes.{same, same→eq}
use apk_tools.Version.Total.{version_loops_total}
use apk_tools.Version.{
  token_cmp, TokenState, cmp_as, apk_version_equal, Token, apk_version_less, apk_version_greater,
  apk_depmask_any, token_next, apk_version_fuzzy, apk_version_conflict,
}
use apk_tools.Prelude.{
  ℕ, suc, Bool, ◌≡◌, if◌then◌else◌, true, ◌⊎◌, arith, Bytes, not, ◌+◌, ◌==◌, ◌&&◌, false, some,
  ◌||◌, zero, inl, bit_and, refl, inr, every, every_sound,
}
use apk_tools.Blob.{blob, null, Blob}
use apk_tools.Version.Loop.{
  compare_loop, compare_ends, apk_version_match, apk_version_compare_fuzzy, has,
}

-- The four results of a comparison.
abbrev pub IsResult : ℕ → Type 0
IsResult r =
    (r ≡ apk_version_equal)
    ⊎ ((r ≡ apk_version_less) ⊎ ((r ≡ apk_version_greater) ⊎ (r ≡ apk_depmask_any)))

compare_ends-IsResult : (fuzzy : Bool) (ta tb : TokenState) → IsResult (compare_ends fuzzy ta tb)
unfolding compare_ends
compare_ends-IsResult fuzzy ta tb = ground arith

cmp_as-IsResult : (k : Token) (ta tb : TokenState) → IsResult (cmp_as k ta tb)
unfolding cmp_as
cmp_as-IsResult k ta tb = ground arith

token_cmp-IsResult : (ta tb : TokenState) → IsResult (token_cmp ta tb)
unfolding token_cmp
token_cmp-IsResult ta tb = cmp_as-IsResult ta.token ta tb

compare_loop-IsResult :
    (fuel : ℕ) (fuzzy : Bool) (ta : TokenState) (a : Bytes) (tb : TokenState) (b : Bytes) (r : ℕ)
    → compare_loop fuel fuzzy ta a tb b ≡ some r
    → IsResult r
unfolding compare_loop
compare_loop-IsResult zero fuzzy ta a tb b r e = cc
compare_loop-IsResult (suc fuel) fuzzy ta a tb b r e = ground (
  arith,
  compare_ends-IsResult fuzzy ta tb,
  token_cmp-IsResult ta tb,
  compare_loop-IsResult fuel fuzzy (token_next ta a).0 (token_next ta a).1 (token_next tb b).0
      (token_next tb b).1 r,
)

pub compare-IsResult : (a b : Blob) (fuzzy : Bool) → IsResult (apk_version_compare_fuzzy a b fuzzy)
compare-IsResult (blob a) (blob b) fuzzy =
    let (r, e, er) = (version_loops_total a b fuzzy).1 in
    rw er (compare_loop-IsResult _ _ _ _ _ _ r e)
compare-IsResult null null fuzzy = unfold apk_version_compare_fuzzy in inl refl
compare-IsResult null (blob b) fuzzy = unfold apk_version_compare_fuzzy in inr (inr (inr refl))
compare-IsResult (blob a) null fuzzy = unfold apk_version_compare_fuzzy in inr (inr (inr refl))

abbrev bit : Bool → ℕ → ℕ
bit true n = n
bit false n = 0

-- The operator with the bits `=`, `<`, `>`, `~` and `!`.
abbrev pub operator : Bool → Bool → Bool → Bool → Bool → ℕ
operator equal less greater fuzzy conflict =
    bit equal apk_version_equal
    + bit less apk_version_less
    + bit greater apk_version_greater
    + bit fuzzy apk_version_fuzzy
    + bit conflict apk_version_conflict

-- The bits say which results of the comparison they accept.
abbrev pub accepts : Bool → Bool → Bool → ℕ → Bool
accepts equal less greater r =
    if r == apk_version_equal
    then equal
    else if r == apk_version_less
    then less
    else if r == apk_version_greater
    then greater
    else equal || less || greater

abbrev pub negate_if : Bool → Bool → Bool
negate_if conflict b = if conflict then not b else b

-- What `apk_version_match` makes of an operator and a result.
abbrev verdict : ℕ → ℕ → Bool
verdict op r =
    let ok = (bit_and op apk_depmask_any == apk_depmask_any) || has r op in
    if has op apk_version_conflict then not ok else ok

abbrev expected : Bool → Bool → Bool → Bool → ℕ → Bool
expected equal less greater conflict r =
    negate_if conflict ((equal && less && greater) || accepts equal less greater r)

abbrev Agrees : Bool → Bool → Bool → Bool → Bool → ℕ → Type 0
Agrees e l g f c r = verdict (operator e l g f c) r ≡ expected e l g c r

abbrev agrees : Bool → Bool → Bool → Bool → Bool → ℕ → Bool
agrees e l g f c r = same (verdict (operator e l g f c) r) (expected e l g c r)

abbrev agrees_all : Bool → Bool → Bool → Bool → Bool → Bool
agrees_all e l g f c =
    agrees e l g f c 1
    && agrees e l g f c 2
    && agrees e l g f c 4
    && agrees e l g f c 7
    && same (has (operator e l g f c) apk_version_fuzzy) f

abbrev every5 : (Bool → Bool → Bool → Bool → Bool → Bool) → Bool
every5 p = every λ e. every λ l. every λ g. every λ f. every λ c. p e l g f c

every5_sound :
    (p : Bool → Bool → Bool → Bool → Bool → Bool)
    → every5 p ≡ true
    → (e l g f c : Bool) → p e l g f c ≡ true
every5_sound p h e l g f c =
    let h1 = every_sound (λ e. every λ l. every λ g. every λ f. every λ c. p e l g f c) h e in
    let h2 = every_sound (λ l. every λ g. every λ f. every λ c. p e l g f c) h1 l in
    let h3 = every_sound (λ g. every λ f. every λ c. p e l g f c) h2 g in
    let h4 = every_sound (λ f. every λ c. p e l g f c) h3 f in every_sound (λ c. p e l g f c) h4 c

verdict_table : (e l g f c : Bool) → agrees_all e l g f c ≡ true
verdict_table = every5_sound agrees_all refl

last_of :
    (p q r s t : Bool)
    → (p && q && r && s && t) ≡ true
    → (p ≡ true) × (q ≡ true) × (r ≡ true) × (s ≡ true) × (t ≡ true)
last_of p q r s t h = ground arith

row :
    (e l g f c : Bool)
    → (agrees e l g f c 1 ≡ true)
      × (agrees e l g f c 2 ≡ true)
      × (agrees e l g f c 4 ≡ true)
      × (agrees e l g f c 7 ≡ true)
      × (same (has (operator e l g f c) apk_version_fuzzy) f ≡ true)
row e l g f c =
    last_of (agrees e l g f c 1) (agrees e l g f c 2) (agrees e l g f c 4) (agrees e l g f c 7)
      (same (has (operator e l g f c) apk_version_fuzzy) f) (verdict_table e l g f c)

fuzzy_table : (e l g f c : Bool) → has (operator e l g f c) apk_version_fuzzy ≡ f
fuzzy_table e l g f c = same→eq _ _ (row e l g f c).4

verdict-expected : (e l g f c : Bool) (r : ℕ) → IsResult r → Agrees e l g f c r
verdict-expected e l g f c r (inl h) = rw h (same→eq _ _ (row e l g f c).0)
verdict-expected e l g f c r (inr (inl h)) = rw h (same→eq _ _ (row e l g f c).1)
verdict-expected e l g f c r (inr (inr (inl h))) = rw h (same→eq _ _ (row e l g f c).2)
verdict-expected e l g f c r (inr (inr (inr h))) = rw h (same→eq _ _ (row e l g f c).3)

-- An operator's match, on any two blobs: the bits `=`, `<` and `>` accept the result of the
-- comparison (fuzzy with the bit `~`) or are all three set, and the bit `!` negates that.
pub apk_version_match_lem :
    (a b : Blob) (equal less greater fuzzy conflict : Bool)
    → apk_version_match a (operator equal less greater fuzzy conflict) b
      ≡ negate_if conflict (
          (equal && less && greater)
          || accepts equal less greater (apk_version_compare_fuzzy a b fuzzy))
unfolding apk_version_match
apk_version_match_lem a b equal less greater fuzzy conflict =
    rw (fuzzy_table equal less greater fuzzy conflict) (
      verdict-expected equal less greater fuzzy conflict (apk_version_compare_fuzzy a b fuzzy)
        (compare-IsResult a b fuzzy))
