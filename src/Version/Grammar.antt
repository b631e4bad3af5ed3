-- ===== src/Version/Grammar.antt =====
-- The grammar that the comment of src/version.c gives,
-- digit{.digit}...{letter}{_suf{#}}...{~hash}{-r#}, one data type for each tail of a version.
use apk_tools.Ctype.Classes.{is_lower, is_digit, is_hexdigit}
use apk_tools.Version.{
  Token, Suffix, is_lower, index, suffix_invalid, token_initial_digit, suffix_none, token_digit,
  suffix_literal, token_letter, token_commit_hash, token_revision_no, token_suffix, token_end,
  token_suffix_no, token_invalid,
}
use apk_tools.Prelude.{
  ◌∷◌, [], ℕ, Bytes, ◌≢◌, ◌≡◌, All, ltb, codes, true, ◌++◌, ◌≤◌, ◌<◌, arith, refl,
}

abbrev pub IsNumber : Bytes → Type 0
IsNumber n = (n ≢ []) × All (λ c. is_digit c ≡ true) n

pub data Revision (b : Bytes) : Type 0 where
  no_revision : b ≡ [] → Revision b
  with_revision : (n : Bytes) → IsNumber n → b ≡ codes "-r" ++ n → Revision b

pub data Hash (b : Bytes) : Type 0 where
  no_hash : Revision b → Hash b
  with_hash :
      (h r : Bytes)
      → h ≢ []
      → All (λ c. is_hexdigit c ≡ true) h
      → Revision r
      → b ≡ b'~' ∷ (h ++ r)
      → Hash b

pub data Suffixes : Bytes → Type 0 where
  no_suffix : {b : Bytes} → Hash b → Suffixes b
  with_suffix :
      {b : Bytes} (k : Suffix) (n s : Bytes)
      → k ≢ suffix_invalid
      → k ≢ suffix_none
      → All (λ c. is_digit c ≡ true) n
      → Suffixes s
      → b ≡ b'_' ∷ (suffix_literal k ++ (n ++ s))
      → Suffixes b

pub data Letter (b : Bytes) : Type 0 where
  no_letter : Suffixes b → Letter b
  with_letter : (c : ℕ) (s : Bytes) → is_lower c ≡ true → Suffixes s → b ≡ c ∷ s → Letter b

pub data Numbers : Bytes → Type 0 where
  no_number : {b : Bytes} → Letter b → Numbers b
  with_number : {b : Bytes} (n s : Bytes) → IsNumber n → Numbers s → b ≡ b'.' ∷ (n ++ s) → Numbers b

-- The texts of the grammar.
abbrev pub IsVersion : Bytes → Type 0
IsVersion b = (n : Bytes) × (s : Bytes) × IsNumber n × Numbers s × (b ≡ n ++ s)

-- What may stand behind a suffix: its number, and the rest.
abbrev pub AfterSuffix : Bytes → Type 0
AfterSuffix b =
    (n : Bytes) × (s : Bytes) × All (λ c. is_digit c ≡ true) n × Suffixes s × (b ≡ n ++ s)

-- What the grammar lets stand behind each token.
abbrev pub Tail : Token → Bytes → Type 0
Tail token_initial_digit b = Numbers b
Tail token_digit b = Numbers b
Tail token_letter b = Suffixes b
Tail token_suffix b = AfterSuffix b
Tail token_suffix_no b = Suffixes b
Tail token_commit_hash b = Revision b
Tail token_revision_no b = b ≡ []
Tail token_end b = Unit
Tail token_invalid b = ⊥

pub Numbers-Tail : (k : Token) (b : Bytes) → index k ≤ 1 → Numbers b → Tail k b
Numbers-Tail token_initial_digit b h s = s
Numbers-Tail token_digit b h s = s
Numbers-Tail _ b h s = absurd (omega arith)

pub Suffixes-Tail : (k : Token) (b : Bytes) → index k ≤ 4 → Suffixes b → Tail k b
Suffixes-Tail token_initial_digit b h s = no_number (no_letter s)
Suffixes-Tail token_digit b h s = no_number (no_letter s)
Suffixes-Tail token_letter b h s = s
Suffixes-Tail token_suffix b h s = ([], b, tt, s, refl)
Suffixes-Tail token_suffix_no b h s = s
Suffixes-Tail _ b h s = absurd (omega arith)

pub Revision-Tail : (k : Token) (b : Bytes) → index k < 6 → Revision b → Tail k b
Revision-Tail token_commit_hash b h r = r
Revision-Tail token_revision_no b h r = absurd (omega arith)
Revision-Tail token_end b h r = absurd (omega arith)
Revision-Tail token_invalid b h r = absurd (omega arith)
Revision-Tail k b h r = Suffixes-Tail k b (omega arith) (no_suffix (no_hash r))

pub nil-Tail : (k : Token) → ltb (index k) 7 ≡ true → Tail k []
nil-Tail token_revision_no h = refl
nil-Tail token_end h = tt
nil-Tail token_invalid h = cc
nil-Tail k h = Revision-Tail k [] (omega arith) (no_revision refl)
