-- ===== src/Package/Info/Write/Lines.antt =====
-- The statements that write an index, and the lines that they write.
use apk_tools.Blob.Number.{apk_blob_pull_uint}
use apk_tools.Blob.Search.Laws.{Without}
use apk_tools.Package.Info.Write.OneLine.{pull_uint-Without}
use mathlib.Core.Option
use apk_tools.Prelude.{
  All, ℕ, Bytes, List, Option, some, [], ◌∷◌, refl, ◌++◌, Bool, ◌≡◌, subst, ap, ◌∙◌, sym,
  append-nil, ◌<◌, append_assoc, ◌^◌, arith, Bool-cases, ◌==◌, inl, ==_iff, inr, ltb, length, false,
  ◌-◌,
}
use apk_tools.Blob.{Buffer, room, blob, apk_blob_push_blob, overflow}
use apk_tools.Blob.Number.RoundTrip.{apk_blob_pull_uint-apk_blob_push_uint}
use apk_tools.Errors.{ok}
use apk_tools.Package.Parse.RoundTrip.{push_blob-append}
use apk_tools.Package.Info.{Template, Compat, apk_pkgtmpl_add_info, Bool, apk_blob_pull_uint, false}
use apk_tools.Package.Info.Write.{
  push_all, push_field, push_optional, push_number, push_nonzero, length,
}

-- Entries as lines: an end of line, the field, a colon and the value.
unfoldable pub lines_text : List (ℕ × Bytes) → Bytes
lines_text [] = []
lines_text ((field, value) ∷ es) = b'\n' ∷ field ∷ b':' ∷ (value ++ lines_text es)

lines-append : (xs ys : List (ℕ × Bytes)) → lines_text (xs ++ ys) ≡ lines_text xs ++ lines_text ys
unfolding lines_text
lines-append [] ys = refl
lines-append ((f, v) ∷ xs) ys =
    ap (λ r. b'\n' ∷ f ∷ b':' ∷ r)
      (ap (λ r. v ++ r) (lines-append xs ys) ∙ sym (append_assoc v (lines_text xs) (lines_text ys)))

-- No value has an end of line, so that each entry is one line.
abbrev pub AreLines : List (ℕ × Bytes) → Type 0
AreLines es = All (λ e. Without b'\n' e.1) es

AreLines-append : (xs ys : List (ℕ × Bytes)) → AreLines xs → AreLines ys → AreLines (xs ++ ys)
AreLines-append [] ys h k = k
AreLines-append (x ∷ xs) ys (hx, h) k = (hx, AreLines-append xs ys h k)

push-nil : (to : Buffer) → apk_blob_push_blob to [] ≡ to
unfolding apk_blob_push_blob
push-nil overflow = refl
push-nil (room w len) =
    let no : ltb len 0 ≡ false = ground arith in
    let same : len - 0 ≡ len = omega arith in rw (no, append-nil w, same) refl

module _ (islower : ℕ → Bool) (db : Compat) where
  -- The entries are taken one by one, with the return value 0 and nothing new in the database.
  abbrev pub Adds : Template → List (ℕ × Bytes) → Template → Type 0
  Adds t [] u = t ≡ u
  Adds t ((field, value) ∷ es) u =
      (v : Template) × (apk_pkgtmpl_add_info islower t db field (blob value) ≡ some (ok 0, (v, db)))
      × Adds v es u

  Adds-append :
      (t u v : Template) (xs ys : List (ℕ × Bytes))
      → Adds t xs u
      → Adds u ys v
      → Adds t (xs ++ ys) v
  Adds-append t u v [] ys h k = subst (λ x. Adds x ys v) (sym h) k
  Adds-append t u v ((f, b) ∷ xs) ys (w, e, h) k = (w, e, Adds-append w u v xs ys h k)

  -- A statement writes lines that take one template to another.
  unfoldable pub Step : (Buffer → Option Buffer) → Template → Template → Type 0
  Step push t u =
      (to : Buffer)
      → (es : List (ℕ × Bytes)) × (push to ≡ some (apk_blob_push_blob to (lines_text es)))
        × AreLines es
        × Adds t es u

  pub Step-nil : (t : Template) → Step (push_all []) t t
  unfolding Step lines_text push_all
  Step-nil t to = ([], ap some (sym (push-nil to)), tt, refl)

  pub Step-cons :
      (push : Buffer → Option Buffer) (pushes : List (Buffer → Option Buffer)) (t u v : Template)
      → Step push t u
      → Step (push_all pushes) u v
      → Step (push_all (push ∷ pushes)) t v
  unfolding Step push_all Option.bind
  Step-cons push pushes t u v h k to =
      let (xs, e, l, a) = h to in
      let (ys, f, m, b) = k (apk_blob_push_blob to (lines_text xs)) in
      (
        xs ++ ys,
        rw (e, lines-append xs ys)
            (f ∙ ap some (push_blob-append to (lines_text xs) (lines_text ys))),
        AreLines-append xs ys l m,
        Adds-append t u v xs ys a b,
      )

  -- A line whose field takes any text.
  pub Step-field :
      (c : ℕ) (value : Bytes) (t u : Template)
      → Without b'\n' value
      → apk_pkgtmpl_add_info islower t db c (blob value) ≡ some (ok 0, (u, db))
      → Step (push_field (b'\n' ∷ c ∷ b':' ∷ []) value) t u
  unfolding Step push_field lines_text
  Step-field c value t u line h to = (
    (c, value) ∷ [],
    rw (append-nil value) (ap some (push_blob-append to (b'\n' ∷ c ∷ b':' ∷ []) value)),
    (line, tt),
    (u, h, refl),
  )

  pub Step-optional :
      (c : ℕ) (value : Bytes) (t u : Template)
      → Without b'\n' value
      → (value ≡ [] → t ≡ u)
      → apk_pkgtmpl_add_info islower t db c (blob value) ≡ some (ok 0, (u, db))
      → Step (push_optional (b'\n' ∷ c ∷ b':' ∷ []) value) t u
  unfolding Step push_optional lines_text
  Step-optional c [] t u line z h to = ([], ap some (sym (push-nil to)), tt, z refl)
  Step-optional c (x ∷ value) t u line z h to =
      let some_text : (length (x ∷ value) == 0) ≡ false = ground arith in
      let (es, e, l, a) = Step-field c (x ∷ value) t u line h to in (es, rw some_text e, l, a)

  pub Step-number :
      (c n : ℕ) (t u : Template)
      → n < 2 ^ 64
      → ((digits : Bytes)
          → apk_blob_pull_uint digits 10 ≡ (n, [])
          → apk_pkgtmpl_add_info islower t db c (blob digits) ≡ some (ok 0, (u, db)))
      → Step (push_number (b'\n' ∷ c ∷ b':' ∷ []) n) t u
  unfolding Step push_number lines_text
  Step-number c n t u small h to =
      let label = b'\n' ∷ c ∷ b':' ∷ [] in
      let (digits, put, get) =
        apk_blob_pull_uint-apk_blob_push_uint (apk_blob_push_blob to label) n 10 [] small
          (omega arith) (omega arith) tt in
      let whole = subst (λ d. apk_blob_pull_uint d 10 ≡ (n, [])) (append-nil digits) get in
      (
        (c, digits) ∷ [],
        rw (append-nil digits) (put ∙ ap some (push_blob-append to label digits)),
        (pull_uint-Without digits n whole, tt),
        (u, h digits whole, refl),
      )

  pub Step-nonzero :
      (c n : ℕ) (t u : Template)
      → n < 2 ^ 64
      → (n ≡ 0 → t ≡ u)
      → ((digits : Bytes)
          → apk_blob_pull_uint digits 10 ≡ (n, [])
          → apk_pkgtmpl_add_info islower t db c (blob digits) ≡ some (ok 0, (u, db)))
      → Step (push_nonzero (b'\n' ∷ c ∷ b':' ∷ []) n) t u
  unfolding Step push_nonzero lines_text
  Step-nonzero c n t u small z h to = elim (Bool-cases (n == 0)) [
    | inl s ↦ ([], rw s (ap some (sym (push-nil to))), tt, z ((==_iff n 0).0 s))
    | inr m ↦ let (es, e, l, a) = Step-number c n t u small h to in (es, rw m e, l, a)
  ]
