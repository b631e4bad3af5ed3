-- ===== src/Package/Pull/RoundTrip.antt =====
-- Dependencies are read back from the text that they are written as.
use apk_tools.Errors.{Error}
use apk_tools.Blob.Search.{apk_blob_split}
use apk_tools.Database.Tags.{RepoTag}
use apk_tools.Ctype.{in_class, apk_ctype_dependency_separator}
use apk_tools.Package.{Dependency, false, Bool, Option}
use apk_tools.Prelude.{ℕ, Bytes, ◌≡◌, ◌∷◌, ◌⊎◌, false, [], codes, Bool, length, Option}
use apk_tools.Package.Pull.{Dependency, [], codes, RepoTag, apk_blob_split, length, Error}

-- What stands behind a token, and what is left of it behind the separators.
Behind : Bytes → Bytes → Type 0
Behind tail left =
    ((tail ≡ []) × (left ≡ []))
    ⊎ ((y : ℕ) × (r : Bytes) × (tail ≡ b' ' ∷ y ∷ r)
        × (left ≡ y ∷ r)
        × (in_class apk_ctype_dependency_separator y ≡ false))
