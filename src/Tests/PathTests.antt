-- ===== src/Tests/PathTests.antt =====
-- A path of two elements.
use apk_tools.PathBuilder.{PathBuilder}
use apk_tools.Prelude.{◌≡◌, ℕ, arith, codes, length, ◌++◌, replicate, suc, Bytes, zero, refl}
use apk_tools.PathBuilder.Laws.{IsPath}

abbrev zeros : ℕ → Bytes
zeros n = replicate n 0

-- `etc` at the front of the array, the rest of which is 0.
abbrev etc : PathBuilder
etc = record { namelen = 3; name = codes "etc" ++ zeros 4093 }

length-zeros : (n : ℕ) → length (zeros n) ≡ n
length-zeros zero = refl
length-zeros (suc n) = omega (arith, length-zeros n)

etc-IsPath : IsPath etc
etc-IsPath = (omega (arith, length-zeros 4093), omega arith)
