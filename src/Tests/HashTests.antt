-- ===== src/Tests/HashTests.antt =====
-- A table of numbers in four buckets.
use apk_tools.Hash.{HashTable}
use apk_tools.Prelude.{ℕ, ◌∷◌, []}

abbrev table : HashTable ℕ
table = record { buckets = (4 ∷ []) ∷ [] ∷ [] ∷ (7 ∷ 3 ∷ []) ∷ []; num_items = 3 }
