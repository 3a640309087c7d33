-- ===== src/Tests/Generators.antt =====
-- Examples on the generators of test data.
use cs.Prelude.{
  ℕ, ◌+◌, ◌%◌, ◌<◌, ◌≤◌, ◌≡◌, refl, List, [], ◌∷◌, some, true, false, ◌==◌, arith, length,
  Bool-cases, inl, inr,
}
use cs.Result.{ok}
use cs.Pair.{KeyValuePair, encode}
use cs.Store.{FileName, Store, codes, same_name}
use cs.Compaction.Sorting.{insertion_sort, insertion_sort-IsSort}
use cs.Tree.Access.{put_all}
use cs.Tree.Upkeep.{load_file, drawn}
use cs.Generators.{is_used, write_pairs}
use cs.Generators.Copies.{copies}
use cs.Generators.Drawn.{IsPatient}
use cs.Generators.Written.{load_file-write_pairs}
use cs.Generators.TestData.{write_data}
use cs.Generators.TestData.Shifted.{shifted, load_file-write_data}
use cs.Tests.{two, two-Fits, coarse, stored}
use cs.Tests.Trees.{tree}

-- Keys that repeat after four draws.
abbrev four_keys : ℕ → ℕ
four_keys i = i % 4

unused_soon :
    (i : ℕ) (used : List ℕ)
    → length used < 2
    → (j : ℕ) × (j < 2) × (is_used (four_keys (i + j)) used ≡ false)
unfolding is_used
unused_soon i [] h = (0, omega arith, refl)
unused_soon i (u ∷ v ∷ used) h = absurd (omega arith)
unused_soon i (u ∷ []) h = elim (Bool-cases (u == (i + 0) % 4)) [
  | inl taken ↦ (1, omega arith, ground arith)
  | inr free ↦ (0, omega arith, ground arith)
]

four_keys-IsPatient : IsPatient four_keys four_keys 2 2
four_keys-IsPatient = record {
  keys_fit = λ i. omega arith;
  values_fit = λ i. omega arith;
  comes_up = unused_soon;
}

abbrev output : FileName
output = codes "out.bin"

load_file-write_pairs_example :
    (ps : List KeyValuePair) × (s : Store) × (write_pairs four_keys four_keys
        (insertion_sort true)
        2
        2
        1
        output
        stored
      ≡ ok (0, s))
    × (s.disk output ≡ some (encode ps))
    × (length ps ≡ 2)
    × ((k : ℕ) → copies k ps ≤ 1)
    × ((n : FileName) → same_name output n ≡ false → s.disk n ≡ stored.disk n)
    × (load_file coarse (insertion_sort true) output (λ n. n) (record tree { store = s })
        ≡ put_all coarse (insertion_sort true) (drawn (λ n. n) 0 ps) (record tree { store = s }))
load_file-write_pairs_example =
    load_file-write_pairs four_keys four_keys (insertion_sort true) 2 2 1 output stored coarse tree
      (λ n. n) (insertion_sort-IsSort true) four_keys-IsPatient refl

load_file-write_data_example :
    (s : Store) × (write_data two output stored ≡ (0, s))
    × (load_file coarse (insertion_sort true) output (λ n. n) (record tree { store = s })
        ≡ put_all coarse
            (insertion_sort true)
            (drawn (λ n. n) 0 (shifted 2 two))
            (record tree { store = s }))
load_file-write_data_example =
    load_file-write_data two output stored coarse (insertion_sort true) tree (λ n. n) two-Fits
      (omega arith) refl
