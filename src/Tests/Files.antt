-- ===== src/Tests/Files.antt =====
-- Examples on runs, fence pointers and Bloom filters.
use cs.Prelude.{ℕ, ◌+◌, ◌<◌, ◌≡◌, refl, List, [], ◌∷◌, ◌++◌, true, false, arith, length}
use cs.Result.{ok}
use cs.Pair.{lookup, within}
use cs.Int64.{rank}
use cs.Bloom
use cs.Bloom.{BloomFilter, optimal_bits, optimal_hash_functions}
use cs.Bloom.File.{FilterFits}
use cs.Bloom.Membership.{Extends, might_contain-insert}
use cs.Fence
use cs.Fence.{FencePointer, fence, binary_search, find_offset, find_range_offsets, key_offsets}
use cs.Fence.Search.{IsChoice, binary_search-IsChoice}
use cs.Store.{Store, to_string}
use cs.Store.Paths.{read_number, read_number-to_string}
use cs.Run
use cs.Run.{
  Run, data_filename, bloom_filename, fence_filename, get_all_pairs, get_sample_pairs, read_pair_at,
}
use cs.Run.Holds.{Holds, SameFiles}
use cs.Run.Get.{get-lookup}
use cs.Run.Range.{range-within}
use cs.Run.Create.{OnlyFilesOf, create-Holds}
use cs.Run.Reload.{PointersFit, load-create}
use cs.Tests.{two, two-Fits, two-Ascends, coarse, stored, run, run-Holds, full_filter, quarter}

get-lookup_example :
    (s : Store) × (Run.get run 5 stored ≡ (ok (lookup 5 two), s)) × SameFiles stored s
get-lookup_example = get-lookup stored run two 5 run-Holds

range-within_example :
    (s : Store) × (Run.range run 4 9 stored ≡ (ok (within 4 9 two), s)) × SameFiles stored s
range-within_example = range-within stored run two 4 9 run-Holds

four_bits : 0 < optimal_bits coarse (length two) quarter
unfolding optimal_bits
four_bits = omega arith

create-Holds_example :
    (r : Run) × (s : Store) × (Run.create coarse two 2 7 quarter stored ≡ (ok r, s))
    × Holds s r two
    × (r.filename ≡ data_filename 2 7)
    × OnlyFilesOf (data_filename 2 7) stored s
    × (s.write_io_count ≡ stored.write_io_count + 1)
create-Holds_example =
    create-Holds coarse two 2 7 quarter stored refl two-Fits two-Ascends four_bits
      (record { data_file = refl; bloom_file = refl; fence_file = refl })

two-FilterFits : FilterFits (Bloom.create coarse quarter 2)
unfolding Bloom.create optimal_bits optimal_hash_functions
two-FilterFits = record {
  fpr = omega arith;
  expected = omega arith;
  hashes = omega arith;
  count = omega arith;
}

two-PointersFit : PointersFit (Fence.create (data_filename 2 7) (key_offsets 0 two))
unfolding data_filename to_string Fence.create key_offsets
two-PointersFit = record {
  name = omega arith;
  count = omega arith;
  entries = (omega arith, omega arith, tt);
}

load-create_example :
    (r : Run) × (s : Store) × (Run.create coarse two 2 7 quarter stored ≡ (ok r, s))
    × (Run.load r.filename 2 7 s ≡ (ok (record r { bytes = 32 }), s))
load-create_example =
    load-create coarse two 2 7 quarter stored refl four_bits
      (record { data_file = refl; bloom_file = refl; fence_file = refl }) two-FilterFits
      two-PointersFit

abbrev three : List FencePointer
three = fence 3 0 ∷ fence 5 4096 ∷ fence 9 8192 ∷ []

binary_search-IsChoice_example : (i : ℕ) × (binary_search three 7 ≡ ok i) × IsChoice three 7 i
unfolding rank
binary_search-IsChoice_example =
    binary_search-IsChoice three 7 0 (omega arith, (omega arith, (omega arith, tt))) (omega arith)

abbrev clear_filter : BloomFilter
clear_filter = record {
  bits = false ∷ false ∷ false ∷ [];
  num_hash_functions = 2;
  fpr = quarter;
  expected_num_elements = 1;
}

might_contain-insert_example :
    (b : BloomFilter) × (Bloom.insert clear_filter 42 ≡ ok b)
    × Extends clear_filter b
    × (Bloom.might_contain b 42 ≡ ok true)
might_contain-insert_example = might_contain-insert clear_filter 42 (omega arith)

read_number-to_string_example : read_number 0 (to_string 120 ++ 46 ∷ []) ≡ read_number 120 (46 ∷ [])
read_number-to_string_example = read_number-to_string 120 (46 ∷ [])

grown : BloomFilter
grown = (might_contain-insert full_filter 7 (omega arith)).0
