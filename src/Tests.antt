-- ===== src/Tests.antt =====
-- The data of the worked examples: two pairs, floating-point operations that suffice to build small
-- filters, and a store in which the pairs form the run `data/run_1_0.data`.
pub mod Buffer
pub mod Files
pub mod Trees
pub mod Commands
pub mod Server
pub mod Pool
pub mod Bulk
pub mod Merging
pub mod Flushing
pub mod Generators
pub mod Client
pub mod Lifecycle
use cs.Prelude.{
  ℕ, ◌-◌, ◌<◌, ◌≡◌, refl, List, [], ◌∷◌, Option, none, some, Bool, true, false, ltb, leb, ◌+◌, ◌==◌,
  if◌then◌else◌, arith,
}
use cs.Pair.{KeyValuePair, Fits, Ascends, encode}
use cs.Int64.{rank}
use cs.Double.{Doubles, IsExact, one_double, zero_double, minus_zero}
use cs.Result.{ok}
use cs.Bloom.{
  BloomFilter, might_contain, might_contain_loop, hash, hash_sum, fnv1a_hash, fnv1a_bytes,
}
use cs.Fence.{FencePointer, FencePointers, fence}
use cs.Fence.Index.{first, skip, nil}
use cs.Store.{Store, FileName, same_name}
use cs.Store.Paths.{same_name_refl}
use cs.Run.{Run, data_filename}
use cs.Run.Holds.{Holds}
use cs.Compaction.Sorting.{pair}

abbrev pub two : List KeyValuePair
two = pair 3 30 ∷ pair 5 50 ∷ []

pub two-Fits : Fits two
two-Fits = ((omega arith), omega arith, (omega arith, omega arith, tt))

pub two-Ascends : Ascends 0 two
unfolding rank
two-Ascends = (omega arith, (omega arith, tt))

abbrev pub quarter : ℕ
quarter = 0x3fd0_0000_0000_0000

-- Every filter gets four bits but the one with rate 1, which gets none.
abbrev pub coarse : Doubles
coarse = record {
  neg = λ a. a;
  add = λ a b. a + b;
  sub = λ a b. a - b;
  mul = λ a b. if b == zero_double then minus_zero else one_double;
  div = λ a b. if a == minus_zero then minus_zero else if a == b then one_double else quarter;
  log = λ a. if a == one_double then zero_double else one_double;
  pow = λ a b. if b == 0 then one_double else a;
  ceil = λ a. a;
  lt = ltb;
  le = leb;
  of_size = λ n. n;
  to_size = λ a. if a == minus_zero then 0 else 4;
  to_int = λ a. a;
  of_diff = λ a b. a - b;
}

pub coarse-IsExact : IsExact coarse
coarse-IsExact = record {
  log_one = refl;
  neg_mul_zero = λ n. refl;
  zero_div_ln2 = refl;
  ceil_zero = refl;
  to_size_zero = refl;
  pow_zero = λ x n. ground arith;
  one_div_one = refl;
  one_lt_one = refl;
}

abbrev pub stored : Store
stored = record {
  disk = λ n. if same_name (data_filename 1 0) n then some (encode two) else none;
  writable = λ _. true;
  read_io_count = 0;
  write_io_count = 0;
}

abbrev pub pointers : FencePointers
pointers = record { fence_pointers = fence 3 0 ∷ []; run_filename = data_filename 1 0 }

-- A filter that denies nothing.
abbrev pub full_filter : BloomFilter
full_filter = record {
  bits = true ∷ true ∷ [];
  num_hash_functions = 1;
  fpr = quarter;
  expected_num_elements = 2;
}

abbrev pub run : Run
run = record {
  level = 1;
  run_id = 0;
  filename = data_filename 1 0;
  num_pairs = 2;
  bytes = 0;
  bloom_filter = some full_filter;
  fence_pointers = some pointers;
}

pub full3 : might_contain full_filter 3 ≡ ok true
unfolding might_contain might_contain_loop hash hash_sum fnv1a_hash fnv1a_bytes
full3 = refl

full5 : might_contain full_filter 5 ≡ ok true
unfolding might_contain might_contain_loop hash hash_sum fnv1a_hash fnv1a_bytes
full5 = refl

pub run-Holds : Holds stored run two
run-Holds = record {
  stored = rw (same_name_refl (data_filename 1 0)) refl;
  fits = two-Fits;
  ascending = two-Ascends;
  counted = refl;
  filtered = (omega arith, (full3, (full5, tt)));
  indexed = first (skip nil);
}
