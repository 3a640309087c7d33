-- ===== src/Generators.antt =====
-- `data_generator.cpp`, `data_generator_256mb.cpp` and `almost_full_buffer_generator.cpp` of src: programs
-- that write files of pairs for `load_file` and `bulk_load_file`. The calls of the random distributions
-- are numbered: `draw_key i` and `draw_value i` are what call number `i` gives. What the programs
-- print about their progress is left out.
pub mod Copies
pub mod Drawn
pub mod Written
pub mod TestData
use cs.Prelude.{
  ℕ, zero, suc, ◌+◌, ◌-◌, ◌*◌, ◌/◌, ◌%◌, List, [], ◌∷◌, ◌++◌, some, Bool, true, false, ◌||◌, ltb,
  ◌==◌, if◌then◌else◌,
}
use cs.Result.{Result, ok, err, no_fuel, ◌>>=◌}
use cs.Pair.{KeyValuePair, encode}
use cs.Store.{FileName, Store, codes, updated}

-- `used_keys.count(key) > 0`
unfoldable pub is_used : ℕ → List ℕ → Bool
is_used key [] = false
is_used key (k ∷ used) = k == key || is_used key used

-- The pairs of a batch, the number of the next draw, and the keys that are used.
pub record Batch : Type 0 where
  pub pairs : List KeyValuePair
  pub position : ℕ
  pub used : List ℕ

abbrev pub with_pair : ℕ → ℕ → Batch → Batch
with_pair key value b = record b { pairs = record { key = key; value = value } ∷ b.pairs }

abbrev pub joined : Batch → Batch → Batch
joined b b' = record b' { pairs = b.pairs ++ b'.pairs }

module _ (draw_key draw_value : ℕ → ℕ) (sort : List KeyValuePair → List KeyValuePair)
    (patience : ℕ) where
  -- `do { key = key_dist(rng); } while (used_keys.count(key) > 0);`, with at most `patience` rounds: the
  -- key, and the number of the next draw.
  unfoldable pub fresh_key : ℕ → ℕ → List ℕ → Result (ℕ × ℕ)
  unfolding is_used
  fresh_key zero i used = err no_fuel
  fresh_key (suc fuel) i used =
      let again = fresh_key fuel (i + 1) used in
      if is_used (draw_key i) used then again else ok (draw_key i, i + 1)

  -- The loop of `generate_batch`.
  unfoldable pub draw_pairs : ℕ → ℕ → List ℕ → Result Batch
  unfolding fresh_key
  draw_pairs zero i used = ok (record { pairs = []; position = i; used = used })
  draw_pairs (suc n) i used = do
    (key, j) ← fresh_key patience i used
    rest ← draw_pairs n (j + 1) (key ∷ used)
    ok (with_pair key (draw_value j) rest)

  unfoldable pub generate_batch : ℕ → ℕ → List ℕ → Result Batch
  unfolding draw_pairs
  generate_batch batch_size i used = do
    b ← draw_pairs batch_size i used
    ok (record b { pairs = sort b.pairs })

  -- The full batches, whose pairs are written one batch after the other.
  unfoldable pub full_batches : ℕ → ℕ → ℕ → List ℕ → Result Batch
  unfolding generate_batch
  full_batches batch_size zero i used = ok (record { pairs = []; position = i; used = used })
  full_batches batch_size (suc num_batches) i used = do
    b ← generate_batch batch_size i used
    rest ← full_batches batch_size num_batches b.position b.used
    ok (joined b rest)

  abbrev pub and_remaining : ℕ → Batch → Result Batch
  and_remaining remaining_pairs b =
      if ltb 0 remaining_pairs
      then (do rest ← generate_batch remaining_pairs b.position b.used; ok (joined b rest))
      else ok b

  -- All pairs that `main` writes.
  unfoldable pub all_batches : ℕ → ℕ → Result Batch
  unfolding full_batches
  all_batches num_pairs batch_size = do
    b ← full_batches batch_size (num_pairs / batch_size) 0 []
    and_remaining (num_pairs % batch_size) b

  -- `main`, with the exit code and the files after it.
  unfoldable pub write_pairs : ℕ → ℕ → FileName → Store → Result (ℕ × Store)
  unfolding all_batches
  write_pairs num_pairs batch_size output_file s =
      if s.writable output_file
      then (do
        b ← all_batches num_pairs batch_size
        ok (0, record s { disk = updated s.disk output_file (some (encode b.pairs)) }))
      else ok (1, s)

abbrev pub first_or : FileName → List FileName → FileName
first_or default [] = default
first_or default (name ∷ names) = name

abbrev pub kv_pair_size : ℕ
kv_pair_size = 16

abbrev pub batch_size : ℕ
batch_size = 1000000

-- `main` of the two generators, with the arguments behind the name of the program.
unfoldable pub main_10gb :
    (ℕ → ℕ)
    → (ℕ → ℕ)
    → (List KeyValuePair → List KeyValuePair)
    → ℕ
    → List FileName
    → Store
    → Result (ℕ × Store)
unfolding write_pairs
main_10gb draw_key draw_value sort patience args =
    write_pairs draw_key draw_value sort patience (10 * 1024 * 1024 * 1024 / kv_pair_size)
      batch_size (first_or (codes "test_data_10gb.bin") args)

unfoldable pub main_256mb :
    (ℕ → ℕ)
    → (ℕ → ℕ)
    → (List KeyValuePair → List KeyValuePair)
    → ℕ
    → List FileName
    → Store
    → Result (ℕ × Store)
unfolding write_pairs
main_256mb draw_key draw_value sort patience args =
    write_pairs draw_key draw_value sort patience (256 * 1024 * 1024 / kv_pair_size) batch_size
      (first_or (codes "data/test_data_256mb.bin") args)

-- The keys 1, 2, ... with drawn values.
unfoldable pub numbered : (ℕ → ℕ) → ℕ → ℕ → List KeyValuePair
numbered dist i zero = []
numbered dist i (suc n) = record { key = i + 1; value = dist i } ∷ numbered dist (i + 1) n

-- `calc_pairs_for_almost_full_buffer`, with the default size of the buffer, which this program keeps.
unfoldable pub pairs_for_almost_full_buffer : ℕ
pairs_for_almost_full_buffer = 4 * 1024 * 1024 / kv_pair_size - 1

-- `main` of the generator for an almost full buffer.
unfoldable pub main_almost_full : (ℕ → ℕ) → List FileName → Store → ℕ × Store
unfolding numbered
main_almost_full dist args s =
    let output_file = first_or (codes "almost_full_buffer.bin") args in
    let pairs = numbered dist 0 pairs_for_almost_full_buffer in
    if s.writable output_file
    then (0, record s { disk = updated s.disk output_file (some (encode pairs)) })
    else (1, s)
