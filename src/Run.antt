-- ===== src/Run.antt =====
-- `Run` of include/run.h and src/run.cpp: a sorted run in a file, with its Bloom filter and its fence
-- pointers in memory and in files of their own.
pub mod Holds
pub mod Get
pub mod Range
pub mod Pairs
pub mod Create
pub mod Names
pub mod Ended
pub mod Reload
pub mod Rights
use cs.Prelude.{
  ℕ, zero, suc, ◌+◌, ◌-◌, ◌*◌, ◌/◌, ◌%◌, min, List, [], ◌∷◌, ◌++◌, Bool, true, false, not, ◌&&◌,
  Option, none, some, ltb, leb, ◌==◌, if◌then◌else◌, length, take, drop, is_empty,
}
use cs.Int64.{lt64, le64}
use cs.Result.{
  Result, ok, err, division_by_zero, cannot_read, cannot_open, invalid_size, empty_file,
}
use cs.Pair.{KeyValuePair, encode, decode}
use cs.Double.{Doubles}
use cs.Bloom
use cs.Bloom.{BloomFilter}
use cs.Fence
use cs.Fence.{FencePointers, key_offsets, no_end}
use cs.Store.{
  FileName, Store, Action, ◌>>=◌, ◌>>◌, return, throw, lift, open_file, write_file, remove_file,
  increment_read_io, increment_write_io, codes, to_string,
}

pub record Run : Type 0 where
  pub level : ℕ
  pub run_id : ℕ
  pub filename : FileName
  pub num_pairs : ℕ
  pub bytes : ℕ
  pub bloom_filter : Option BloomFilter
  pub fence_pointers : Option FencePointers

-- The size of a pair in a file.
abbrev pub pair_size : ℕ
pair_size = 16

-- `data/run_<level>_<id>.data`
unfoldable pub data_filename : ℕ → ℕ → FileName
data_filename level run_id =
    codes "data/run_" ++ (to_string level ++ (codes "_" ++ (to_string run_id ++ codes ".data")))

abbrev pub bloom_filename : FileName → FileName
bloom_filename name = name ++ codes ".bloom"

abbrev pub fence_filename : FileName → FileName
fence_filename name = name ++ codes ".fence"

-- `for (const auto &pair : data) bloom_filter->insert(pair.key);`
unfoldable pub insert_keys : BloomFilter → List KeyValuePair → Result BloomFilter
insert_keys b [] = ok b
insert_keys b (p ∷ ps) = elim (Bloom.insert b p.key) [ ok b' ↦ insert_keys b' ps | err e ↦ err e ]

unfoldable pub write_to_disk : FileName → List KeyValuePair → Action (Unit {0})
write_to_disk name pairs =
    if is_empty pairs then return tt else do write_file name (encode pairs); increment_write_io

module _ (d : Doubles) where
  unfoldable pub create_metadata :
      FileName → List KeyValuePair → ℕ → Action (BloomFilter × FencePointers)
  unfolding insert_keys
  create_metadata name pairs fpr = do
    filter ← lift (insert_keys (Bloom.create d fpr (length pairs)) pairs)
    let pointers = Fence.create name (key_offsets 0 pairs)
    write_file (bloom_filename name) (Bloom.save filter)
    write_file (fence_filename name) (Fence.save pointers)
    return (filter, pointers)

  -- The constructor that writes a new run. `bytes` stays 0.
  unfoldable pub create : List KeyValuePair → ℕ → ℕ → ℕ → Action Run
  unfolding write_to_disk create_metadata data_filename
  create pairs level run_id fpr = do
    let name = data_filename level run_id
    write_to_disk name pairs
    (filter, pointers) ← create_metadata name pairs fpr
    return (record {
      level = level;
      run_id = run_id;
      filename = name;
      num_pairs = length pairs;
      bytes = 0;
      bloom_filter = some filter;
      fence_pointers = some pointers;
    })

-- `load_metadata` keeps what loads, and does without the rest.
abbrev kept {ℓ} : {A : Type ℓ} → Result A → Option A
kept (ok a) = some a
kept (err e) = none

-- The constructor that opens a run file. The order of its checks is that of the source.
unfoldable pub load : FileName → ℕ → ℕ → Action Run
load name level run_id = do
  content ← open_file name
  let size = length content
  if not (size % pair_size == 0)
      then throw invalid_size
      else if size / pair_size == 0
      then throw empty_file
      else λ s. (
        ok (record {
          level = level;
          run_id = run_id;
          filename = name;
          num_pairs = size / pair_size;
          bytes = size;
          bloom_filter = kept (Bloom.load (s.disk (bloom_filename name)));
          fence_pointers = kept (Fence.load (s.disk (fence_filename name)));
        }),
        s,
      )

-- A run without a filter may hold any key.
abbrev query : Option BloomFilter → ℕ → Result Bool
query none key = ok true
query (some b) key = Bloom.might_contain b key

unfoldable pub might_contain : Run → ℕ → Result Bool
might_contain r key = query r.bloom_filter key

-- The loop of `get`, over the pairs that the reads deliver.
unfoldable pub scan_for : ℕ → List KeyValuePair → Option ℕ
scan_for key [] = none
scan_for key (p ∷ ps) =
    let rest = scan_for key ps in
    if p.key == key then some p.value else if lt64 key p.key then none else rest

abbrev start_of : Option FencePointers → ℕ → Result ℕ
start_of none key = ok 0
start_of (some f) key = Fence.find_offset f key

abbrev read_from : Run → ℕ → Action (Option ℕ)
read_from r key = do
  start_pos ← lift (start_of r.fence_pointers key)
  content ← open_file r.filename
  increment_read_io
  return (scan_for key (decode (drop start_pos content)))

unfoldable pub get : Run → ℕ → Action (Option ℕ)
unfolding scan_for
get r key = do
  possible ← lift (query r.bloom_filter key)
  if possible then read_from r key else return none

-- The loop of `range`. `position` is the offset of the first of these pairs, and `file.tellg()` is
-- past the pair just read.
unfoldable pub scan_range : ℕ → ℕ → ℕ → ℕ → List KeyValuePair → List KeyValuePair
scan_range start_key end_key last position [] = []
scan_range start_key end_key last position (p ∷ ps) =
    let rest = scan_range start_key end_key last (position + pair_size) ps in
    if ltb last (position + pair_size) && not (last == no_end)
    then []
    else if le64 end_key p.key
    then []
    else if le64 start_key p.key
    then p ∷ rest
    else rest

abbrev offsets_of : Option FencePointers → ℕ → ℕ → Result (ℕ × ℕ)
offsets_of none start_key end_key = ok (0, no_end)
offsets_of (some f) start_key end_key = Fence.find_range_offsets f start_key end_key

abbrev range_from : Run → ℕ → ℕ → Action (List KeyValuePair)
range_from r start_key end_key = do
  (start, last) ← lift (offsets_of r.fence_pointers start_key end_key)
  content ← open_file r.filename
  increment_read_io
  return (scan_range start_key end_key last start (decode (drop start content)))

unfoldable pub range : Run → ℕ → ℕ → Action (List KeyValuePair)
unfolding scan_range
range r start_key end_key =
    if le64 end_key start_key then return [] else range_from r start_key end_key

-- The loop of `get_all_pairs`, which tests the count after each pair; `count` pairs are read.
unfoldable pub read_pairs : ℕ → ℕ → List KeyValuePair → List KeyValuePair
read_pairs num_pairs count [] = []
read_pairs num_pairs count (p ∷ ps) =
    let rest = read_pairs num_pairs (count + 1) ps in
    if leb num_pairs (count + 1) then p ∷ [] else p ∷ rest

unfoldable pub get_all_pairs : Run → Action (List KeyValuePair)
unfolding read_pairs
get_all_pairs r = do
  content ← open_file r.filename
  return (read_pairs r.num_pairs 0 (decode content))

unfoldable pub get_sample_pairs : Run → ℕ → Action (List KeyValuePair)
get_sample_pairs r max_count = if min max_count r.num_pairs == 0 then return [] else do
  content ← open_file r.filename
  return (take (min max_count r.num_pairs) (decode content))

-- `read_pair_at`
unfoldable pub read_pair_at : List ℕ → ℕ → Result KeyValuePair
read_pair_at content offset = elim (decode (drop offset content)) [
  | [] ↦ err cannot_read
  | p ∷ ps ↦ ok p
]

unfoldable pub rebuild_bloom_filter : Doubles → Run → ℕ → Action Run
unfolding get_all_pairs insert_keys
rebuild_bloom_filter d r new_fpr = do
  pairs ← get_all_pairs r
  filter ← lift (insert_keys (Bloom.create d new_fpr (length pairs)) pairs)
  write_file (bloom_filename r.filename) (Bloom.save filter)
  return (record r { bloom_filter = some filter })

-- `save` writes what metadata there is.
unfoldable pub save : Run → Action (Unit {0})
save r = do
  elim r.bloom_filter [
    | none ↦ return tt
    | some b ↦ write_file (bloom_filename r.filename) (Bloom.save b)
  ]
  elim r.fence_pointers [
    | none ↦ return tt
    | some f ↦ write_file (fence_filename r.filename) (Fence.save f)
  ]

unfoldable pub delete_files_from_disk : Run → Action (Unit {0})
delete_files_from_disk r = do
  remove_file r.filename
  remove_file (bloom_filename r.filename)
  remove_file (fence_filename r.filename)

-- `get_bloom_filter_bits_per_element`
unfoldable pub bits_per_element : Run → Result ℕ
bits_per_element r = elim r.bloom_filter [
  | none ↦ ok 0
  | some b ↦ if r.num_pairs == 0 then err division_by_zero else ok (Bloom.bit_count b / r.num_pairs)
]

-- `size`
unfoldable pub size : Run → ℕ
size r = r.num_pairs
