-- ===== src/Generators/TestData.antt =====
-- `generate_test_data.cpp` of src. What the calls of the random distributions give is numbered as in the
-- other generators; the weights from which the skewed distribution is built
-- are floating-point numbers and belong to the draws. `std::sort` and `std::stod` are parameters.
pub mod Shifted
use cs.Prelude.{
  ℕ, zero, suc, ◌+◌, ◌-◌, ◌*◌, ◌/◌, ◌%◌, List, [], ◌∷◌, ◌++◌, some, Bool, true, false, ◌||◌, ltb,
  ◌==◌, if◌then◌else◌, length, take,
}
use cs.Int64.{word, put64}
use cs.Result
use cs.Result.{Result, ok, err, no_fuel, ◌>>=◌}
use cs.Pair.{KeyValuePair, encode}
use cs.Store.{FileName, Store, codes, same_name, updated}
use cs.Text.{Text, stoll, stoull}

-- `std::unique` and `erase` on sorted keys.
unfoldable pub unique_keys : List ℕ → List ℕ
unique_keys [] = []
unique_keys (k ∷ []) = k ∷ []
unique_keys (k ∷ l ∷ ks) = let rest = unique_keys (l ∷ ks) in if k == l then rest else k ∷ rest

-- `n` draws from call number `i` on.
unfoldable pub draws : (ℕ → ℕ) → ℕ → ℕ → List ℕ
draws dist i zero = []
draws dist i (suc n) = dist i ∷ draws dist (i + 1) n

-- The keys get values, drawn one after the other.
unfoldable pub with_values : (ℕ → ℕ) → ℕ → List ℕ → List KeyValuePair
with_values dist i [] = []
with_values dist i (k ∷ ks) = record { key = k; value = dist i } ∷ with_values dist (i + 1) ks

module _ (draw_key draw_value : ℕ → ℕ) (sort_keys : List ℕ → List ℕ) (rounds count : ℕ) where
  abbrev pub sorted_with : List ℕ → List ℕ → List ℕ
  sorted_with keys more = unique_keys (sort_keys (keys ++ more))

  -- `while (keys.size() < count)`, with at most `fuel` rounds: the keys, and the number of the next draw.
  unfoldable pub fill_uniform : ℕ → ℕ → List ℕ → Result (List ℕ × ℕ)
  unfolding unique_keys draws
  fill_uniform zero i keys = err no_fuel
  fill_uniform (suc fuel) i keys =
      let additional = count - length keys in
      let again =
        fill_uniform fuel (i + additional) (sorted_with keys (draws draw_key i additional)) in
      if ltb (length keys) count then again else ok (keys, i)

  unfoldable pub generate_uniform_data : Result (List KeyValuePair)
  unfolding fill_uniform with_values
  generate_uniform_data = do
    (keys, i) ← fill_uniform rounds count (sorted_with [] (draws draw_key 0 count))
    ok (with_values draw_value i (take count keys))

  -- The loop of the skewed distribution, which draws twice as many keys as are missing.
  unfoldable pub fill_skewed : ℕ → ℕ → List ℕ → Result (List ℕ × ℕ)
  unfolding unique_keys draws
  fill_skewed zero i keys = err no_fuel
  fill_skewed (suc fuel) i keys =
      let additional = (count - length keys) * 2 in
      let again =
        fill_skewed fuel (i + additional)
          (take count (sorted_with keys (draws (λ j. draw_key j + 1) i additional))) in
      if ltb (length keys) count then again else ok (keys, i)

  unfoldable pub generate_skewed_data : Result (List KeyValuePair)
  unfolding fill_skewed with_values
  generate_skewed_data = do
    (keys, i) ←
        fill_skewed rounds (count * 2)
          (take count (sorted_with [] (draws (λ j. draw_key j + 1) 0 (count * 2))))
    ok (with_values draw_value i (take count keys))

pub record Options : Type 0 where
  pub size_mb : ℕ
  pub distribution : Text
  pub output_path : Text
  pub key_range_multiplier : ℕ
  pub zipf_factor : ℕ

-- The options, or an exit code.
pub data Parsed : Type 0 where
  parsed : Options → Parsed
  exited : ℕ → Parsed

-- An argument that is no option with a value behind it.
abbrev pub last_option : Text → Parsed
last_option arg = if same_name arg (codes "--help") then exited 0 else exited 1

module _ (stod : Text → Result ℕ) where
  -- The loop over the arguments.
  unfoldable pub parse_arguments : Options → List Text → Result Parsed
  parse_arguments o [] = ok (parsed o)
  parse_arguments o (arg ∷ []) = ok (last_option arg)
  parse_arguments o (arg ∷ value ∷ args) =
      let sized = stoull value >>= λ n. parse_arguments (record o { size_mb = n }) args in
      let distributed = parse_arguments (record o { distribution = value }) args in
      let named = parse_arguments (record o { output_path = value }) args in
      let ranged =
        stoll value >>= λ n. parse_arguments (record o { key_range_multiplier = n }) args in
      let skewed = stod value >>= λ x. parse_arguments (record o { zipf_factor = x }) args in
      if same_name arg (codes "--size")
      then sized
      else if same_name arg (codes "--distribution")
      then distributed
      else if same_name arg (codes "--output")
      then named
      else if same_name arg (codes "--key-range")
      then ranged
      else if same_name arg (codes "--zipf-factor")
      then skewed
      else ok (last_option arg)

-- The file: the count as a header, and the pairs behind it.
unfoldable pub write_data : List KeyValuePair → FileName → Store → ℕ × Store
write_data pairs output_path s =
    if s.writable output_path
    then (
      0,
      record s { disk = updated s.disk output_path (some (put64 (length pairs) (encode pairs))) },
    )
    else (1, s)

abbrev pub default_options : Options
default_options = record {
  size_mb = 100;
  distribution = codes "uniform";
  output_path = codes "data.bin";
  key_range_multiplier = 2;
  zipf_factor = 0x3ff3_3333_3333_3333;
}

abbrev pub is_distribution : Text → Bool
is_distribution name = same_name name (codes "uniform") || same_name name (codes "skewed")

-- `draw_uniform` and `draw_skewed` depend on the range of the keys and on the factor.
module _ (draw_uniform draw_skewed : Options → ℕ → ℕ) (draw_value : ℕ → ℕ)
    (sort_keys : List ℕ → List ℕ) (rounds : ℕ) (stod : Text → Result ℕ) where
  unfoldable pub generate : Options → ℕ → Result (List KeyValuePair)
  unfolding generate_uniform_data generate_skewed_data
  generate o pair_count =
      if same_name o.distribution (codes "uniform")
      then generate_uniform_data (draw_uniform o) draw_value sort_keys rounds pair_count
      else generate_skewed_data (draw_skewed o) draw_value sort_keys rounds pair_count

  -- What follows the parsing: the tests of the parameters, the generation and the file.
  unfoldable pub run_parsed : Parsed → Store → Result (ℕ × Store)
  unfolding generate write_data
  run_parsed (exited code) s = ok (code, s)
  run_parsed (parsed o) s =
      if o.size_mb == 0
      then ok (1, s)
      else if is_distribution o.distribution
      then (do
        pairs ← generate o (o.size_mb * 1024 * 1024 % word / 16)
        ok (write_data pairs o.output_path s))
      else ok (1, s)

  -- `main`, with the arguments behind the name of the program.
  unfoldable pub main : List Text → Store → Result (ℕ × Store)
  unfolding parse_arguments run_parsed
  main args s = parse_arguments stod default_options args >>= λ p. run_parsed p s
