-- ===== src/Tree/Stats.antt =====
-- `print_stats` of src/lsm_tree.cpp: what the statistics say of the tree. `show` is how the stream prints
-- a `double`.
use cs.Prelude.{
  ℕ, ◌+◌, ◌-◌, ◌/◌, List, [], ◌∷◌, ◌++◌, ltb, leb, ◌==◌, if◌then◌else◌, length, is_empty,
}
use cs.Int64.{tombstone}
use cs.Result
use cs.Result.{Result, ok, err, division_by_zero}
use cs.Pair.{KeyValuePair}
use cs.Double.{Doubles}
use cs.Bloom.{optimal_bits, optimal_hash_functions}
use cs.SkipList
use cs.Store
use cs.Store.{codes, to_string}
use cs.Text.{Text, joined, signed_text}
use cs.Run
use cs.Run.{Run}
use cs.Level.{Level}
use cs.Tree.{TreeAction, ◌>>=◌, return, on_store, calculate_fpr_for_level}
use cs.Tree.Access.{size, total_pairs}

-- `MAX_KEYS_TO_DISPLAY`
abbrev pub max_keys_to_display : ℕ
max_keys_to_display = 10

-- The pairs in each level.
unfoldable pub print_counts : ℕ → List Level → Text
unfolding total_pairs
print_counts i [] = []
print_counts i (l ∷ ls) = joined (
    codes ", LVL"
    ∷ to_string i
    ∷ codes ": "
    ∷ to_string (total_pairs l.runs)
    ∷ print_counts (i + 1) ls
    ∷ [])

-- The number of pairs that are not shown.
abbrev pub print_more : ℕ → Text
print_more n = joined (codes "... (" ∷ to_string n ∷ codes " more)" ∷ [])

abbrev pub print_pair : KeyValuePair → Text
print_pair p = joined (signed_text p.key ∷ codes ":" ∷ signed_text p.value ∷ codes " " ∷ [])

-- The pairs of the buffer, without deletion marks. `count` pairs are shown already.
unfoldable pub print_buffer : ℕ → ℕ → List KeyValuePair → Text
print_buffer total count [] = []
print_buffer total count (p ∷ ps) =
    let skipped = print_buffer total count ps in
    let later = print_buffer total (count + 1) ps in
    if p.value == tombstone
    then skipped
    else if leb max_keys_to_display (count + 1)
    then print_pair p ++ print_more (total - (count + 1))
    else print_pair p ++ later

-- The pairs that a run shows, and how many they are.
unfoldable pub print_sample : ℕ → List KeyValuePair → Text × ℕ
print_sample displayed [] = ([], displayed)
print_sample displayed (p ∷ ps) =
    let skipped = print_sample displayed ps in
    let (later, all) = print_sample (displayed + 1) ps in
    if p.value == tombstone
    then skipped
    else if leb max_keys_to_display (displayed + 1)
    then (print_pair p, displayed + 1)
    else (print_pair p ++ later, all)

abbrev pub print_run : ℕ → Run → Text × ℕ → Text
print_run j r (shown, displayed) = joined (
    codes "Run "
    ∷ to_string j
    ∷ codes " ("
    ∷ to_string (Run.size r)
    ∷ codes " keys): "
    ∷ shown
    ∷ (if ltb displayed (Run.size r) then print_more (Run.size r - displayed) else [])
    ∷ codes "\n"
    ∷ [])

unfoldable pub print_runs : ℕ → List Run → Store.Action Text
unfolding print_sample
print_runs j [] = Store.return []
print_runs j (r ∷ rs) = Store.◌>>=◌ (Run.get_sample_pairs r max_keys_to_display) (λ pairs.
    Store.◌>>=◌ (print_runs (j + 1) rs)
      (λ later. Store.return (print_run j r (print_sample 0 pairs) ++ later)))

unfoldable pub print_levels : ℕ → List Level → Store.Action Text
unfolding print_runs
print_levels i [] = Store.return []
print_levels i (l ∷ ls) =
    if is_empty l.runs
    then print_levels (i + 1) ls
    else Store.◌>>=◌ (print_runs 0 l.runs) (λ here. Store.◌>>=◌ (print_levels (i + 1) ls) (λ deeper.
      Store.return
        (joined (codes "\nLevel " ∷ to_string i ∷ codes " keys:\n" ∷ here ∷ deeper ∷ []))))

module _ (d : Doubles) (show : ℕ → Text) where
  abbrev pub print_filter : ℕ → ℕ → ℕ → Text
  print_filter i fpr avg_keys_per_run =
      let bits = optimal_bits d avg_keys_per_run fpr in
      joined (
        codes "Level "
        ∷ to_string i
        ∷ codes " Bloom filter: FPR="
        ∷ show fpr
        ∷ codes ", Bits per element="
        ∷ to_string (bits / avg_keys_per_run)
        ∷ codes ", Hash functions="
        ∷ to_string (optimal_hash_functions d bits avg_keys_per_run)
        ∷ codes "\n"
        ∷ [])

  -- The bits are divided by the average number of keys in a run.
  unfoldable pub print_filters : ℕ → ℕ → List Level → Result Text
  unfolding total_pairs
  print_filters max_level i [] = ok []
  print_filters max_level i (l ∷ ls) =
      let deeper = print_filters max_level (i + 1) ls in
      if is_empty l.runs
      then deeper
      else if total_pairs l.runs / length l.runs == 0
      then err division_by_zero
      else Result.◌>>=◌ deeper (λ more. ok (
          print_filter i (calculate_fpr_for_level d max_level i)
            (total_pairs l.runs / length l.runs)
          ++ more))

  abbrev pub levels_below : List Level → List Level
  levels_below [] = []
  levels_below (l ∷ ls) = ls

  unfoldable pub print_stats : TreeAction Text
  unfolding print_counts print_filters print_buffer print_levels size
  print_stats t =
      let buffer_pairs = SkipList.get_all_sorted t.buffer in
      let counts = joined (
        codes "Logical Pairs: "
        ∷ to_string (size t)
        ∷ codes "\nRead I/Os: "
        ∷ to_string t.store.read_io_count
        ∷ codes "\nWrite I/Os: "
        ∷ to_string t.store.write_io_count
        ∷ codes "\nLVL0: "
        ∷ to_string t.buffer.num_elements
        ∷ print_counts 1 (levels_below t.levels)
        ∷ codes "\n"
        ∷ []) in
      let buffered = joined (
        codes "\nKey distribution:\n"
        ∷ codes "Buffer (Level 0): "
        ∷ print_buffer (length buffer_pairs) 0 buffer_pairs
        ∷ codes "\n"
        ∷ []) in
      (do
        filters ← λ t. (print_filters t.max_level 1 (levels_below t.levels), t)
        keys ← on_store (print_levels 1 (levels_below t.levels))
        return (joined (counts ∷ filters ∷ buffered ∷ keys ∷ [])))
        t
