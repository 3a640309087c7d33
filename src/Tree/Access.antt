-- ===== src/Tree/Access.antt =====
-- The operations of `LSMTree` that the server calls, in src/lsm_tree.cpp.
use cs.Prelude.{
  ℕ, ◌+◌, List, [], ◌∷◌, ◌++◌, Bool, true, false, Option, none, some, if◌then◌else◌, is_empty,
}
use cs.Int64.{tombstone, le64}
use cs.Result.{Result, ok}
use cs.Pair.{KeyValuePair}
use cs.Double.{Doubles}
use cs.SkipList
use cs.Compaction.{unique}
use cs.Store
use cs.Store.{open_file, FileName}
use cs.Run
use cs.Run.{Run}
use cs.Level.{Level}
use cs.Tree.{LsmTree, TreeAction, ◌>>=◌, ◌>>◌, return, modify, on_store}
use cs.Tree.Compact.{flush_buffer}

-- `(*it)->has_bloom_filter() && !(*it)->might_contain(key)`, then `(*it)->get(key)`.
unfoldable pub get_in_run : Run → ℕ → Store.Action (Option ℕ)
get_in_run r key =
    Store.◌>>=◌ (Store.lift (Run.might_contain r key))
      (λ possible. if possible then Run.get r key else Store.return none)

abbrev pub or_else : Option ℕ → Store.Action (Option ℕ) → Store.Action (Option ℕ)
or_else (some v) m = Store.return (some v)
or_else none m = m

-- The runs of a level from the last one back.
unfoldable pub get_in_runs : List Run → ℕ → Store.Action (Option ℕ)
unfolding get_in_run
get_in_runs [] key = Store.return none
get_in_runs (r ∷ rs) key =
    Store.◌>>=◌ (get_in_runs rs key) (λ later. or_else later (get_in_run r key))

unfoldable pub get_in_levels : List Level → ℕ → Store.Action (Option ℕ)
unfolding get_in_runs
get_in_levels [] key = Store.return none
get_in_levels (l ∷ ls) key =
    Store.◌>>=◌ (get_in_runs l.runs key) (λ here. or_else here (get_in_levels ls key))

abbrev count_read : TreeAction (Unit {0})
count_read = modify (λ t. record t { read_count = t.read_count + 1 })

abbrev pub get_below : Option ℕ → ℕ → TreeAction (Option ℕ)
get_below (some v) key t = (ok (some v), t)
get_below none key t = on_store (get_in_levels t.levels key) t

unfoldable pub get : ℕ → TreeAction (Option ℕ)
unfolding get_in_levels
get key t = (do result ← get_below (SkipList.get t.buffer key) key; count_read; return result) t

-- The results of the runs, the newest run of a level first.
unfoldable pub range_in_runs : List Run → ℕ → ℕ → Store.Action (List KeyValuePair)
range_in_runs [] start_key end_key = Store.return []
range_in_runs (r ∷ rs) start_key end_key =
    Store.◌>>=◌ (range_in_runs rs start_key end_key)
      (λ later. Store.◌>>=◌ (Run.range r start_key end_key) (λ mine. Store.return (later ++ mine)))

unfoldable pub range_in_levels : List Level → ℕ → ℕ → Store.Action (List KeyValuePair)
unfolding range_in_runs
range_in_levels [] start_key end_key = Store.return []
range_in_levels (l ∷ ls) start_key end_key =
    Store.◌>>=◌ (range_in_runs l.runs start_key end_key) (λ here.
      Store.◌>>=◌ (range_in_levels ls start_key end_key) (λ deeper. Store.return (here ++ deeper)))

unfoldable pub total_pairs : List Run → ℕ
total_pairs [] = 0
total_pairs (r ∷ rs) = Run.size r + total_pairs rs

unfoldable pub level_pairs : List Level → ℕ
unfolding total_pairs
level_pairs [] = 0
level_pairs (l ∷ ls) = total_pairs l.runs + level_pairs ls

-- `size`
unfoldable pub size : LsmTree → ℕ
unfolding level_pairs
size t = t.buffer.num_elements + level_pairs t.levels

-- The end of `std::lock_guard`, after an exception too.
abbrev pub released {ℓ} : {A : Type ℓ} → Result A × LsmTree → Result A × LsmTree
released (r, t) = (r, record t { locked = false })

module _ (d : Doubles) (sort : List KeyValuePair → List KeyValuePair) where
  unfoldable pub range : ℕ → ℕ → TreeAction (List KeyValuePair)
  unfolding range_in_levels
  range start_key end_key t =
      if le64 end_key start_key
      then (ok [], t)
      else (do
        below ← on_store (range_in_levels t.levels start_key end_key)
        let results = SkipList.range t.buffer start_key end_key ++ below
        if is_empty results then return [] else return (unique (sort results)))
          t

  -- `draw` is what the random generator gives for the height of a new node.
  unfoldable pub put : ℕ → ℕ → ℕ → TreeAction (Unit {0})
  unfolding flush_buffer
  put key value draw t = released (
      (do
        modify (λ t. record t { buffer = SkipList.insert t.buffer key value draw })
        λ t.
            if SkipList.is_full t.buffer_size_bytes t.buffer
            then flush_buffer d sort t
            else (ok tt, t)
        modify (λ t. record t { write_count = t.write_count + 1 }))
        (record t { locked = true }))

  unfoldable pub remove : ℕ → ℕ → TreeAction Bool
  unfolding put
  remove key draw = do put key tombstone draw; return true

  unfoldable pub put_all : List (KeyValuePair × ℕ) → TreeAction (Unit {0})
  unfolding put
  put_all [] = return tt
  put_all ((p, draw) ∷ ps) = do put p.key p.value draw; put_all ps
