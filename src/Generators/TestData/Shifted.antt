-- ===== src/Generators/TestData/Shifted.antt =====
-- A file of `generate_test_data` begins with the number of pairs, which `load_file` takes for a key.
use cs.Prelude.{ℕ, ◌≡◌, ◌<◌, refl, List, [], ◌∷◌, some, true, length}
use cs.Int64.{word, put64, join64-put64}
use cs.Pair.{KeyValuePair, Fits, encode, decode}
use cs.Double.{Doubles}
use cs.Store.{FileName, Store, updated}
use cs.Store.Paths.{same_name_refl}
use cs.Compaction.Sorting.{pair}
use cs.Tree.{LsmTree}
use cs.Tree.Access.{put_all}
use cs.Tree.Upkeep.{load_file, drawn}
use cs.Generators.TestData.{write_data}

-- Each key with what stands before it: the number `before`, or the value of the pair before.
unfoldable pub shifted : ℕ → List KeyValuePair → List KeyValuePair
shifted before [] = []
shifted before (p ∷ ps) = pair before p.key ∷ shifted p.value ps

decode-shifted :
    (before : ℕ) (ps : List KeyValuePair)
    → before < word
    → Fits ps
    → decode (put64 before (encode ps)) ≡ shifted before ps
unfolding decode encode shifted
decode-shifted before [] h fits = refl
decode-shifted before (p ∷ ps) h fits =
    rw (join64-put64 before h, join64-put64 p.key fits.0, decode-shifted p.value ps fits.1 fits.2)

module _ (pairs : List KeyValuePair) (output_path : FileName) (s : Store) (d : Doubles)
    (sort : List KeyValuePair → List KeyValuePair) (t : LsmTree) (draw : ℕ → ℕ) where
  -- What generate_test_data wrote, of pairs of 64-bit values and fewer than 2^64 of them, where the
  -- file may be created, is not what load_file loads: it puts the number of the pairs with the first
  -- key as its value, then each value with the key of the next pair as its value, and the last value
  -- is lost.
  pub load_file-write_data :
      Fits pairs
      → length pairs < word
      → s.writable output_path ≡ true
      → (s' : Store) × (write_data pairs output_path s ≡ (0, s'))
        × (load_file d sort output_path draw (record t { store = s' })
            ≡ put_all d sort
                (drawn draw 0 (shifted (length pairs) pairs))
                (record t { store = s' }))
  unfolding write_data load_file
  load_file-write_data fits few allowed = (
    record s { disk = updated s.disk output_path (some (put64 (length pairs) (encode pairs))) },
    rw allowed,
    rw (same_name_refl output_path, decode-shifted (length pairs) pairs few fits),
  )
