-- ===== src/Generators/Written.antt =====
-- The files that the generators write, and what `load_file` reads in them.
use cs.Prelude.{ℕ, ◌≡◌, ◌≤◌, List, some, Bool, true, false, arith, length}
use cs.Result.{ok}
use cs.Pair.{KeyValuePair, Fits, encode}
use cs.Pair.Stream.{decode-encode}
use cs.Double.{Doubles}
use cs.Store.{FileName, Store, same_name, updated}
use cs.Store.Paths.{same_name_refl}
use cs.Compaction.Sorting.{IsSort}
use cs.Tree.{LsmTree}
use cs.Tree.Access.{put_all}
use cs.Tree.Upkeep.{load_file, drawn}
use cs.Generators.{is_used, write_pairs}
use cs.Generators.Copies.{copies, mark}
use cs.Generators.Drawn.{IsPatient, all_batches-Adds}

mark-le : (b : Bool) → mark b ≤ 1
mark-le true = omega arith
mark-le false = omega arith

-- A file that holds the pairs is loaded as exactly these.
load_pairs :
    (d : Doubles) (sort : List KeyValuePair → List KeyValuePair) (t : LsmTree) (draw : ℕ → ℕ)
    (name : FileName) (ps : List KeyValuePair)
    → t.store.disk name ≡ some (encode ps)
    → Fits ps
    → load_file d sort name draw t ≡ put_all d sort (drawn draw 0 ps) t
unfolding load_file
load_pairs d sort t draw name ps there fits = rw (there, decode-encode ps fits)

module _ (draw_key draw_value : ℕ → ℕ) (sort : List KeyValuePair → List KeyValuePair)
    (patience num_pairs batch_size : ℕ) (name : FileName) (s : Store) (d : Doubles) (t : LsmTree)
    (draw : ℕ → ℕ) where
  -- A generator whose output file may be created, whose draws are 64-bit values among which an
  -- unused key always comes up in time, and for every std::sort that meets its contract, ends
  -- with exit code 0; the file has as many pairs as asked for, no key twice, no other file is touched,
  -- and load_file puts exactly the pairs of the file into a tree, one after the other.
  pub load_file-write_pairs :
      IsSort sort
      → IsPatient draw_key draw_value patience num_pairs
      → s.writable name ≡ true
      → (ps : List KeyValuePair) × (s' : Store) × (write_pairs draw_key draw_value sort patience
            num_pairs batch_size name s
          ≡ ok (0, s'))
        × (s'.disk name ≡ some (encode ps))
        × (length ps ≡ num_pairs)
        × ((k : ℕ) → copies k ps ≤ 1)
        × ((n : FileName) → same_name name n ≡ false → s'.disk n ≡ s.disk n)
        × (load_file d sort name draw (record t { store = s' })
            ≡ put_all d sort (drawn draw 0 ps) (record t { store = s' }))
  unfolding write_pairs is_used
  load_file-write_pairs std patient allowed =
      let (b, run, x) =
        all_batches-Adds draw_key draw_value sort std patience num_pairs patient batch_size in
      let s' : Store = record s { disk = updated s.disk name (some (encode b.pairs)) } in
      (
        b.pairs,
        s',
        rw (allowed, run),
        rw (same_name_refl name),
        x.counted,
        λ k. omega (arith, x.fresh k, mark-le (is_used k b.used)),
        λ n other. rw other,
        load_pairs d sort (record t { store = s' }) draw name b.pairs (rw (same_name_refl name))
            x.fits,
      )
