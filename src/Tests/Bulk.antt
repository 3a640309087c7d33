-- ===== src/Tests/Bulk.antt =====
-- Examples on bulk loading, on names at startup and on a session.
use cs.Prelude.{◌*◌, ◌≡◌, ◌<◌, refl, List, [], ◌∷◌, true, arith, length}
use cs.Result.{ok}
use cs.Pair
use cs.Pair.{KeyValuePair, decode}
use cs.SkipList.{get_all_sorted}
use cs.Store.{FileName}
use cs.Compaction.Sorting.{insertion_sort}
use cs.Run
use cs.Bloom
use cs.Run.{data_filename, pair_size}
use cs.Tree
use cs.Tree.{LsmTree}
use cs.Tree.Holds.{newest}
use cs.Tree.Refines
use cs.Tree.Refines.{
  Request, get_request, put_request, remove_request, Refines, answers, after, max_pair_size,
  run-answers,
}
use cs.Tree.Bulk.{bulk_load_file, distribute_all}
use cs.Run.Ended.{ended}
use cs.Tree.Bulk.Termination.{ended-bulk_load_file}
use cs.Tree.Startup.Scan.{File, run_file, other_file}
use cs.Store.{FileName, codes}
use cs.Result.{ok}
use cs.Tests.{two, coarse}
use cs.Tests.Trees.{tree, held, tree-TreeHolds}

-- Two runs of level 2 and one of level 1 between them, and the filter of a run.
abbrev directory : List File
directory = run_file 2 7 ∷ run_file 1 0 ∷ other_file (codes "run_1_0.bloom") ∷ run_file 2 3 ∷ []

abbrev session : List Request
session =
    put_request 9 90 0 ∷ get_request 9 ∷ remove_request 9 0 ∷ get_request 9 ∷ get_request 5 ∷ []

tree-Refines : Refines tree held (λ k. newest k (get_all_sorted tree.buffer) held) (length session)
tree-Refines = record { holds = tree-TreeHolds; reads = λ k. refl; room = omega arith }

run-answers_example :
    (t : LsmTree) × (Refines.run coarse (insertion_sort true) session tree
      ≡ (ok (answers session (λ k. newest k (get_all_sorted tree.buffer) held)), t))
    × Refines t held (after session (λ k. newest k (get_all_sorted tree.buffer) held)) 0
run-answers_example =
    run-answers coarse (insertion_sort true) held session tree
      (λ k. newest k (get_all_sorted tree.buffer) held) tree-Refines

abbrev file : FileName
file = data_filename 1 0

small_file : length (decode (Pair.encode two)) * pair_size < 1024 * 1024
unfolding decode Pair.encode
small_file = omega arith

abbrev loaded : LsmTree
unfolding distribute_all
loaded = (distribute_all coarse (insertion_sort true) 1 two tree).1

ended-bulk_load_file_example :
    ended (bulk_load_file coarse (insertion_sort true) file tree).0 ≡ true
ended-bulk_load_file_example = ended-bulk_load_file coarse (insertion_sort true) file tree
