-- ===== src/Tests/Commands.antt =====
-- Examples on the commands of the server.
use cs.Prelude.{◌≡◌, ◌∷◌, ◌++◌, true, arith}
use cs.Result.{Error}
use cs.Store.{codes}
use cs.Compaction.Sorting.{insertion_sort}
use cs.Tree.{◌>>◌, return}
use cs.Tree.Access.{put}
use cs.Text.{Text, signed_text}
use cs.Adapter.{tokenize, answered, handle_put}
use cs.Adapter.Commands.{handle_put-tokenize}
use cs.Tests.{coarse}
use cs.Tests.Trees.{tree}

abbrev what : Error → Text
what e = codes "stoll"

handle_put-tokenize_example :
    handle_put what coarse
      (insertion_sort true)
      1
      (tokenize (b'p' ∷ 32 ∷ (signed_text 5 ++ 32 ∷ signed_text 51)))
      tree
    ≡ answered what (
        (put coarse (insertion_sort true) 5 51 1
            >> return
                (codes "Put successful: " ++ (signed_text 5 ++ (codes " -> " ++ signed_text 51))))
          tree)
handle_put-tokenize_example =
    handle_put-tokenize what tree coarse (insertion_sort true) 1 5 51 (omega arith) (omega arith)
