-- ===== src/Tests/Lifecycle.antt =====
-- An example on the life of a server: a start that finds its port taken, one that succeeds, and two clients,
-- one of which leaves.
use cs.Prelude.{refl, List, [], ◌∷◌, true, false, some}
use cs.Compaction.Sorting.{insertion_sort}
use cs.Server.Lifecycle.{
  Kernel, ServerState, Event, starts, comes, leaves, create, opening, closing, erase, client_comes,
  client_leaves, get_instance, start, run,
}
use cs.Server.Owned.{Used}
use cs.Server.Sockets.{run-Owned}
use cs.Tests.{coarse}
use cs.Tests.Trees.{tree}
use cs.Tests.Server.{what}

abbrev port_taken : Kernel
port_taken = record { made = some 3; options_set = true; bound = false; listening = true }

abbrev willing : Kernel
willing = record { made = some 3; options_set = true; bound = true; listening = true }

abbrev visits : List Event
visits = starts port_taken ∷ starts willing ∷ comes 4 ∷ comes 5 ∷ leaves 4 ∷ []

abbrev after_visits : ServerState
after_visits = record {
  server_socket = some 3;
  running = true;
  joinable = true;
  clients = 5 ∷ [];
  open_sockets = closing 4 (opening 5 (opening 4 (opening 3 (closing 3 (opening 3 (λ s. false))))));
  instance_tree = some tree;
}

run-Owned_example : Used after_visits 5
unfolding run start get_instance client_comes client_leaves erase create
run-Owned_example = run-Owned what coarse (insertion_sort true) tree visits after_visits refl 5 refl
