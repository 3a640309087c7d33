-- ===== src/Run/Rights.antt =====
-- Writing a run changes no rights to create files.
use cs.Prelude.{ℕ, ◌≡◌, ap, ◌∙◌, List, arith}
use cs.Pair.{KeyValuePair}
use cs.Double.{Doubles}
use cs.Store.{FileName, Store}
use cs.Run.{create, bloom_filename, fence_filename}
use cs.Run.Create.{IsAllowed}

pub create-writable :
    (d : Doubles) (ps : List KeyValuePair) (level run_id fpr : ℕ) (s : Store)
    → (create d ps level run_id fpr s).1.writable ≡ s.writable
unfolding create
create-writable d ps level run_id fpr s = ground arith

pub IsAllowed-rights :
    (s s' : Store) (name : FileName)
    → s'.writable ≡ s.writable
    → IsAllowed s name
    → IsAllowed s' name
IsAllowed-rights s s' name same allowed = record {
  data_file = ap (λ w. w name) same ∙ allowed.data_file;
  bloom_file = ap (λ w. w (bloom_filename name)) same ∙ allowed.bloom_file;
  fence_file = ap (λ w. w (fence_filename name)) same ∙ allowed.fence_file;
}
