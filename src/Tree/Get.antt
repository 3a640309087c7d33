-- ===== src/Tree/Get.antt =====
-- `LSMTree::get` finds the newest value of a key.
use cs.Prelude.{ℕ, ◌≡◌, ◌+◌, refl, sym, ◌∙◌, List, [], ◌∷◌, Option-cases, inl, inr}
use cs.Result.{ok}
use cs.Pair.{KeyValuePair, lookup}
use cs.SkipList
use cs.SkipList.Contents.{IsValid}
use cs.SkipList.Contents as Buffer
use cs.Store.{Store}
use cs.Run.{Run}
use cs.Run.Holds.{Holds, SameFiles, SameFiles-refl, SameFiles-trans, Holds-SameFiles}
use cs.Run.Get.{get-lookup, might_contain_lem}
use cs.Level.{Level}
use cs.Tree.{LsmTree}
use cs.Tree.Access.{get, get_in_run, get_in_runs, get_in_levels}
use cs.Tree.Holds.{
  RunsHold, LevelsHold, TreeHolds, LevelsHold-SameFiles, newest, newest_of_runs, newest_of_levels,
}

get_in_run_lem :
    (s : Store) (r : Run) (ps : List KeyValuePair) (key : ℕ)
    → Holds s r ps
    → (s' : Store) × (get_in_run r key s ≡ (ok (lookup key ps), s')) × SameFiles s s'
unfolding get_in_run
get_in_run_lem s r ps key h = elim (might_contain_lem s r ps key h) [
  | inl e ↦ rw e (get-lookup s r ps key h)
  | inr (e, absent) ↦ (s, rw (e, absent), SameFiles-refl s)
]

get_in_runs_lem :
    (s : Store) (rs : List Run) (pss : List (List KeyValuePair)) (key : ℕ)
    → RunsHold s rs pss
    → (s' : Store) × (get_in_runs rs key s ≡ (ok (newest_of_runs key pss), s')) × SameFiles s s'
unfolding get_in_runs newest_of_runs
get_in_runs_lem s [] [] key h = (s, refl, SameFiles-refl s)
get_in_runs_lem s [] (ps ∷ pss) key h = absurd h
get_in_runs_lem s (r ∷ rs) [] key h = absurd h
get_in_runs_lem s (r ∷ rs) (ps ∷ pss) key h =
    let (s', e, x) = get_in_runs_lem s rs pss key h.1 in
    elim (Option-cases (newest_of_runs key pss)) [
      | inl older ↦
          let (s'', e', x') = get_in_run_lem s' r ps key (Holds-SameFiles x h.0) in
          (s'', rw (e, older, e'), SameFiles-trans x x')
      | inr (v, later) ↦ (s', rw (e, later), x)
    ]

get_in_levels_lem :
    (s : Store) (ls : List Level) (psss : List (List (List KeyValuePair))) (key : ℕ)
    → LevelsHold s ls psss
    → (s' : Store) × (get_in_levels ls key s ≡ (ok (newest_of_levels key psss), s'))
      × SameFiles s s'
unfolding get_in_levels newest_of_levels
get_in_levels_lem s [] [] key h = (s, refl, SameFiles-refl s)
get_in_levels_lem s [] (pss ∷ psss) key h = absurd h
get_in_levels_lem s (l ∷ ls) [] key h = absurd h
get_in_levels_lem s (l ∷ ls) (pss ∷ psss) key h =
    let (s', e, x) = get_in_runs_lem s l.runs pss key h.0 in
    elim (Option-cases (newest_of_runs key pss)) [
      | inl deeper ↦
          let (s'', e', x') =
            get_in_levels_lem s' ls psss key (LevelsHold-SameFiles s s' ls psss x h.1) in
          (s'', rw (e, deeper, e'), SameFiles-trans x x')
      | inr (v, here) ↦ (s', rw (e, here), x)
    ]

-- On a tree that holds `psss`, `get` returns the newest value of its key (a deletion mark included) and
-- counts one read; the tree holds what it held, with the same buffer and levels.
pub get-newest :
    (t : LsmTree) (psss : List (List (List KeyValuePair))) (key : ℕ)
    → TreeHolds t psss
    → (t' : LsmTree) × (get key t ≡ (ok (newest key (SkipList.get_all_sorted t.buffer) psss), t'))
      × TreeHolds t' psss
      × (t'.buffer ≡ t.buffer)
      × (t'.levels ≡ t.levels)
      × (t'.read_count ≡ t.read_count + 1)
unfolding get newest
get-newest t psss key h = elim (Option-cases (SkipList.get t.buffer key)) [
  | inl below ↦
      let (s, e, x) = get_in_levels_lem t.store t.levels psss key h.on_disk in
      let absent = sym (Buffer.get-lookup-get_all_sorted t.buffer key h.buffered) ∙ below in
      (
        record t { read_count = t.read_count + 1; store = s },
        rw (below, absent, e),
        record {
          buffered = h.buffered;
          on_disk = LevelsHold-SameFiles t.store s t.levels psss x h.on_disk;
        },
        refl,
        refl,
        refl,
      )
  | inr (v, hit) ↦
      let present = sym (Buffer.get-lookup-get_all_sorted t.buffer key h.buffered) ∙ hit in
      (
        record t { read_count = t.read_count + 1 },
        rw (hit, present),
        record { buffered = h.buffered; on_disk = h.on_disk },
        refl,
        refl,
        refl,
      )
]
