-- ===== src/Tree/Refines.antt =====
-- The tree as a map from keys to values: a session of puts, removals and gets that fits in the buffer.
use cs.Prelude.{
  ℕ, suc, ◌+◌, ◌*◌, ◌≡◌, ◌≤◌, ◌<◌, refl, sym, ap, ◌∙◌, List, [], ◌∷◌, Option, none, some, false,
  ◌==◌, arith, if◌then◌else◌, length,
}
use cs.Int64.{tombstone}
use cs.Result.{Result, ok, err}
use cs.Pair.{KeyValuePair}
use cs.Double.{Doubles}
use cs.SkipList
use cs.SkipList.{SkipList, SkipListNode, is_full, insert, insert_at, random_height, get_all_sorted}
use cs.SkipList.Insert.{insert-IsInsertion}
use cs.Store.{Store}
use cs.Tree.{LsmTree, TreeAction, ◌>>=◌, ◌>>◌, return, continue, on_store}
use cs.Tree.Access.{get, get_below, get_in_levels, put, remove}
use cs.Tree.Put.{put_room}
use cs.Tree.Get.{get-newest}
use cs.Tree.Holds.{TreeHolds, newest}

-- What a client asks of the tree, with the draws for the heights of new nodes.
pub data Request : Type 0 where
  get_request : ℕ → Request
  put_request : ℕ → ℕ → ℕ → Request
  remove_request : ℕ → ℕ → Request

-- The map, where a deleted key has the deletion mark as its value.
abbrev pub Map : Type 0
Map = ℕ → Option ℕ

abbrev pub updated : ℕ → ℕ → Map → Map
updated key value m = λ k. if key == k then some value else m k

-- The answers to the gets of a session, on the map.
unfoldable pub answers : List Request → Map → List (Option ℕ)
answers [] m = []
answers (get_request key ∷ rs) m = m key ∷ answers rs m
answers (put_request key value draw ∷ rs) m = answers rs (updated key value m)
answers (remove_request key draw ∷ rs) m = answers rs (updated key tombstone m)

-- The map after a session.
unfoldable pub after : List Request → Map → Map
after [] m = m
after (get_request key ∷ rs) m = after rs m
after (put_request key value draw ∷ rs) m = after rs (updated key value m)
after (remove_request key draw ∷ rs) m = after rs (updated key tombstone m)

-- The most that one insertion adds to the size of the buffer: a node of 32 levels.
abbrev pub max_pair_size : ℕ
max_pair_size = 296

insert_at-current_size :
    (t : SkipList) (key value height : ℕ) (front ns : List SkipListNode)
    → height ≤ 32
    → (insert_at t key value height front ns).current_size ≤ t.current_size + max_pair_size
unfolding insert_at
insert_at-current_size t key value height front [] h = omega arith
insert_at-current_size t key value height front (n ∷ ns) h = ground arith

insert-current_size :
    (t : SkipList) (key value draw : ℕ)
    → (insert t key value draw).current_size ≤ t.current_size + max_pair_size
unfolding insert
insert-current_size t key value draw =
    insert_at-current_size t key value (random_height draw) _ _ (omega arith)

module _ (d : Doubles) (sort : List KeyValuePair → List KeyValuePair) where
  -- The answers to the gets of a session.
  unfoldable pub run : List Request → TreeAction (List (Option ℕ))
  run [] = return []
  run (get_request key ∷ rs) = do result ← get key; results ← run rs; return (result ∷ results)
  run (put_request key value draw ∷ rs) = do put d sort key value draw; run rs
  run (remove_request key draw ∷ rs) = do done ← remove d sort key draw; run rs

-- A `get` leaves the settings alone.
get_below-settings :
    (o : Option ℕ) (key : ℕ) (t : LsmTree) (rest : Option ℕ → TreeAction (Option ℕ))
    → ((p : Option ℕ) (u : LsmTree) → (rest p u).1.buffer_size_bytes ≡ u.buffer_size_bytes)
    → (continue (get_below o key t) rest).1.buffer_size_bytes ≡ t.buffer_size_bytes
get_below-settings (some v) key t rest h = h (some v) t
get_below-settings none key t rest h = go (get_in_levels t.levels key t.store)
  where
    go :
        (x : Result (Option ℕ) × Store)
        → (continue (on_store (λ _. x) t) rest).1.buffer_size_bytes ≡ t.buffer_size_bytes
    go (ok p, s) = h p (record t { store = s })
    go (err e, s) = refl

get-settings : (key : ℕ) (t : LsmTree) → (get key t).1.buffer_size_bytes ≡ t.buffer_size_bytes
unfolding get
get-settings key t = get_below-settings (SkipList.get t.buffer key) key t _ (λ p u. refl)

-- The tree stands for the map, and its buffer has room for so many more pairs.
pub record Refines (t : LsmTree) (psss : List (List (List KeyValuePair))) (m : Map) (n : ℕ)
    : Type 0 where
  pub holds : TreeHolds t psss
  pub reads : (k : ℕ) → newest k (get_all_sorted t.buffer) psss ≡ m k
  pub room : t.buffer.current_size + max_pair_size * n < t.buffer_size_bytes

module _ (d : Doubles) (sort : List KeyValuePair → List KeyValuePair)
    (psss : List (List (List KeyValuePair))) where
  put-Refines :
      (key value draw n : ℕ) (t : LsmTree) (m : Map)
      → Refines t psss m (suc n)
      → (t' : LsmTree) × (put d sort key value draw t ≡ (ok tt, t'))
        × Refines t' psss (updated key value m) n
  unfolding is_full newest
  put-Refines key value draw n t m h =
      let grown = insert-current_size t.buffer key value draw in
      let x = insert-IsInsertion t.buffer key value draw h.holds.buffered in
      let size = h.room in
      (
        record t {
          buffer = insert t.buffer key value draw;
          write_count = t.write_count + 1;
          locked = false;
        },
        put_room d sort t psss key draw value (ground (arith, grown, size)),
        record {
          holds = record { buffered = x.valid; on_disk = h.holds.on_disk };
          reads = λ k. ground (arith, x.reads k, h.reads k);
          room = omega (arith, grown, size);
        },
      )

  get-Refines :
      (key n : ℕ) (t : LsmTree) (m : Map)
      → Refines t psss m (suc n)
      → (t' : LsmTree) × (get key t ≡ (ok (m key), t')) × Refines t' psss m n
  get-Refines key n t m h =
      let (t', e, held, b, l, c) = get-newest t psss key h.holds in
      let same : t'.buffer_size_bytes ≡ t.buffer_size_bytes =
        sym (ap (λ (x : Result (Option ℕ) × LsmTree). x.1.buffer_size_bytes) e)
        ∙ get-settings key t in
      (
        t',
        e ∙ ap (λ o. (ok o, t')) (h.reads key),
        record {
          holds = held;
          reads = λ k. ap (λ s. newest k (get_all_sorted s) psss) b ∙ h.reads k;
          room = omega (arith, h.room, same, ap (λ (s : SkipList). s.current_size) b);
        },
      )

  -- A session of gets, puts and removals on a tree that stands for a map, where the buffer has room for
  -- every pair it may be given, ends, is answered as on the map, and leaves a tree that stands for the map
  -- after the session.
  pub run-answers :
      (rs : List Request) (t : LsmTree) (m : Map)
      → Refines t psss m (length rs)
      → (t' : LsmTree) × (run d sort rs t ≡ (ok (answers rs m), t'))
        × Refines t' psss (after rs m) 0
  unfolding run answers after remove
  run-answers [] t m h = (t, refl, h)
  run-answers (get_request key ∷ rs) t m h =
      let (t', e, h') = get-Refines key (length rs) t m h in
      let (t'', e', h'') = run-answers rs t' m h' in (t'', rw (e, e') refl, h'')
  run-answers (put_request key value draw ∷ rs) t m h =
      let (t', e, h') = put-Refines key value draw (length rs) t m h in
      let (t'', e', h'') = run-answers rs t' (updated key value m) h' in (t'', rw (e, e') refl, h'')
  run-answers (remove_request key draw ∷ rs) t m h =
      let (t', e, h') = put-Refines key tombstone draw (length rs) t m h in
      let (t'', e', h'') = run-answers rs t' (updated key tombstone m) h' in
      (t'', rw (e, e') refl, h'')
