-- ===== src/Tree/Put.antt =====
-- `put` and `remove` while the buffer has room.
use cs.Prelude.{ℕ, ◌+◌, ◌≡◌, refl, ap, ◌∙◌, List, some, true, false, ◌==◌, arith, if◌then◌else◌}
use cs.Int64.{tombstone}
use cs.Result.{ok}
use cs.Pair.{KeyValuePair}
use cs.Double.{Doubles}
use cs.SkipList
use cs.SkipList.{is_full}
use cs.SkipList.Insert.{insert-IsInsertion}
use cs.Tree.{LsmTree}
use cs.Tree.Access.{get, put, remove}
use cs.Tree.Get.{get-newest}
use cs.Tree.Holds.{TreeHolds, newest}

module _ (d : Doubles) (sort : List KeyValuePair → List KeyValuePair) (t : LsmTree)
    (psss : List (List (List KeyValuePair))) (key draw : ℕ) where
  -- A `put` after which the buffer is not full.
  pub put_room :
      (value : ℕ)
      → is_full t.buffer_size_bytes (SkipList.insert t.buffer key value draw) ≡ false
      → put d sort key value draw t ≡ (
        ok tt,
        record t {
          buffer = SkipList.insert t.buffer key value draw;
          write_count = t.write_count + 1;
          locked = false;
        },
      )
  unfolding put
  put_room value room = rw room

  -- On a tree that holds `psss`, where the buffer is not full after it, `put` succeeds, leaves the
  -- levels alone, gives its key the new value and every other key the one that it had, and counts one
  -- write.
  pub put_lem :
      (value : ℕ)
      → TreeHolds t psss
      → is_full t.buffer_size_bytes (SkipList.insert t.buffer key value draw) ≡ false
      → (t' : LsmTree) × (put d sort key value draw t ≡ (ok tt, t'))
        × TreeHolds t' psss
        × ((k : ℕ)
            → newest k (SkipList.get_all_sorted t'.buffer) psss
              ≡ (if key == k then some value else newest k (SkipList.get_all_sorted t.buffer) psss))
        × (t'.levels ≡ t.levels)
        × (t'.write_count ≡ t.write_count + 1)
  unfolding newest
  put_lem value h room =
      let x = insert-IsInsertion t.buffer key value draw h.buffered in
      (
        record t {
          buffer = SkipList.insert t.buffer key value draw;
          write_count = t.write_count + 1;
          locked = false;
        },
        put_room value room,
        record { buffered = x.valid; on_disk = h.on_disk },
        (λ k. ground (arith, x.reads k)),
        refl,
        refl,
      )

  -- On a tree that holds `psss`, where the buffer is not full after it, `remove` returns true and
  -- stores the deletion mark: afterwards `get` of the key finds INT64_MIN as its value, whether the
  -- key was there or not.
  pub get-remove :
      TreeHolds t psss
      → is_full t.buffer_size_bytes (SkipList.insert t.buffer key tombstone draw) ≡ false
      → (t' t'' : LsmTree) × (remove d sort key draw t ≡ (ok true, t'))
        × (get key t' ≡ (ok (some tombstone), t''))
        × (t'.levels ≡ t.levels)
  unfolding remove
  get-remove h room =
      let (t', e, h', f, same, counted) = put_lem tombstone h room in
      let (t'', e', h'', b, l, c) = get-newest t' psss key h' in
      let hit : (key == key) ≡ true = ground arith in
      (t', t'', rw e, e' ∙ ap (λ o. (ok o, t'')) (f key ∙ ground arith), same)
