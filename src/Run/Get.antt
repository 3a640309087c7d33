-- ===== src/Run/Get.antt =====
-- `Run::get` agrees with a lookup in the pairs of the run.
use cs.Prelude.{
  ℕ, ◌+◌, ◌≡◌, refl, List, [], ◌∷◌, Option, none, some, true, false, Bool, inl, inr, ◌⊎◌, arith,
  drop,
}
use cs.Int64.{rank}
use cs.Result.{ok}
use cs.Pair.{KeyValuePair, Fits, Ascends, encode, decode, lookup}
use cs.Pair.Order.{lookup_below, lookup-drop, Ascends-drop}
use cs.Pair.Stream.{decode-encode, drop-encode, Fits-drop}
use cs.Bloom
use cs.Bloom.{BloomFilter}
use cs.Bloom.Membership.{might_contain_total}
use cs.Fence.{FencePointers}
use cs.Fence.Offsets.{IsStart, find_offset-IsStart}
use cs.Store.{Store}
use cs.Run.{Run, might_contain, query, start_of, scan_for, read_from, get}
use cs.Run.Holds.{Holds, SameFiles, SameFiles-refl, IsFilterFor, IsFenceFor, lookup_denied}

scan_for-lookup :
    (key lo : ℕ) (ps : List KeyValuePair) → Ascends lo ps → scan_for key ps ≡ lookup key ps
unfolding scan_for lookup
scan_for-lookup key lo [] a = refl
scan_for-lookup key lo (p ∷ ps) a =
    ground (arith, scan_for-lookup key (rank p.key + 1) ps, lookup_below key (rank p.key + 1) ps)

-- Where the pairs are read from a start for the key.
scan_for-start :
    (ps : List KeyValuePair) (key o : ℕ)
    → Fits ps
    → Ascends 0 ps
    → IsStart ps key o
    → scan_for key (decode (drop o (encode ps))) ≡ lookup key ps
scan_for-start ps key o fits a x =
    let rest = drop x.index ps in
    rw
      (
        drop-encode x.index o ps x.place,
        decode-encode rest (Fits-drop x.index ps fits),
        scan_for-lookup key 0 rest (Ascends-drop 0 x.index ps a),
      )
      (lookup-drop key x.index ps x.before)

start_of-IsStart :
    (f : Option FencePointers) (ps : List KeyValuePair) (key : ℕ)
    → IsFenceFor f ps
    → Ascends 0 ps
    → (o : ℕ) × (start_of f key ≡ ok o) × IsStart ps key o
start_of-IsStart none ps key x a = (0, refl, record { index = 0; place = refl; before = tt })
start_of-IsStart (some f) ps key x a = find_offset-IsStart ps key f x a

abbrev pub read_once : Store → Store
read_once s = record s { read_io_count = s.read_io_count + 1 }

read_from-lookup :
    (s : Store) (r : Run) (ps : List KeyValuePair) (key : ℕ)
    → Holds s r ps
    → read_from r key s ≡ (ok (lookup key ps), read_once s)
unfolding scan_for
read_from-lookup s r ps key h =
    let (o, e, x) = start_of-IsStart r.fence_pointers ps key h.indexed h.ascending in
    rw (e, h.stored, scan_for-start ps key o h.fits h.ascending x)

-- The filter lets a key pass, or the run does not have it.
query_lem :
    (b : Option BloomFilter) (ps : List KeyValuePair) (key : ℕ)
    → IsFilterFor b ps
    → (query b key ≡ ok true) ⊎ ((query b key ≡ ok false) × (lookup key ps ≡ none))
query_lem none ps key h = inl refl
query_lem (some b) ps key h = let (q, e) = might_contain_total b key h.0 in go q e
  where
    go :
        (q : Bool)
        → Bloom.might_contain b key ≡ ok q
        → (Bloom.might_contain b key ≡ ok true)
          ⊎ ((Bloom.might_contain b key ≡ ok false) × (lookup key ps ≡ none))
    go true e = inl e
    go false e = inr (e, lookup_denied b key ps h.1 e)

-- On a run that holds `ps`, with or without a Bloom filter and fence pointers, `get` returns what a
-- lookup in `ps` returns, and changes no file.
pub get-lookup :
    (s : Store) (r : Run) (ps : List KeyValuePair) (key : ℕ)
    → Holds s r ps
    → (s' : Store) × (get r key s ≡ (ok (lookup key ps), s')) × SameFiles s s'
unfolding get
get-lookup s r ps key h = elim (query_lem r.bloom_filter ps key h.filtered) [
  | inl e ↦ (
    read_once s,
    rw e (read_from-lookup s r ps key h),
    record { same_disk = refl; same_rights = refl },
  )
  | inr (e, absent) ↦ (s, rw (e, absent), SameFiles-refl s)
]

-- What `might_contain` denies is not in the run.
pub might_contain_lem :
    (s : Store) (r : Run) (ps : List KeyValuePair) (key : ℕ)
    → Holds s r ps
    → (might_contain r key ≡ ok true) ⊎ ((might_contain r key ≡ ok false) × (lookup key ps ≡ none))
unfolding might_contain
might_contain_lem s r ps key h = query_lem r.bloom_filter ps key h.filtered
