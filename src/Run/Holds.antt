-- ===== src/Run/Holds.antt =====
-- What it means that a run on disk holds a list of pairs.
use cs.Prelude.{
  ℕ, ◌<◌, ◌≡◌, refl, ap, ◌∙◌, List, [], ◌∷◌, Option, none, some, true, false, arith, length,
}
use cs.Result.{ok}
use cs.Pair.{KeyValuePair, Fits, Ascends, encode, lookup}
use cs.Bloom
use cs.Bloom.{BloomFilter}
use cs.Fence.{FencePointers}
use cs.Fence.Index.{IsIndexOf}
use cs.Store.{Store}
use cs.Run.{Run}

-- The filter has bits and finds every key.
abbrev pub Finds : BloomFilter → List KeyValuePair → Type 0
Finds b [] = Unit
Finds b (p ∷ ps) = (Bloom.might_contain b p.key ≡ ok true) × Finds b ps

abbrev pub IsFilterFor : Option BloomFilter → List KeyValuePair → Type 0
IsFilterFor none ps = Unit
IsFilterFor (some b) ps = (0 < length b.bits) × Finds b ps

abbrev pub IsFenceFor : Option FencePointers → List KeyValuePair → Type 0
IsFenceFor none ps = Unit
IsFenceFor (some f) ps = IsIndexOf ps f.fence_pointers

-- The file holds the pairs in ascending order, and the filter and the fence pointers, where there are
-- any, were made for them.
pub record Holds (s : Store) (r : Run) (ps : List KeyValuePair) : Type 0 where
  pub stored : s.disk r.filename ≡ some (encode ps)
  pub fits : Fits ps
  pub ascending : Ascends 0 ps
  pub counted : r.num_pairs ≡ length ps
  pub filtered : IsFilterFor r.bloom_filter ps
  pub indexed : IsFenceFor r.fence_pointers ps

-- What the filter denies is not there.
pub lookup_denied :
    (b : BloomFilter) (key : ℕ) (ps : List KeyValuePair)
    → Finds b ps
    → Bloom.might_contain b key ≡ ok false
    → lookup key ps ≡ none
unfolding lookup
lookup_denied b key [] h e = refl
lookup_denied b key (p ∷ ps) h e = ground (arith, lookup_denied b key ps h.1 e)

-- The same files, whatever the counters say.
pub record SameFiles (s s' : Store) : Type 0 where
  pub same_disk : s'.disk ≡ s.disk
  pub same_rights : s'.writable ≡ s.writable

pub SameFiles-refl : (s : Store) → SameFiles s s
SameFiles-refl s = record { same_disk = refl; same_rights = refl }

pub SameFiles-trans : {a b c : Store} → SameFiles a b → SameFiles b c → SameFiles a c
SameFiles-trans x y = record {
  same_disk = y.same_disk ∙ x.same_disk;
  same_rights = y.same_rights ∙ x.same_rights;
}

pub Holds-SameFiles :
    {s s' : Store} {r : Run} {ps : List KeyValuePair}
    → SameFiles s s'
    → Holds s r ps
    → Holds s' r ps
Holds-SameFiles {s} {s'} {r} {ps} x h = record {
  stored = ap (λ d. d r.filename) x.same_disk ∙ h.stored;
  fits = h.fits;
  ascending = h.ascending;
  counted = h.counted;
  filtered = h.filtered;
  indexed = h.indexed;
}
