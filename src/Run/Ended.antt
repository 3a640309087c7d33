-- ===== src/Run/Ended.antt =====
-- The calls on files end with a value or with an error of the program: none of them runs into the
-- bound that the model puts on a loop.
use cs.Prelude.{
  ℕ, zero, suc, ◌+◌, ◌≡◌, refl, sym, ap, ◌∙◌, List, [], ◌∷◌, Bool, true, false, Bool-cases, inl,
  inr, length, ◌==◌, arith, set,
}
use cs.Result.{Result, ok, err, Error, no_fuel, or_fail, Result-cases}
use cs.Result
use cs.Pair.{KeyValuePair}
use cs.Double.{Doubles}
use cs.Bloom
use cs.Bloom.{BloomFilter, hash, insert_loop, insert}
use cs.Store.{Store, Action, FileName, write_file, continue, open_file}
use cs.Run
use cs.Run.{
  Run, insert_keys, write_to_disk, create_metadata, create, get_all_pairs, rebuild_bloom_filter,
  bloom_filename, fence_filename,
}

-- An error that the code itself can end in.
abbrev pub is_real : Error → Bool
is_real no_fuel = false
is_real _ = true

abbrev pub ended {ℓ} : {A : Type ℓ} → Result A → Bool
ended (ok a) = true
ended (err e) = is_real e

ended->>= {ℓ κ} :
    {A : Type ℓ} {B : Type κ} (r : Result A) (f : A → Result B)
    → ended r ≡ true
    → ((a : A) → ended (f a) ≡ true)
    → ended (Result.◌>>=◌ r f) ≡ true
ended->>= (ok a) f h g = g a
ended->>= (err e) f h g = h

pub ended-continue {ℓ κ} :
    {A : Type ℓ} {B : Type κ} (x : Result A × Store) (f : A → Action B)
    → ended x.0 ≡ true
    → ((a : A) (s : Store) → ended (f a s).0 ≡ true)
    → ended (continue x f).0 ≡ true
ended-continue (ok a, s) f h g = g a s
ended-continue (err e, s) f h g = h

ended-insert_loop : (n i key : ℕ) (bits : List Bool) → ended (insert_loop n i key bits) ≡ true
unfolding insert_loop hash
ended-insert_loop zero i key bits = refl
ended-insert_loop (suc n) i key bits = elim (Bool-cases (length bits == 0)) [
  | inl e ↦ rw e
  | inr e ↦ rw e (ended-insert_loop n (i + 1) key (set bits _ true))
]

ended-insert : (b : BloomFilter) (key : ℕ) → ended (insert b key) ≡ true
unfolding insert
ended-insert b key =
    ended->>= _ _ (ended-insert_loop b.num_hash_functions 0 key b.bits) (λ bits. refl)

ended-insert_keys : (b : BloomFilter) (ps : List KeyValuePair) → ended (insert_keys b ps) ≡ true
unfolding insert_keys
ended-insert_keys b [] = refl
ended-insert_keys b (p ∷ ps) = elim (Result-cases (insert b p.key)) [
  | inl (b', e) ↦ rw (e, insert_keys) (ended-insert_keys b' ps)
  | inr (fault, e) ↦ rw (e, insert_keys) (sym (ap ended e) ∙ ended-insert b p.key)
]

ended-write_file :
    (name : FileName) (content : List ℕ) (s : Store) → ended (write_file name content s).0 ≡ true
ended-write_file name content s = ground arith

ended-open_file : (name : FileName) (s : Store) → ended (open_file name s).0 ≡ true
ended-open_file name s = ground arith

ended-write_to_disk :
    (name : FileName) (ps : List KeyValuePair) (s : Store)
    → ended (write_to_disk name ps s).0 ≡ true
unfolding write_to_disk
ended-write_to_disk name ps s = ground arith

pub ended-get_all_pairs : (r : Run) (s : Store) → ended (get_all_pairs r s).0 ≡ true
unfolding get_all_pairs
ended-get_all_pairs r s =
    ended-continue (open_file r.filename s) _ (ended-open_file r.filename s) (λ content s₁. refl)

module _ (d : Doubles) where
  ended-create_metadata :
      (name : FileName) (ps : List KeyValuePair) (fpr : ℕ) (s : Store)
      → ended (create_metadata d name ps fpr s).0 ≡ true
  unfolding create_metadata
  ended-create_metadata name ps fpr s =
      ended-continue (insert_keys (Bloom.create d fpr (length ps)) ps, s) _
        (ended-insert_keys (Bloom.create d fpr (length ps)) ps)
        (λ filter s₁.
          ended-continue (write_file (bloom_filename name) (Bloom.save filter) s₁) _
            (ended-write_file (bloom_filename name) _ s₁)
            (λ u s₂.
              ended-continue (write_file (fence_filename name) _ s₂) _
                (ended-write_file (fence_filename name) _ s₂) (λ v s₃. refl)))

  pub ended-create :
      (ps : List KeyValuePair) (level run_id fpr : ℕ) (s : Store)
      → ended (create d ps level run_id fpr s).0 ≡ true
  unfolding create
  ended-create ps level run_id fpr s =
      let name = Run.data_filename level run_id in
      ended-continue (write_to_disk name ps s) _ (ended-write_to_disk name ps s) (λ u s₁.
        ended-continue (create_metadata d name ps fpr s₁) _ (ended-create_metadata name ps fpr s₁)
          (λ made s₂. refl))

  pub ended-rebuild_bloom_filter :
      (r : Run) (fpr : ℕ) (s : Store) → ended (rebuild_bloom_filter d r fpr s).0 ≡ true
  unfolding rebuild_bloom_filter
  ended-rebuild_bloom_filter r fpr s =
      ended-continue (get_all_pairs r s) _ (ended-get_all_pairs r s) (λ ps s₁.
        ended-continue (insert_keys (Bloom.create d fpr (length ps)) ps, s₁) _
          (ended-insert_keys (Bloom.create d fpr (length ps)) ps)
          (λ filter s₂.
            ended-continue (write_file (bloom_filename r.filename) (Bloom.save filter) s₂) _
              (ended-write_file (bloom_filename r.filename) _ s₂) (λ u s₃. refl)))
