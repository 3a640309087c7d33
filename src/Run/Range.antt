-- ===== src/Run/Range.antt =====
-- `Run::range` agrees with a filter of the pairs of the run.
use cs.Prelude.{
  ℕ, zero, suc, ◌+◌, ◌-◌, ◌*◌, ◌≤◌, ◌<◌, ◌≡◌, refl, sym, ◌∙◌, List, [], ◌∷◌, Option, none, some,
  true, false, Bool-cases, inl, inr, ◌⊎◌, ◌==◌, ==_iff, ◌&&◌, not, arith, ltb, All, take, drop,
}
use cs.Int64.{rank, le64}
use cs.Result.{ok}
use cs.Pair.{KeyValuePair, Fits, Ascends, encode, decode, within}
use cs.Pair.Order.{Ascends-drop, Ascends-All, Ascends-mono}
use cs.Pair.Stream.{decode-encode, drop-encode, Fits-drop}
use cs.Fence.{FencePointers, no_end}
use cs.Fence.Offsets.{IsStart, IsEnd, find_range_offsets-IsEnd}
use cs.Store.{Store}
use cs.Run.{Run, pair_size, offsets_of, scan_range, range_from, range}
use cs.Run.Holds.{Holds, SameFiles, SameFiles-refl, IsFenceFor}
use cs.Run.Get.{read_once}

module _ (start_key end_key : ℕ) where
  within_above :
      (ps : List KeyValuePair)
      → All (λ p. rank end_key ≤ rank p.key) ps
      → within start_key end_key ps ≡ []
  unfolding within
  within_above [] h = refl
  within_above (p ∷ ps) h = ground (arith, within_above ps h.1)

  within-drop :
      (n : ℕ) (ps : List KeyValuePair)
      → All (λ p. rank p.key < rank start_key) (take n ps)
      → within start_key end_key (drop n ps) ≡ within start_key end_key ps
  unfolding within
  within-drop zero ps h = refl
  within-drop (suc n) [] h = refl
  within-drop (suc n) (p ∷ ps) h = ground (arith, within-drop n ps h.1)

  within_empty :
      (ps : List KeyValuePair) → rank end_key ≤ rank start_key → within start_key end_key ps ≡ []
  unfolding within
  within_empty [] h = refl
  within_empty (p ∷ ps) h = ground (arith, within_empty ps h)

  -- The scan from the pair with index `n` up to the pair with index `m`, or to the end of the file.
  abbrev Stops : ℕ → ℕ → ℕ → List KeyValuePair → Type 0
  Stops last n m ps =
      (last ≡ no_end) ⊎ ((last ≡ 16 * m) × All (λ p. rank end_key ≤ rank p.key) (drop (m - n) ps))

  Stops-step :
      (last n m : ℕ) (p : KeyValuePair) (ps : List KeyValuePair)
      → Stops last n m (p ∷ ps)
      → ltb last (16 * n + pair_size) && not (last == no_end) ≡ false
      → Stops last (suc n) m ps
  Stops-step last n m p ps (inl e) test = inl e
  Stops-step last n m p ps (inr (e, h)) test = elim (Bool-cases (last == no_end)) [
    | inl e' ↦ inl ((==_iff last no_end).0 e')
    | inr e' ↦
        let later : m - n ≡ suc (m - suc n) = ground (arith, e, e', test) in inr (e, rw later at h)
  ]

  Stops-here :
      (last n m : ℕ) (p : KeyValuePair) (ps : List KeyValuePair)
      → Stops last n m (p ∷ ps)
      → ltb last (16 * n + pair_size) && not (last == no_end) ≡ true
      → rank end_key ≤ rank p.key
  Stops-here last n m p ps (inl e) test = ground arith
  Stops-here last n m p ps (inr (e, h)) test =
      let here : m - n ≡ 0 = ground arith in (rw here at h).0

  -- Behind a pair that is not below the end of the range there is nothing to find.
  within_past :
      (lo : ℕ) (p : KeyValuePair) (ps : List KeyValuePair)
      → Ascends lo (p ∷ ps)
      → rank end_key ≤ rank p.key
      → within start_key end_key (p ∷ ps) ≡ []
  within_past lo p ps a h =
      within_above (p ∷ ps)
        (h, Ascends-All (rank end_key) ps (Ascends-mono _ (suc (rank p.key)) ps (omega arith) a.1))

  scan_range-within :
      (last lo n m at : ℕ) (ps : List KeyValuePair)
      → at ≡ 16 * n
      → Ascends lo ps
      → Stops last n m ps
      → scan_range start_key end_key last at ps ≡ within start_key end_key ps
  unfolding scan_range within
  scan_range-within last lo n m at [] e a x = refl
  scan_range-within last lo n m at (p ∷ ps) e a x =
      elim (Bool-cases (ltb last (at + pair_size) && not (last == no_end))) [
        | inl over ↦
            rw over (sym (within_past lo p ps a (Stops-here last n m p ps x (rw e at over))))
        | inr more ↦ rw more (elim (Bool-cases (le64 end_key p.key)) [
          | inl past ↦ rw past (sym (within_past lo p ps a (ground arith)))
          | inr before ↦
              let rest =
                scan_range-within last (suc (rank p.key)) (suc n) m (at + pair_size) ps
                  (omega arith) a.1 (Stops-step last n m p ps x (rw e at more)) in
              ground (arith, before, rest)
        ])
      ]

  All-later :
      (n m : ℕ) (ps : List KeyValuePair)
      → All (λ p. rank end_key ≤ rank p.key) (drop m ps)
      → All (λ p. rank end_key ≤ rank p.key) (drop (m - n) (drop n ps))
  All-later zero m ps h = let e : m - 0 ≡ m = omega arith in rw e h
  All-later (suc n) m [] h = nothing (m - suc n)
    where
      nothing : (k : ℕ) → All {A = KeyValuePair} (λ p. rank end_key ≤ rank p.key) (drop k [])
      nothing zero = tt
      nothing (suc k) = tt
  All-later (suc n) zero (p ∷ ps) h =
      let e : 0 - suc n ≡ 0 - n = omega arith in rw e (All-later n zero ps h.1)
  All-later (suc n) (suc m) (p ∷ ps) h =
      let e : suc m - suc n ≡ m - n = omega arith in rw e (All-later n m ps h)

  -- Where the pairs are read from a start for the first key to an end for the last.
  scan_range-between :
      (ps : List KeyValuePair) (start last : ℕ)
      → Fits ps
      → Ascends 0 ps
      → IsStart ps start_key start
      → IsEnd ps end_key last
      → scan_range start_key end_key last start (decode (drop start (encode ps)))
        ≡ within start_key end_key ps
  scan_range-between ps start last fits a x y =
      rw
        (
          drop-encode x.index start ps x.place,
          decode-encode (drop x.index ps) (Fits-drop x.index ps fits),
        )
        (scan_range-within last 0 x.index y.index start (drop x.index ps) x.place
            (Ascends-drop 0 x.index ps a) stops
          ∙ within-drop x.index ps x.before)
    where
      stops : Stops last x.index y.index (drop x.index ps)
      stops = elim y.place [ inl e ↦ inl e | inr (e, h) ↦ inr (e, All-later x.index y.index ps h) ]

  offsets_of-IsEnd :
      (f : Option FencePointers) (ps : List KeyValuePair)
      → IsFenceFor f ps
      → Ascends 0 ps
      → (o o' : ℕ) × (offsets_of f start_key end_key ≡ ok (o, o'))
        × IsStart ps start_key o
        × IsEnd ps end_key o'
  offsets_of-IsEnd none ps x a = (
    0,
    no_end,
    refl,
    record { index = 0; place = refl; before = tt },
    record { index = 0; place = inl refl },
  )
  offsets_of-IsEnd (some f) ps x a = find_range_offsets-IsEnd ps start_key end_key f x a

  range_from-within :
      (s : Store) (r : Run) (ps : List KeyValuePair)
      → Holds s r ps
      → range_from r start_key end_key s ≡ (ok (within start_key end_key ps), read_once s)
  unfolding scan_range
  range_from-within s r ps h =
      let (o, o', e, x, y) = offsets_of-IsEnd r.fence_pointers ps h.indexed h.ascending in
      rw (e, h.stored, scan_range-between ps o o' h.fits h.ascending x y)

-- On a run that holds `ps`, `range` returns the pairs of `ps` with keys in [start_key, end_key), in
-- order, and changes no file.
pub range-within :
    (s : Store) (r : Run) (ps : List KeyValuePair) (start_key end_key : ℕ)
    → Holds s r ps
    → (s' : Store) × (range r start_key end_key s ≡ (ok (within start_key end_key ps), s'))
      × SameFiles s s'
unfolding range
range-within s r ps start_key end_key h = elim (Bool-cases (le64 end_key start_key)) [
  | inl e ↦ (s, rw (e, within_empty start_key end_key ps (ground arith)), SameFiles-refl s)
  | inr e ↦ (
    read_once s,
    rw e (range_from-within start_key end_key s r ps h),
    record { same_disk = refl; same_rights = refl },
  )
]
