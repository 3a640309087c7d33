-- ===== src/Generators/Drawn.antt =====
-- The loops of the generators end, and the keys that they draw are all different.
use mathlib.Core.Path.{subst}
use native.Mathlib.Nat.{div-add-mod'}
use cs.Prelude.{
  ℕ, zero, suc, ltb, ◌⊎◌, ◌+◌, ◌*◌, ◌/◌, ◌%◌, ◌≡◌, ◌<◌, ◌≤◌, refl, sym, ◌∙◌, List, [], ◌∷◌, false,
  ◌==◌, arith, length, length-append, Bool-cases, inl, inr, ==_iff,
}
use cs.Int64.{word}
use cs.Result.{ok}
use cs.Pair.{KeyValuePair, Fits}
use cs.Compaction.Sorting.{IsSort}
use cs.Tree.Merge.{Fits-Perm, Fits-append}
use cs.Generators.Copies.{copies, mark, copies-append, copies-Perm, length-Perm}
use cs.Generators.{
  Batch, joined, with_pair, is_used, fresh_key, draw_pairs, generate_batch, full_batches,
  all_batches,
}

-- What a batch adds to the keys that were used: `n` pairs, each with a key of its own.
pub record Adds (n : ℕ) (used : List ℕ) (b : Batch) : Type 0 where
  pub counted : length b.pairs ≡ n
  pub used_count : length b.used ≡ length used + n
  pub fresh : (k : ℕ) → copies k b.pairs + mark (is_used k used) ≡ mark (is_used k b.used)
  pub fits : Fits b.pairs

Adds-joined :
    (m n : ℕ) (used : List ℕ) (b b' : Batch)
    → Adds m used b
    → Adds n b.used b'
    → Adds (m + n) used (joined b b')
Adds-joined m n used b b' x y = record {
  counted = omega (arith, length-append b.pairs b'.pairs, x.counted, y.counted);
  used_count = omega (arith, x.used_count, y.used_count);
  fresh = λ k. omega (arith, copies-append k b.pairs b'.pairs, x.fresh k, y.fresh k);
  fits = Fits-append b.pairs b'.pairs x.fits y.fits;
}

Adds-sorted :
    (sort : List KeyValuePair → List KeyValuePair) (n : ℕ) (used : List ℕ) (b : Batch)
    → IsSort sort
    → Adds n used b
    → Adds n used (record b { pairs = sort b.pairs })
Adds-sorted sort n used b std x =
    let same = std.same_pairs b.pairs in
    record {
      counted = length-Perm (sort b.pairs) b.pairs same ∙ x.counted;
      used_count = x.used_count;
      fresh = λ k. omega (arith, copies-Perm k (sort b.pairs) b.pairs same, x.fresh k);
      fits = Fits-Perm (sort b.pairs) b.pairs same x.fits;
    }

Adds-none : (i : ℕ) (used : List ℕ) → Adds 0 used (record { pairs = []; position = i; used = used })
unfolding copies
Adds-none i used = record {
  counted = refl;
  used_count = omega arith;
  fresh = λ k. omega arith;
  fits = tt;
}

Adds-with_pair :
    (n key value : ℕ) (used : List ℕ) (b : Batch)
    → key < word
    → value < word
    → is_used key used ≡ false
    → Adds n (key ∷ used) b
    → Adds (suc n) used (with_pair key value b)
unfolding copies is_used
Adds-with_pair n key value used b small small' unused x = record {
  counted = omega (arith, x.counted);
  used_count = omega (arith, x.used_count);
  fresh = λ k. elim (Bool-cases (key == k)) [
    | inl same ↦
        let e : is_used k used ≡ false = rw ((==_iff key k).0 same) at unused in
        ground (arith, x.fresh k, e)
    | inr other ↦ ground (arith, x.fresh k)
  ];
  fits = (small, small', x.fits);
}

-- Draws of 64-bit values, among which a key that is not used comes up within `patience` draws for as
-- long as fewer than `limit` keys are used.
pub record IsPatient (draw_key draw_value : ℕ → ℕ) (patience limit : ℕ) : Type 0 where
  pub keys_fit : (i : ℕ) → draw_key i < word
  pub values_fit : (i : ℕ) → draw_value i < word
  pub comes_up :
      (i : ℕ) (used : List ℕ)
      → length used < limit
      → (j : ℕ) × (j < patience) × (is_used (draw_key (i + j)) used ≡ false)

zero_or_suc : (n : ℕ) → (n ≡ 0) ⊎ ((m : ℕ) × (n ≡ suc m))
zero_or_suc zero = inl refl
zero_or_suc (suc n) = inr (n, refl)

suc_times : (n size : ℕ) → suc n * size ≡ size + n * size
suc_times n size = grind arith

module _ (draw_key draw_value : ℕ → ℕ) (sort : List KeyValuePair → List KeyValuePair)
    (std : IsSort sort) (patience limit : ℕ)
    (x : IsPatient draw_key draw_value patience limit) where
  fresh_key-ends :
      (fuel i j : ℕ) (used : List ℕ)
      → j < fuel
      → is_used (draw_key (i + j)) used ≡ false
      → (key i' : ℕ) × (fresh_key draw_key draw_value sort patience fuel i used ≡ ok (key, i'))
        × (is_used key used ≡ false)
        × (key < word)
  unfolding fresh_key
  fresh_key-ends zero i j used h unused = absurd (omega arith)
  fresh_key-ends (suc fuel) i j used h unused = elim (Bool-cases (is_used (draw_key i) used)) [
    | inr free ↦ (draw_key i, i + 1, rw free, free, x.keys_fit i)
    | inl taken ↦ elim (zero_or_suc j) [
      | inl e ↦ let here : i + j ≡ i = omega arith in let free = rw here at unused in absurd (cc)
      | inr (k, e) ↦
          let shift : i + j ≡ i + 1 + k = omega arith in
          let (key, i', run, free, small) =
            fresh_key-ends fuel (i + 1) k used (omega arith) (rw shift at unused) in
          (key, i', rw taken run, free, small)
    ]
  ]

  draw_pairs-Adds :
      (n i : ℕ) (used : List ℕ)
      → length used + n ≤ limit
      → (b : Batch) × (draw_pairs draw_key draw_value sort patience n i used ≡ ok b) × Adds n used b
  unfolding draw_pairs
  draw_pairs-Adds zero i used h =
      (record { pairs = []; position = i; used = used }, refl, Adds-none i used)
  draw_pairs-Adds (suc n) i used h =
      let (j, near, free) = x.comes_up i used (omega arith) in
      let (key, i', run, unused, small) = fresh_key-ends patience i j used near free in
      let (b, rest, y) = draw_pairs-Adds n (i' + 1) (key ∷ used) (omega arith) in
      (
        with_pair key (draw_value i') b,
        rw (run, rest),
        Adds-with_pair n key (draw_value i') used b small (x.values_fit i') unused y,
      )

  generate_batch-Adds :
      (n i : ℕ) (used : List ℕ)
      → length used + n ≤ limit
      → (b : Batch) × (generate_batch draw_key draw_value sort patience n i used ≡ ok b)
        × Adds n used b
  unfolding generate_batch
  generate_batch-Adds n i used h =
      let (b, run, y) = draw_pairs-Adds n i used h in
      (record b { pairs = sort b.pairs }, rw run, Adds-sorted sort n used b std y)

  full_batches-Adds :
      (size n i : ℕ) (used : List ℕ)
      → length used + n * size ≤ limit
      → (b : Batch) × (full_batches draw_key draw_value sort patience size n i used ≡ ok b)
        × Adds (n * size) used b
  unfolding full_batches
  full_batches-Adds size zero i used h =
      let nothing : 0 ≡ 0 * size = grind arith in
      (
        record { pairs = []; position = i; used = used },
        refl,
        subst (λ m. Adds m used (record { pairs = []; position = i; used = used })) nothing
            (Adds-none i used),
      )
  full_batches-Adds size (suc n) i used h =
      let (b, run, y) = generate_batch-Adds size i used (omega (arith, suc_times n size)) in
      let (b', run', y') =
        full_batches-Adds size n b.position b.used
          (omega (arith, suc_times n size, y.used_count)) in
      (
        joined b b',
        rw (run, run'),
        subst (λ m. Adds m used (joined b b')) (sym (suc_times n size))
            (Adds-joined size (n * size) used b b' y y'),
      )

  -- All batches together have as many pairs as they should.
  pub all_batches-Adds :
      (size : ℕ)
      → (b : Batch) × (all_batches draw_key draw_value sort patience limit size ≡ ok b)
        × Adds limit [] b
  unfolding all_batches
  all_batches-Adds size =
      let whole = limit / size * size in
      let divides : whole + limit % size ≡ limit = div-add-mod' limit size in
      let (b, run, y) = full_batches-Adds size (limit / size) 0 [] (omega arith) in
      elim (Bool-cases (ltb 0 (limit % size))) [
        | inl more ↦
            let (b', run', y') =
              generate_batch-Adds (limit % size) b.position b.used (omega (arith, y.used_count)) in
            (
              joined b b',
              rw (run, more, run'),
              subst (λ m. Adds m [] (joined b b')) divides
                  (Adds-joined whole (limit % size) [] b b' y y'),
            )
        | inr done ↦
            let exact : whole ≡ limit = ground (arith, divides) in
            (b, rw (run, done), subst (λ m. Adds m [] b) exact y)
      ]
