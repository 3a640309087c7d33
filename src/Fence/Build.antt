-- ===== src/Fence/Build.antt =====
-- The constructor of `FencePointers` indexes the run whose keys and offsets it is given.
use mathlib.Core.List.{append_assoc, append-nil}
use cs.Prelude.{
  ℕ, ◌+◌, ◌/◌, ◌≡◌, refl, ap, ◌∙◌, List, [], ◌∷◌, ◌++◌, ltb, Bool-cases, inl, inr, is_empty, true,
  false,
}
use cs.Pair.{KeyValuePair}
use cs.Fence.{
  FencePointer, Building, add_offset, add_offsets, create, page_size, fence, key_offsets,
}
use cs.Fence.Index.{Indexes, nil, skip, mark, IsIndexOf, none_left, first}

is_empty-snoc : (fs : List FencePointer) (f : FencePointer) → is_empty (fs ++ f ∷ []) ≡ false
is_empty-snoc [] f = refl
is_empty-snoc (g ∷ fs) f = refl

module _ (fs : List FencePointer) (page key at : ℕ) where
  abbrev building : Building
  building = record { fences = fs; current_page = page }

  add_offset_same :
      ltb page (at / page_size) ≡ false
      → is_empty fs ≡ false
      → add_offset building (key, at) ≡ building
  unfolding create
  add_offset_same e h = rw (e, h)

  add_offset_next :
      ltb page (at / page_size) ≡ true
      → add_offset building (key, at)
        ≡ record { fences = fs ++ fence key at ∷ []; current_page = at / page_size }
  unfolding create
  add_offset_next e = rw e

add_offsets-Indexes :
    (at : ℕ) (ps : List KeyValuePair) (fs : List FencePointer) (page : ℕ)
    → is_empty fs ≡ false
    → (gs : List FencePointer) × ((add_offsets
          (record { fences = fs; current_page = page })
          (key_offsets at ps)).fences
        ≡ fs ++ gs)
      × Indexes at ps gs
unfolding create key_offsets
add_offsets-Indexes at [] fs page h = ([], simp append-nil, nil)
add_offsets-Indexes at (p ∷ ps) fs page h =
    let run = λ (b : Building). (add_offsets b (key_offsets (at + 16) ps)).fences in
    elim (Bool-cases (ltb page (at / page_size))) [
      | inr same ↦
          let (gs, e, x) = add_offsets-Indexes (at + 16) ps fs page h in
          (gs, ap run (add_offset_same fs page p.key at same h) ∙ e, skip x)
      | inl next ↦
          let f = fence p.key at in
          let (gs, e, x) =
            add_offsets-Indexes (at + 16) ps (fs ++ f ∷ []) (at / page_size) (is_empty-snoc fs f) in
          (
            f ∷ gs,
            ap run (add_offset_next fs page p.key at next) ∙ e ∙ append_assoc fs (f ∷ []) gs,
            mark x,
          )
    ]

-- The constructor, on the keys and offsets of `create_metadata`, gives an index of the whole run, from
-- its first pair on.
pub create-IsIndexOf :
    (name : List ℕ) (ps : List KeyValuePair)
    → IsIndexOf ps (create name (key_offsets 0 ps)).fence_pointers
unfolding create key_offsets
create-IsIndexOf name [] = none_left
create-IsIndexOf name (p ∷ ps) =
    let (gs, e, x) = add_offsets-Indexes 16 ps (fence p.key 0 ∷ []) 0 refl in rw e (first x)
