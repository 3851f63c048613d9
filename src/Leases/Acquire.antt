-- ===== src/Leases/Acquire.antt =====
-- `acquire_writer` as one call (leases.py).
use httk_store.Prelude.{
  ℕ, ◌≡◌, refl, ap, ◌∙◌, false, Option, none, some, List, [], ◌∷◌, ◌&&◌, eqb, Result, ok, err,
  arith, Option-cases, inl, inr, eqb_refl, if_true, ok-injective,
}
use httk_store.Leases.{
  LeaseError, WriterDoc, Collection, register_writer, check_writer, layout_generation, without,
  release_writer, checked_writer, acquire_writer,
}
use httk_store.Leases.Steps.{has}

without-absent : (id owner : ℕ) (ds : List WriterDoc) → has id ds ≡ false → without id owner ds ≡ ds
unfolding without
without-absent id owner [] h = refl
without-absent id owner (d ∷ ds) h =
    ground (arith, h, λ (z : has id ds ≡ false). without-absent id owner ds z)

-- What a caller sees of `acquire_writer`, by its result.
abbrev pub AcquireEffect : ℕ → ℕ → Collection → Result LeaseError ℕ × Collection → Type 0
AcquireEffect id owner c (ok generation, c') =
    (c.fsck ≡ none) × (c.layout ≡ some (some generation)) × (c' ≡ register_writer id owner c)
AcquireEffect id owner c (err e, c') = c' ≡ c

layout_generation-ok :
    (l : Option (Option ℕ)) (generation : ℕ)
    → layout_generation l ≡ ok generation
    → l ≡ some (some generation)
unfolding layout_generation
layout_generation-ok none generation h = cc h
layout_generation-ok (some none) generation h = cc h
layout_generation-ok (some (some n)) generation h = ap (λ k. some (some k)) (ok-injective h)

check_writer-ok :
    (c : Collection) (generation : ℕ)
    → check_writer c ≡ ok generation
    → (c.fsck ≡ none) × (c.layout ≡ some (some generation))
unfolding check_writer
check_writer-ok c generation h = elim (Option-cases c.fsck) [
  | inr (d, taken) ↦ absurd (cc (rw (taken, check_writer) at h))
  | inl free ↦ (free, layout_generation-ok c.layout generation (rw (free, check_writer) at h))
]

without-registered :
    (id owner : ℕ) (c : Collection)
    → has id c.writers ≡ false
    → release_writer id owner (register_writer id owner c) ≡ c
unfolding release_writer register_writer without
without-registered id owner c absent =
    ap (λ ds. record c { writers = ds })
      (if_true {b = eqb id id && eqb owner owner} _ _ (ground (arith, eqb_refl id, eqb_refl owner))
        ∙ without-absent id owner c.writers absent)

-- With a new id and nothing between its calls, `acquire_writer` returns only if there is no fsck
-- lease, with the generation of the layout and its document added; if it raises, the collection is
-- as it was.
pub acquire_writer_effect :
    (id owner : ℕ) (c : Collection)
    → has id c.writers ≡ false
    → AcquireEffect id owner c (acquire_writer id owner c)
unfolding acquire_writer checked_writer
acquire_writer_effect id owner c absent = go (check_writer (register_writer id owner c)) refl
  where
    go :
        (r : Result LeaseError ℕ)
        → check_writer (register_writer id owner c) ≡ r
        → AcquireEffect id owner c (checked_writer id owner (register_writer id owner c) r)
    go (ok generation) h =
        let (free, layout) = check_writer-ok (register_writer id owner c) generation h in
        (unfold register_writer in free, unfold register_writer in layout, refl)
    go (err e) h = without-registered id owner c absent
