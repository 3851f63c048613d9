-- ===== src/Leases/Calls.antt =====
-- What each call of the server leaves in the metadata collection (leases.py).
use httk_store.Prelude.{
  ℕ, ◌≡◌, ◌<◌, refl, ap, sym, ◌∙◌, true, false, Option, none, some, List, [], ◌∷◌, ◌&&◌,
  ok-injective, eqb, ok, arith, Bool-cases, Option-cases, inl, inr,
}
use httk_store.Leases.{
  WriterDoc, Collection, is_fresh, fresh_writers, sees_none, check_writer, without, install_fsck,
  refresh_fsck, release_fsck, with_heartbeat, refresh_writer,
}
use httk_store.Leases.Steps.{has_fresh, fsck_owner}

pub has_fresh-without :
    (cutoff_ms now p q : ℕ) (ds : List WriterDoc)
    → eqb p q ≡ false
    → has_fresh cutoff_ms now q (without p p ds) ≡ has_fresh cutoff_ms now q ds
unfolding without
has_fresh-without cutoff_ms now p q [] h = refl
has_fresh-without cutoff_ms now p q (d ∷ ds) h =
    ground (arith, h, has_fresh-without cutoff_ms now p q ds h)

never :
    (cutoff_ms now p : ℕ) (ds : List WriterDoc)
    → fresh_writers cutoff_ms now ds ≡ []
    → has_fresh cutoff_ms now p ds ≡ false
unfolding fresh_writers
never cutoff_ms now p [] h = refl
never cutoff_ms now p (d ∷ ds) h = elim (Bool-cases (is_fresh cutoff_ms now d)) [
  | inl fresh ↦ absurd (cc (rw fresh at h))
  | inr stale ↦ ground (arith, stale, never cutoff_ms now p ds (rw stale at h))
]

-- After an empty fresh query nobody has a fresh document.
pub sees_none-has_fresh :
    (cutoff_ms p : ℕ) (c : Collection)
    → sees_none cutoff_ms c ≡ true
    → has_fresh cutoff_ms c.now p c.writers ≡ false
unfolding sees_none
sees_none-has_fresh cutoff_ms p c h =
    never cutoff_ms c.now p c.writers (go (fresh_writers cutoff_ms c.now c.writers) h)
  where
    go : (ds : List WriterDoc) → (elim ds [ [] ↦ true | x ∷ xs ↦ false ]) ≡ true → ds ≡ []
    go [] k = refl
    go (d ∷ ds) k = cc k

pub check_writer-none :
    (c : Collection) (generation : ℕ) → check_writer c ≡ ok generation → c.fsck ≡ none
unfolding check_writer
check_writer-none c generation h = elim (Option-cases c.fsck) [
  | inl free ↦ free
  | inr (d, taken) ↦ absurd (cc (rw taken at h))
]

pub install_fsck-owner :
    (cutoff_ms p : ℕ) (c c' : Collection)
    → install_fsck cutoff_ms false p c ≡ ok c'
    → (c.fsck ≡ none) × (c'.writers ≡ c.writers) × (c'.now ≡ c.now) × (fsck_owner c'.fsck ≡ some p)
unfolding install_fsck
install_fsck-owner cutoff_ms p c c' h = elim (Option-cases c.fsck) [
  | inr (d, taken) ↦ absurd (cc (rw taken at h))
  | inl free ↦
      let made = ok-injective (rw free at h) in
      (
        free,
        ap (λ (k : Collection). k.writers) (sym made),
        ap (λ (k : Collection). k.now) (sym made),
        ap (λ (k : Collection). fsck_owner k.fsck) (sym made),
      )
]

pub refresh_fsck-owner :
    (p : ℕ) (c c' : Collection)
    → refresh_fsck p c ≡ ok c'
    → (c'.writers ≡ c.writers) × (c'.now ≡ c.now) × (fsck_owner c'.fsck ≡ some p)
unfolding refresh_fsck
refresh_fsck-owner p c c' h = elim (Option-cases c.fsck) [
  | inl free ↦ absurd (cc (rw free at h))
  | inr (d, taken) ↦ elim (Bool-cases (eqb d.owner p)) [
    | inr other ↦ absurd (cc (rw (taken, other) at h))
    | inl mine ↦
        let made = ok-injective (rw (taken, mine) at h) in
        (
          ap (λ (k : Collection). k.writers) (sym made),
          ap (λ (k : Collection). k.now) (sym made),
          ap (λ (k : Collection). fsck_owner k.fsck) (sym made),
        )
  ]
]

pub release_fsck-now : (p : ℕ) (c : Collection) → (release_fsck p c).now ≡ c.now
unfolding release_fsck
release_fsck-now p c = ground arith

pub release_fsck-writers : (p : ℕ) (c : Collection) → (release_fsck p c).writers ≡ c.writers
unfolding release_fsck
release_fsck-writers p c = ground arith

abbrev or_else : Option (List WriterDoc) → List WriterDoc → List WriterDoc
or_else none ds = ds
or_else (some ds) other = ds

-- A heartbeat leaves every fresh document fresh, those of the process itself with it.
with_heartbeat-has_fresh :
    (cutoff_ms now p q : ℕ) (ds ds' : List WriterDoc)
    → 0 < cutoff_ms
    → 0 < now
    → with_heartbeat p p now ds ≡ some ds'
    → has_fresh cutoff_ms now q ds ≡ true
    → has_fresh cutoff_ms now q ds' ≡ true
unfolding with_heartbeat is_fresh
with_heartbeat-has_fresh cutoff_ms now p q [] ds' c n h k = cc h
with_heartbeat-has_fresh cutoff_ms now p q (d ∷ ds) ds' c n h k =
    elim (Bool-cases (eqb d.id p && eqb d.owner p)) [
      | inl mine ↦
          let made : some (record d { heartbeat = now } ∷ ds) ≡ some ds' = rw mine at h in
          ap (λ o. has_fresh cutoff_ms now q (or_else o ds')) (sym made) ∙ ground (arith, k)
      | inr other ↦ elim (Option-cases (with_heartbeat p p now ds)) [
        | inl missing ↦ absurd (cc (rw (other, missing) at h))
        | inr (later, found) ↦
            let made : some (d ∷ later) ≡ some ds' = rw (other, found) at h in
            ap (λ o. has_fresh cutoff_ms now q (or_else o ds')) (sym made)
            ∙ ground (arith, k, with_heartbeat-has_fresh cutoff_ms now p q ds later c n found)
      ]
    ]

pub refresh_writer-has_fresh :
    (cutoff_ms p : ℕ) (c c' : Collection)
    → 0 < cutoff_ms
    → 0 < c.now
    → refresh_writer p p c ≡ ok c'
    → ((q : ℕ)
        → has_fresh cutoff_ms c.now q c.writers ≡ true
        → has_fresh cutoff_ms c'.now q c'.writers ≡ true)
      × (c'.fsck ≡ c.fsck)
      × (c'.now ≡ c.now)
unfolding refresh_writer
refresh_writer-has_fresh cutoff_ms p c c' pos n h =
    elim (Option-cases (with_heartbeat p p c.now c.writers)) [
      | inl missing ↦ absurd (cc (rw (missing, refresh_writer) at h))
      | inr (ds, found) ↦
          let made = ok-injective (rw (found, refresh_writer) at h) in
          (
            λ q k.
                ap (λ (k : Collection). has_fresh cutoff_ms k.now q k.writers) (sym made)
                ∙ with_heartbeat-has_fresh cutoff_ms c.now p q c.writers ds pos n found k,
            ap (λ (k : Collection). k.fsck) (sym made),
            ap (λ (k : Collection). k.now) (sym made),
          )
    ]
