-- ===== src/Leases/Exclusion.antt =====
-- The calls of writers and fsck runs (leases.py), against the exclusion of the two.
use httk_store.Prelude.{
  ℕ, ◌≡◌, ◌<◌, refl, ap, sym, subst, ◌∙◌, true, false, some, eqb, arith, Bool-cases, inl, inr,
}
use httk_store.Leases.{
  Collection, register_writer, release_writer, release_fsck, fresh_ids, is_fresh,
}
use httk_store.Leases.Steps.{
  Phase, idle, registered, writing, draining, saw_none, requeried, exclusive, Sys, move, Step,
  time_passes, dies, registers, enters, turns_back, leaves, installs, refreshes, beats, waits,
  looks, looks_again, drains, finishes, Reach, here, next, is_writer, is_fsck, is_past, has_fresh,
  fsck_owner, IsExclusive,
}
use httk_store.Leases.Calls.{
  has_fresh-without, sees_none-has_fresh, check_writer-none, install_fsck-owner, refresh_fsck-owner,
  release_fsck-writers, release_fsck-now, refresh_writer-has_fresh,
}

is_past-is_fsck : (v : Phase) → is_past v ≡ true → is_fsck v ≡ true
is_past-is_fsck idle h = cc h
is_past-is_fsck registered h = cc h
is_past-is_fsck writing h = cc h
is_past-is_fsck draining h = cc h
is_past-is_fsck saw_none h = refl
is_past-is_fsck (requeried ids) h = refl
is_past-is_fsck exclusive h = refl

-- A writer's call that changes no fsck document keeps the invariant, if the documents of the other
-- writers stay.
writer_moves :
    (cutoff_ms : ℕ) (s : Sys) (p : ℕ) (v : Phase) (c : Collection)
    → IsExclusive cutoff_ms s
    → is_fsck v ≡ false
    → c.fsck ≡ s.collection.fsck
    → 0 < c.now
    → (is_writer v ≡ true → has_fresh cutoff_ms c.now p c.writers ≡ true)
    → ((q : ℕ)
        → eqb p q ≡ false
        → has_fresh cutoff_ms s.collection.now q s.collection.writers ≡ true
        → has_fresh cutoff_ms c.now q c.writers ≡ true)
    → ((q : ℕ) → v ≡ writing → is_past (s.phase q) ≡ true → ⊥)
    → IsExclusive cutoff_ms (move s p v c)
writer_moves cutoff_ms s p v c x other same clock own rest alone = record {
  clock = clock;
  docs = λ q h. elim (Bool-cases (eqb p q)) [
    | inl me ↦ ground (arith, me, own (rw me at h))
    | inr else_ ↦ rest q else_ (x.docs q (rw else_ at h))
  ];
  owner = λ q h. elim (Bool-cases (eqb p q)) [
    | inl me ↦ absurd (cc (other, rw me at h))
    | inr else_ ↦ ap fsck_owner same ∙ x.owner q (rw else_ at h)
  ];
  alone = λ q r h k. elim (Bool-cases (eqb p r)) [
    | inl me ↦ cc (other, is_past-is_fsck v (rw me at k))
    | inr else_ ↦ elim (Bool-cases (eqb p q)) [
      | inl mine ↦ alone r (rw mine at h) (rw else_ at k)
      | inr theirs ↦ x.alone q r (rw theirs at h) (rw else_ at k)
    ]
  ];
}

-- So does a call of fsck that changes no writer, if the singleton is its own.
fsck_moves :
    (cutoff_ms : ℕ) (s : Sys) (p : ℕ) (v : Phase) (c : Collection)
    → IsExclusive cutoff_ms s
    → is_writer v ≡ false
    → c.writers ≡ s.collection.writers
    → c.now ≡ s.collection.now
    → (is_fsck v ≡ true → fsck_owner c.fsck ≡ some p)
    → ((q : ℕ) → eqb p q ≡ false → is_fsck (s.phase q) ≡ true → fsck_owner c.fsck ≡ some q)
    → ((q : ℕ) → is_past v ≡ true → s.phase q ≡ writing → ⊥)
    → IsExclusive cutoff_ms (move s p v c)
fsck_moves cutoff_ms s p v c x other same moment own rest alone = record {
  clock = subst (λ n. 0 < n) (sym moment) x.clock;
  docs = λ q h. elim (Bool-cases (eqb p q)) [
    | inl me ↦ absurd (cc (other, rw me at h))
    | inr else_ ↦
        ap (λ n. has_fresh cutoff_ms n q c.writers) moment
        ∙ ap (has_fresh cutoff_ms s.collection.now q) same
        ∙ x.docs q (rw else_ at h)
  ];
  owner = λ q h. elim (Bool-cases (eqb p q)) [
    | inl me ↦ ground (arith, me, own (rw me at h))
    | inr else_ ↦ rest q else_ (rw else_ at h)
  ];
  alone = λ q r h k. elim (Bool-cases (eqb p q)) [
    | inl me ↦ cc (other, ap is_writer (rw me at h))
    | inr else_ ↦ elim (Bool-cases (eqb p r)) [
      | inl mine ↦ alone q (rw mine at k) (rw else_ at h)
      | inr theirs ↦ x.alone q r (rw else_ at h) (rw theirs at k)
    ]
  ];
}

leaving_writer :
    (cutoff_ms : ℕ) (s : Sys) (p : ℕ)
    → IsExclusive cutoff_ms s
    → IsExclusive cutoff_ms (move s p idle (release_writer p p s.collection))
unfolding release_writer
leaving_writer cutoff_ms s p x =
    writer_moves cutoff_ms s p idle (release_writer p p s.collection) x refl refl x.clock
      (λ h. cc h)
      (λ q other h. has_fresh-without cutoff_ms s.collection.now p q s.collection.writers other ∙ h)
      (λ q h k. cc h)

leaving_fsck :
    (cutoff_ms : ℕ) (s : Sys) (p : ℕ)
    → IsExclusive cutoff_ms s
    → is_fsck (s.phase p) ≡ true
    → IsExclusive cutoff_ms (move s p idle (release_fsck p s.collection))
leaving_fsck cutoff_ms s p x mine =
    fsck_moves cutoff_ms s p idle (release_fsck p s.collection) x refl
      (release_fsck-writers p s.collection) (release_fsck-now p s.collection) (λ h. cc h)
      (λ q other h. absurd (ground (arith, other, x.owner p mine, x.owner q h))) (λ q h k. cc h)

-- A fsck run that goes on to the next call of its round, with the collection as it was.
going_on :
    (cutoff_ms : ℕ) (s : Sys) (p : ℕ) (v : Phase)
    → IsExclusive cutoff_ms s
    → is_fsck (s.phase p) ≡ true
    → is_writer v ≡ false
    → ((q : ℕ) → is_past v ≡ true → s.phase q ≡ writing → ⊥)
    → IsExclusive cutoff_ms (move s p v s.collection)
going_on cutoff_ms s p v x mine other alone =
    fsck_moves cutoff_ms s p v s.collection x other refl refl (λ k. x.owner p mine)
      (λ q else_ k. x.owner q k) alone

Step-IsExclusive :
    {cutoff_ms : ℕ} {s t : Sys}
    → 0 < cutoff_ms
    → Step cutoff_ms s t
    → IsExclusive cutoff_ms s
    → IsExclusive cutoff_ms t
unfolding register_writer is_fresh
Step-IsExclusive pos (time_passes n timely) x = record {
  clock = omega (arith, x.clock);
  docs = timely;
  owner = x.owner;
  alone = x.alone;
}
Step-IsExclusive {cutoff_ms} {s} pos (dies p) x =
    writer_moves cutoff_ms s p idle s.collection x refl refl x.clock (λ k. cc k) (λ q other k. k)
      (λ q k e. cc k)
Step-IsExclusive {cutoff_ms} {s} pos (registers p h new) x =
    writer_moves cutoff_ms s p registered (register_writer p p s.collection) x refl refl x.clock
      (λ k. let clock = x.clock in ground arith) (λ q other k. ground (arith, k)) (λ q k e. cc k)
Step-IsExclusive {cutoff_ms} {s} pos (enters p generation h checked) x =
    writer_moves cutoff_ms s p writing s.collection x refl refl x.clock
      (λ k. x.docs p (ap is_writer h)) (λ q other k. k)
      (λ q k e. cc (
        x.owner q (is_past-is_fsck (s.phase q) e),
        ap fsck_owner (check_writer-none s.collection generation checked),
      ))
Step-IsExclusive {cutoff_ms} {s} pos (turns_back p e h checked) x = leaving_writer cutoff_ms s p x
Step-IsExclusive {cutoff_ms} {s} pos (leaves p h) x = leaving_writer cutoff_ms s p x
Step-IsExclusive {cutoff_ms} {s} pos (installs p c h made) x =
    let (free, same, moment, mine) = install_fsck-owner cutoff_ms p s.collection c made in
    fsck_moves cutoff_ms s p draining c x refl same moment (λ k. mine)
      (λ q other k. absurd (cc (x.owner q k, ap fsck_owner free))) (λ q k e. cc k)
Step-IsExclusive {cutoff_ms} {s} pos (refreshes p c h made) x =
    let (same, moment, mine) = refresh_fsck-owner p s.collection c made in
    record {
      clock = subst (λ n. 0 < n) (sym moment) x.clock;
      docs = λ q k.
          ap (λ n. has_fresh cutoff_ms n q c.writers) moment
          ∙ ap (has_fresh cutoff_ms s.collection.now q) same
          ∙ x.docs q k;
      owner = λ q k. mine ∙ sym (x.owner p h) ∙ x.owner q k;
      alone = x.alone;
    }
Step-IsExclusive {cutoff_ms} {s} pos (beats p c h made) x =
    let (same, fsck_same, moment) =
      refresh_writer-has_fresh cutoff_ms p s.collection c pos x.clock made in
    record {
      clock = subst (λ n. 0 < n) (sym moment) x.clock;
      docs = λ q k. same q (x.docs q k);
      owner = λ q k. ap fsck_owner fsck_same ∙ x.owner q k;
      alone = x.alone;
    }
Step-IsExclusive {cutoff_ms} {s} pos (waits p h some_fresh) x =
    going_on cutoff_ms s p draining x (ap is_fsck h) refl (λ q k e. cc k)
Step-IsExclusive {cutoff_ms} {s} pos (looks p h none_fresh) x =
    going_on cutoff_ms s p saw_none x (ap is_fsck h) refl (λ q k e.
      cc (x.docs q (ap is_writer e), sees_none-has_fresh cutoff_ms q s.collection none_fresh))
Step-IsExclusive {cutoff_ms} {s} pos (looks_again p h) x =
    going_on cutoff_ms s p (requeried (fresh_ids cutoff_ms s.collection)) x (ap is_fsck h) refl
      (λ q k e. x.alone q p e (ap is_past h))
Step-IsExclusive {cutoff_ms} {s} pos (drains p fresh h found) x =
    going_on cutoff_ms s p exclusive x (ap is_fsck h) refl (λ q k e. x.alone q p e (ap is_past h))
Step-IsExclusive {cutoff_ms} {s} pos (finishes p h) x = leaving_fsck cutoff_ms s p x h

Reach-IsExclusive :
    {cutoff_ms : ℕ} {s t : Sys}
    → 0 < cutoff_ms
    → IsExclusive cutoff_ms s
    → Reach cutoff_ms s t
    → IsExclusive cutoff_ms t
Reach-IsExclusive pos x here = x
Reach-IsExclusive pos x (next r st) = Step-IsExclusive pos st (Reach-IsExclusive pos x r)

-- From a moment when no process is between its calls, nothing is forced or cleared, and time passes
-- only as far as every living writer's last heartbeat stays after the cutoff: however the server
-- calls of writers and of fsck runs interleave, each query of a round of the drain a call of its
-- own, and whichever of them die, no process writes from the empty first query of another's last
-- round until that one gives its fsck lease back. Whoever is registered or writes has a fresh
-- document, and whoever drains or holds the fsck lease owns the singleton.
pub interleaved-IsExclusive :
    (cutoff_ms : ℕ) (s t : Sys)
    → 0 < cutoff_ms
    → 0 < s.collection.now
    → ((p : ℕ) → s.phase p ≡ idle)
    → Reach cutoff_ms s t
    → IsExclusive cutoff_ms t
interleaved-IsExclusive cutoff_ms s t pos clock nobody r =
    Reach-IsExclusive pos
      (record {
        clock = clock;
        docs = λ p h. absurd (cc (h, ap is_writer (nobody p)));
        owner = λ q h. absurd (cc (h, ap is_fsck (nobody q)));
        alone = λ p q h k. cc (h, nobody p);
      })
      r
