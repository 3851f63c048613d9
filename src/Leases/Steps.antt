-- ===== src/Leases/Steps.antt =====
-- Processes that call the server, one call at a time (leases.py): writers and fsck runs.
use httk_store.Prelude.{
  ℕ, ◌+◌, ◌≡◌, ◌<◌, Bool, true, false, Option, none, some, List, [], ◌∷◌, ◌||◌, ◌&&◌, if◌then◌else◌,
  eqb, ok, err,
}
use httk_store.Leases.{
  LeaseError, WriterDoc, FsckDoc, Collection, register_writer, check_writer, release_writer,
  install_fsck, refresh_fsck, release_fsck, refresh_writer, is_fresh, sees_none, fresh_ids,
  stale_writers, drained,
}

-- Where a process stands between its calls of the server. A fsck run drains; has seen no fresh
-- writer in the first query of a round; has the ids of the round's second query; has its lease.
pub data Phase : Type 0 where
  idle registered writing draining saw_none exclusive : Phase
  requeried : List ℕ → Phase

abbrev pub is_writer : Phase → Bool
is_writer registered = true
is_writer writing = true
is_writer idle = false
is_writer draining = false
is_writer saw_none = false
is_writer (requeried ids) = false
is_writer exclusive = false

abbrev pub is_fsck : Phase → Bool
is_fsck draining = true
is_fsck saw_none = true
is_fsck (requeried ids) = true
is_fsck exclusive = true
is_fsck idle = false
is_fsck registered = false
is_fsck writing = false

-- After the first query of the last round.
abbrev pub is_past : Phase → Bool
is_past saw_none = true
is_past (requeried ids) = true
is_past exclusive = true
is_past draining = false
is_past idle = false
is_past registered = false
is_past writing = false

pub record Sys : Type 0 where
  pub collection : Collection
  pub phase : ℕ → Phase

abbrev pub update : (ℕ → Phase) → ℕ → Phase → ℕ → Phase
update f p v q = if eqb p q then v else f q

abbrev pub move : Sys → ℕ → Phase → Collection → Sys
move s p v c = record { collection = c; phase = update s.phase p v }

-- The metadata after time has passed.
abbrev pub later : ℕ → Collection → Collection
later n c = record c { now = c.now + n }

abbrev pub has : ℕ → List WriterDoc → Bool
has p [] = false
has p (d ∷ ds) = eqb d.id p || has p ds

-- A process has a document with a heartbeat after the cutoff.
abbrev pub has_fresh : ℕ → ℕ → ℕ → List WriterDoc → Bool
has_fresh cutoff_ms now p [] = false
has_fresh cutoff_ms now p (d ∷ ds) =
    (eqb d.id p && is_fresh cutoff_ms now d) || has_fresh cutoff_ms now p ds

-- Every process that is registered or writes has a fresh heartbeat.
abbrev pub AreTimely : ℕ → Sys → Type 0
AreTimely cutoff_ms s =
    (p : ℕ)
    → is_writer (s.phase p) ≡ true
    → has_fresh cutoff_ms s.collection.now p s.collection.writers ≡ true

-- One call of the server by one process, whose number is its owner and id; nothing is forced and
-- no lock is cleared. A process may die at any time, and leaves its documents behind. Time passes
-- only as far as the writers that live are timely.
pub data Step (cutoff_ms : ℕ) (s : Sys) : Sys → Type 0 where
  time_passes :
      (n : ℕ)
      → AreTimely cutoff_ms (record s { collection = later n s.collection })
      → Step cutoff_ms s (record s { collection = later n s.collection })
  dies : (p : ℕ) → Step cutoff_ms s (move s p idle s.collection)
  registers :
      (p : ℕ)
      → s.phase p ≡ idle
      → has p s.collection.writers ≡ false
      → Step cutoff_ms s (move s p registered (register_writer p p s.collection))
  enters :
      (p generation : ℕ)
      → s.phase p ≡ registered
      → check_writer s.collection ≡ ok generation
      → Step cutoff_ms s (move s p writing s.collection)
  turns_back :
      (p : ℕ) (e : LeaseError)
      → s.phase p ≡ registered
      → check_writer s.collection ≡ err e
      → Step cutoff_ms s (move s p idle (release_writer p p s.collection))
  leaves :
      (p : ℕ)
      → s.phase p ≡ writing
      → Step cutoff_ms s (move s p idle (release_writer p p s.collection))
  installs :
      (p : ℕ) (c : Collection)
      → s.phase p ≡ idle
      → install_fsck cutoff_ms false p s.collection ≡ ok c
      → Step cutoff_ms s (move s p draining c)
  refreshes :
      (p : ℕ) (c : Collection)
      → is_fsck (s.phase p) ≡ true
      → refresh_fsck p s.collection ≡ ok c
      → Step cutoff_ms s (record s { collection = c })
  beats :
      (p : ℕ) (c : Collection)
      → s.phase p ≡ writing
      → refresh_writer p p s.collection ≡ ok c
      → Step cutoff_ms s (record s { collection = c })
  waits :
      (p : ℕ)
      → s.phase p ≡ draining
      → sees_none cutoff_ms s.collection ≡ false
      → Step cutoff_ms s (move s p draining s.collection)
  looks :
      (p : ℕ)
      → s.phase p ≡ draining
      → sees_none cutoff_ms s.collection ≡ true
      → Step cutoff_ms s (move s p saw_none s.collection)
  looks_again :
      (p : ℕ)
      → s.phase p ≡ saw_none
      → Step cutoff_ms s (move s p (requeried (fresh_ids cutoff_ms s.collection)) s.collection)
  drains :
      (p : ℕ) (fresh : List ℕ)
      → s.phase p ≡ requeried fresh
      → drained false (stale_writers fresh s.collection.writers) ≡ ok true
      → Step cutoff_ms s (move s p exclusive s.collection)
  finishes :
      (p : ℕ)
      → is_fsck (s.phase p) ≡ true
      → Step cutoff_ms s (move s p idle (release_fsck p s.collection))

pub data Reach (cutoff_ms : ℕ) (s : Sys) : Sys → Type 0 where
  here : Reach cutoff_ms s s
  next : {t u : Sys} → Reach cutoff_ms s t → Step cutoff_ms t u → Reach cutoff_ms s u

abbrev pub fsck_owner : Option FsckDoc → Option ℕ
fsck_owner none = none
fsck_owner (some d) = some d.owner

-- Writers have fresh documents, the fsck singleton is its owner's, and nobody writes once a fsck run
-- has seen no fresh writer.
pub record IsExclusive (cutoff_ms : ℕ) (s : Sys) : Type 0 where
  pub clock : 0 < s.collection.now
  pub docs : AreTimely cutoff_ms s
  pub owner : (q : ℕ) → is_fsck (s.phase q) ≡ true → fsck_owner s.collection.fsck ≡ some q
  pub alone : (p q : ℕ) → s.phase p ≡ writing → is_past (s.phase q) ≡ true → ⊥
