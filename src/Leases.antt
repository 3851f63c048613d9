-- ===== src/Leases.antt =====
-- src/httk/store/backend/mongo/leases.py: the handshake of writers and fsck over the documents of
-- the metadata collection. Times are the server's, in milliseconds; owners and ids are numbers.
pub mod Steps
pub mod Calls
pub mod Exclusion
pub mod Acquire
pub mod Rounds
mod Tests
use httk_store.Prelude.{
  ℕ, ◌+◌, ◌-◌, Bool, true, false, Option, none, some, List, [], ◌∷◌, ◌++◌, ◌&&◌, ◌||◌, not,
  if◌then◌else◌, ltb, leb, eqb, Result, ok, err, ◌>>=◌,
}

-- StoreLockedError, LeaseLostError, and the RuntimeError for a missing generation counter.
pub data LeaseError : Type 0 where
  locked lost no_generation : LeaseError

pub record WriterDoc : Type 0 where
  pub id : ℕ
  pub owner : ℕ
  pub heartbeat : ℕ

-- The singleton of fsck, which is inserted without a heartbeat.
pub record FsckDoc : Type 0 where
  pub owner : ℕ
  pub heartbeat : Option ℕ

-- The metadata collection at a moment; `layout` is `some none` where its document has no integer
-- generation.
pub record Collection : Type 0 where
  pub writers : List WriterDoc
  pub fsck : Option FsckDoc
  pub layout : Option (Option ℕ)
  pub now : ℕ

-- `_fresh_writer_documents`; the cutoff is `stale_after` in milliseconds.
unfoldable pub is_fresh : ℕ → ℕ → WriterDoc → Bool
is_fresh cutoff_ms now d = ltb (now - cutoff_ms) d.heartbeat

unfoldable pub fresh_writers : ℕ → ℕ → List WriterDoc → List WriterDoc
fresh_writers cutoff_ms now [] = []
fresh_writers cutoff_ms now (d ∷ ds) =
    let rest = fresh_writers cutoff_ms now ds in if is_fresh cutoff_ms now d then d ∷ rest else rest

-- The upsert of `acquire_writer`, whose id is new.
unfoldable pub register_writer : ℕ → ℕ → Collection → Collection
register_writer id owner c = record c {
  writers = record { id = id; owner = owner; heartbeat = c.now } ∷ c.writers;
}

-- What `acquire_writer` finds after it: the generation.
unfoldable pub layout_generation : Option (Option ℕ) → Result LeaseError ℕ
layout_generation none = err no_generation
layout_generation (some none) = err no_generation
layout_generation (some (some generation)) = ok generation

unfoldable pub check_writer : Collection → Result LeaseError ℕ
unfolding layout_generation
check_writer c = elim c.fsck [ some d ↦ err locked | none ↦ layout_generation c.layout ]

-- `Lease.release` of a writer.
unfoldable pub without : ℕ → ℕ → List WriterDoc → List WriterDoc
without id owner [] = []
without id owner (d ∷ ds) =
    let rest = without id owner ds in if eqb d.id id && eqb d.owner owner then rest else d ∷ rest

unfoldable pub release_writer : ℕ → ℕ → Collection → Collection
unfolding without
release_writer id owner c = record c { writers = without id owner c.writers }

-- `acquire_writer`, with nothing between its two calls of the server.
unfoldable pub checked_writer :
    ℕ → ℕ → Collection → Result LeaseError ℕ → Result LeaseError ℕ × Collection
checked_writer id owner c (ok generation) = (ok generation, c)
checked_writer id owner c (err e) = (err e, release_writer id owner c)

unfoldable pub acquire_writer : ℕ → ℕ → Collection → Result LeaseError ℕ × Collection
unfolding checked_writer
acquire_writer id owner c =
    let c' = register_writer id owner c in checked_writer id owner c' (check_writer c')

-- A heartbeat of fsck that is not after the cutoff; the server orders a missing one first.
unfoldable pub is_stale : ℕ → ℕ → Option ℕ → Bool
is_stale cutoff_ms now none = true
is_stale cutoff_ms now (some heartbeat) = leb heartbeat (now - cutoff_ms)

-- The insert of `acquire_fsck`, and under `force` the replacement of a stale singleton.
unfoldable pub install_fsck : ℕ → Bool → ℕ → Collection → Result LeaseError Collection
unfolding is_stale
install_fsck cutoff_ms force owner c = elim c.fsck [
  | none ↦ ok (record c { fsck = some (record { owner = owner; heartbeat = none }) })
  | some d ↦
      if force && is_stale cutoff_ms c.now d.heartbeat
      then ok (record c { fsck = some (record { owner = owner; heartbeat = some c.now }) })
      else err locked
]

-- `refresh_heartbeat` of the fsck lease.
unfoldable pub refresh_fsck : ℕ → Collection → Result LeaseError Collection
refresh_fsck owner c = elim c.fsck [
  | none ↦ err lost
  | some d ↦
      if eqb d.owner owner
      then ok (record c { fsck = some (record { owner = owner; heartbeat = some c.now }) })
      else err lost
]

-- `Lease.release` of fsck.
unfoldable pub release_fsck : ℕ → Collection → Collection
release_fsck owner c = elim c.fsck [
  | none ↦ c
  | some d ↦ if eqb d.owner owner then record c { fsck = none } else c
]

-- `refresh_heartbeat` of a writer lease; `none` is an update that matched no document.
unfoldable pub with_heartbeat : ℕ → ℕ → ℕ → List WriterDoc → Option (List WriterDoc)
with_heartbeat id owner now [] = none
with_heartbeat id owner now (d ∷ ds) =
    let rest = with_heartbeat id owner now ds in
    if eqb d.id id && eqb d.owner owner
    then some (record d { heartbeat = now } ∷ ds)
    else elim rest [ none ↦ none | some ds' ↦ some (d ∷ ds') ]

unfoldable pub refresh_writer : ℕ → ℕ → Collection → Result LeaseError Collection
unfolding with_heartbeat
refresh_writer id owner c = elim (with_heartbeat id owner c.now c.writers) [
  | none ↦ err lost
  | some ds ↦ ok (record c { writers = ds })
]

-- The answer of the fresh query: the documents' ids.
unfoldable pub ids_of : List WriterDoc → List ℕ
ids_of [] = []
ids_of (d ∷ ds) = d.id ∷ ids_of ds

-- The first query of a round of `acquire_fsck`: whether no writer is fresh.
unfoldable pub sees_none : ℕ → Collection → Bool
unfolding fresh_writers
sees_none cutoff_ms c = elim (fresh_writers cutoff_ms c.now c.writers) [
  | [] ↦ true
  | d ∷ ds ↦ false
]

-- `_stale_writer_documents` in its two calls of the server: a fresh query of its own, and the
-- `find` whose documents that query did not return.
unfoldable pub fresh_ids : ℕ → Collection → List ℕ
unfolding fresh_writers ids_of
fresh_ids cutoff_ms c = ids_of (fresh_writers cutoff_ms c.now c.writers)

unfoldable pub id_in : ℕ → List ℕ → Bool
id_in id [] = false
id_in id (n ∷ ns) = eqb n id || id_in id ns

unfoldable pub stale_writers : List ℕ → List WriterDoc → List WriterDoc
unfolding id_in
stale_writers fresh [] = []
stale_writers fresh (d ∷ ds) =
    let rest = stale_writers fresh ds in if id_in d.id fresh then rest else d ∷ rest

-- The guard on the stale documents.
unfoldable pub drained : Bool → List WriterDoc → Result LeaseError Bool
drained force [] = ok true
drained force (d ∷ ds) = if force then ok true else err locked

-- A round of the loop of `acquire_fsck` over the collection as each of its three calls finds it:
-- `ok true` returns the lease, `ok false` sleeps.
unfoldable pub poll_writers :
    ℕ → Bool → Collection → Collection → Collection → Result LeaseError Bool
unfolding sees_none fresh_ids stale_writers drained
poll_writers cutoff_ms force first second third =
    if sees_none cutoff_ms first
    then drained force (stale_writers (fresh_ids cutoff_ms second) third.writers)
    else ok false

-- `clear_stale_lock`
unfoldable pub clear_stale_lock : ℕ → Collection → Result LeaseError Collection
unfolding is_stale
clear_stale_lock cutoff_ms c = elim c.fsck [
  | none ↦ ok c
  | some d ↦
      if is_stale cutoff_ms c.now d.heartbeat then ok (record c { fsck = none }) else err locked
]
