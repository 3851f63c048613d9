-- ===== src/IdLedger/Storage/Session.antt =====
-- `IdLedger.create`, `IdLedger.open` and `IdLedger.close` (id_ledger.py).
pub mod Locks
pub mod Exclusion
use httk_store.Prelude.{
  ℕ, String, Bool, true, false, Option, none, some, List, [], length, ◌==◌, if◌then◌else◌, Result,
  ok, err, ◌>>=◌, ◌>>◌, or_raise,
}
use httk_store.Prelude.Dict.{Dict}
use httk_store.IdLedger.Errors.{
  Error, lock_held, already_exists, missing_file, unexpected_series, read_only_growth,
}
use httk_store.IdLedger.Records.{EntryIds}
use httk_store.IdLedger.Ledger.{Ledger, SigningKey}
use httk_store.IdLedger.Container.{Seals}
use httk_store.IdLedger.Bases.{validate_bases, extend_bases}
use httk_store.IdLedger.Segments.{guard}
use httk_store.IdLedger.Storage.{World, Contents, read_and_validate, write}

-- The empty ledger of `create`.
unfoldable pub empty_ledger : Dict String → String → String → List SigningKey → Ledger
empty_ledger bases series ledger_uuid keys = record {
  bases = bases;
  series = series;
  ledger_uuid = ledger_uuid;
  keys = keys;
  records = [];
  live = [];
  persisted = 0;
  segments = 0;
  read_only = false;
  dirty = false;
  closed = false;
}

-- The end of `create`: a failed first write leaves neither a partial file nor the lock.
unfoldable pub finish_create :
    Result Error (Unit {0}) × Ledger × World → Result Error Ledger × World
finish_create (ok _, l, w) = (ok l, w)
finish_create (err e, l, w) = (err e, record { file = none; lock = false })

-- `create` under the lock.
unfoldable pub create_locked :
    Seals
    → Bool
    → Ledger
    → Option httk_store.IdLedger.Container.File
    → World
    → Result Error Ledger × World
create_locked seals commits l (some f) w = (err already_exists, record w { lock = false })
create_locked seals commits l none w = finish_create (write seals commits l w)

-- `create` from the lock on.
unfoldable pub create_checked : Seals → Bool → Ledger → World → Result Error Ledger × World
create_checked seals commits l w =
    if w.lock
    then (err lock_held, w)
    else create_locked seals commits l w.file (record w { lock = true })

-- `create`; `ledger_uuid` is the fresh uuid.
unfoldable pub create :
    EntryIds
    → Seals
    → Bool
    → String
    → Dict String
    → String
    → List SigningKey
    → World
    → Result Error Ledger × World
create ids seals commits ledger_uuid bases series keys w = elim (validate_bases ids bases series) [
  | err e ↦ (err e, w)
  | ok checked ↦ create_checked seals commits (empty_ledger checked series ledger_uuid keys) w
]

-- The arguments of `open`.
pub record OpenArgs : Type 0 where
  pub keys : List SigningKey
  pub trusted_keys : List String
  pub verify : Bool
  pub bases : Option (Dict String)
  pub series : Option String
  pub read_only : Bool

unfoldable pub check_series : Option String → String → Result Error (Unit {0})
check_series none stored = ok tt
check_series (some expected) stored = guard (expected == stored) unexpected_series

-- The base map of the opened ledger, and whether a family was added to it.
unfoldable pub effective_bases :
    EntryIds → Option (Dict String) → Bool → Contents → Result Error (Dict String × Bool)
effective_bases ids none read_only c = ok (c.bases, false)
effective_bases ids (some expected) read_only c = do
  (bases, added) ← extend_bases ids c.bases expected c.series
  if added
      then (if read_only then err read_only_growth else ok (bases, added))
      else ok (bases, added)

-- The body of `open`, after the lock was taken.
unfoldable pub load :
    EntryIds → Seals → OpenArgs → Option httk_store.IdLedger.Container.File → Result Error Ledger
load ids seals args file = do
  f ← or_raise file missing_file
  c ← read_and_validate ids seals args.verify args.trusted_keys f
  check_series args.series c.series
  (bases, added) ← effective_bases ids args.bases args.read_only c
  ok (record {
    bases = bases;
    series = c.series;
    ledger_uuid = c.ledger_uuid;
    keys = args.keys;
    records = c.records;
    live = c.live;
    persisted = length c.records;
    segments = c.segments;
    read_only = args.read_only;
    dirty = added;
    closed = false;
  })

-- An error of a writing `open` releases the lock.
unfoldable pub open_locked : Result Error Ledger → World → Result Error Ledger × World
open_locked (ok l) w = (ok l, record w { lock = true })
open_locked (err e) w = (err e, record w { lock = false })

-- `open`
unfoldable pub open_ledger : EntryIds → Seals → OpenArgs → World → Result Error Ledger × World
open_ledger ids seals args w =
    if args.read_only
    then (load ids seals args w.file, w)
    else if w.lock
    then (err lock_held, w)
    else open_locked (load ids seals args w.file) w

-- The end of `close`: a failed write leaves the ledger open and the lock held.
unfoldable pub finish_close :
    Result Error (Unit {0}) × Ledger × World → Result Error (Unit {0}) × Ledger × World
finish_close (ok _, l, w) = (ok tt, record l { closed = true }, record w { lock = false })
finish_close (err e, l, w) = (err e, l, w)

-- `close`
unfoldable pub close : Seals → Bool → Ledger → World → Result Error (Unit {0}) × Ledger × World
close seals commits l w =
    if l.closed
    then (ok tt, l, w)
    else if l.read_only
    then (ok tt, record l { closed = true }, w)
    else if l.dirty
    then finish_close (write seals commits l w)
    else finish_close (ok tt, l, w)
