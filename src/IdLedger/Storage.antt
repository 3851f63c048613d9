-- ===== src/IdLedger/Storage.antt =====
-- The lifecycle of an id ledger (id_ledger.py): `create`, `open`, `_write` and `close`, over the
-- one file at the ledger's path and the lock file beside it.
pub mod Session
pub mod Loaded
pub mod Rows
pub mod Accepted
pub mod Roundtrip
pub mod Durable
mod Tests
use mathlib.Core.Option
use httk_store.Prelude.{
  ℕ, zero, suc, ◌+◌, String, Bool, true, false, Option, none, some, List, [], ◌∷◌, ◌++◌, ◌==◌, ◌&&◌,
  not, if◌then◌else◌, ltb, eqb, length, drop, contains, map, Result, ok, err, ◌>>=◌, ◌>>◌, or_raise,
}
use httk_store.Prelude.Dict.{Dict, lookup}
use httk_store.IdLedger.Errors.{
  Error, unreadable, not_a_container, wrong_format, wrong_version, bad_series, bad_uuid, lock_held,
  already_exists, missing_file, unexpected_series, read_only_growth, seal_error, sqlite_error,
}
use httk_store.IdLedger.Records.{Record, EntryIds}
use httk_store.IdLedger.Validate.{validate_entries}
use httk_store.IdLedger.Ledger.{Ledger, SigningKey}
use httk_store.IdLedger.Container.{
  Cell, integer, text, RecordRow, SegmentRow, Database, File, sqlite, Subject, Signed, Seals,
  row_to_record, rows_from,
}
use httk_store.IdLedger.Bases.{validate_bases, extend_bases}
use httk_store.IdLedger.Segments.{ledger_format_version, guard, is_text, Check, validate_segments}

-- The ledger's file, if there is one, and whether its lock file exists.
pub record World : Type 0 where
  pub file : Option File
  pub lock : Bool

abbrev pub ledger_format : String
ledger_format = "httk-idledger-sqlite"

-- `_require_ledger_tables`
unfoldable pub has_tables : List String → Bool
has_tables present =
    contains "meta" present && contains "records" present && contains "segments" present

-- A text that is there and not empty.
abbrev pub non_empty : Option String → Error → Result Error String
non_empty none e = err e
non_empty (some s) e = if s == "" then err e else ok s

-- `_validate_meta`
unfoldable pub validate_meta : Dict String → Result Error (String × String)
validate_meta meta = do
  guard (is_text (lookup "format" meta) ledger_format) wrong_format
  guard (is_text (lookup "ledger_format_version" meta) "1") wrong_version
  series ← non_empty (lookup "series" meta) bad_series
  ledger_uuid ← non_empty (lookup "ledger" meta) bad_uuid
  ok (series, ledger_uuid)

-- What `_read_and_validate` returns.
pub record Contents : Type 0 where
  pub bases : Dict String
  pub series : String
  pub ledger_uuid : String
  pub records : List Record
  pub live : Dict Record
  pub segments : ℕ

unfoldable pub as_database : File → Result Error Database
as_database File.unreadable = err unreadable
as_database (sqlite db) = ok db

-- `_read_and_validate`
unfoldable pub read_and_validate :
    EntryIds → Seals → Bool → List String → File → Result Error Contents
unfolding as_database
read_and_validate ids seals verify trusted_keys file = do
  db ← as_database file
  guard (has_tables db.tables) not_a_container
  (series, ledger_uuid) ← validate_meta db.meta
  let check : Check = record {
    series = series;
    ledger_uuid = ledger_uuid;
    verify = verify;
    trusted_keys = trusted_keys;
  }
  bases ← validate_segments seals check db.segments db.records
  (records, live) ← validate_entries ids bases series (map row_to_record db.records)
  ok (record {
    bases = bases;
    series = series;
    ledger_uuid = ledger_uuid;
    records = records;
    live = live;
    segments = length db.segments;
  })

-- The database that `_initialize_schema` lays down in a new file.
unfoldable pub initial_database : String → String → Database
initial_database series ledger_uuid = record {
  tables = "meta" ∷ "records" ∷ "segments" ∷ [];
  meta =
      ("format", ledger_format)
      ∷ ("ledger_format_version", "1")
      ∷ ("ledger", ledger_uuid)
      ∷ ("series", series)
      ∷ [];
  records = [];
  segments = [];
}

-- `INSERT INTO records`: a sequence number that is taken is an IntegrityError.
unfoldable pub insert_record : RecordRow → List RecordRow → Option (List RecordRow)
insert_record r [] = some (r ∷ [])
insert_record r (x ∷ xs) =
    let later = insert_record r xs in
    if ltb r.seq x.seq
    then some (r ∷ x ∷ xs)
    else if eqb r.seq x.seq
    then none
    else Option.map (λ ys. x ∷ ys) later

unfoldable pub insert_records : List RecordRow → List RecordRow → Option (List RecordRow)
unfolding insert_record
insert_records [] table = some table
insert_records (r ∷ rs) table = elim (insert_record r table) [
  | none ↦ none
  | some table' ↦ insert_records rs table'
]

-- `INSERT INTO segments`; the column is an integer key.
unfoldable pub insert_segment : ℕ → SegmentRow → List SegmentRow → Option (List SegmentRow)
insert_segment n s [] = some (s ∷ [])
insert_segment n s (x ∷ xs) =
    let later = insert_segment n s xs in
    elim x.segment [
      | integer m ↦
          if ltb n m
          then some (s ∷ x ∷ xs)
          else if eqb n m
          then none
          else Option.map (λ ys. x ∷ ys) later
      | _ ↦ Option.map (λ ys. x ∷ ys) later
    ]

-- The subject of the segment that `_write` adds.
unfoldable pub next_subject : Ledger → List Record → Subject
next_subject l new_records = record {
  ledger_format_version = ledger_format_version;
  ledger = l.ledger_uuid;
  series = l.series;
  bases = l.bases;
  segment = l.segments + 1;
  first_record = l.persisted + 1;
  record_count = length new_records;
}

unfoldable pub next_segment : Seals → Ledger → List Record → Signed → SegmentRow
unfolding next_subject
next_segment seals l new_records signed = record {
  segment = integer (l.segments + 1);
  first_seq = integer (l.persisted + 1);
  record_count = integer (length new_records);
  created_at = signed.created_at;
  subject = text (seals.subject_text (next_subject l new_records));
  body_sha256 = text signed.body_sha256;
  signatures = text signed.signatures;
}

-- The records that are not stored yet: `self._records[self._persisted :]`.
unfoldable pub new_records : Ledger → List Record
new_records l = drop l.persisted l.records

-- The database that the connection writes to. A first write lays the schema down in a new file;
-- where the tables are there already, sqlite refuses it.
unfoldable pub connect : Ledger → Option File → Option Database
unfolding initial_database
connect l file = elim (eqb l.segments 0) [
  | true ↦ elim file [ none ↦ some (initial_database l.series l.ledger_uuid) | some f ↦ none ]
  | false ↦ elim file [ some (sqlite db) ↦ some db | _ ↦ none ]
]

-- The transaction: the rows of the new records, and the segment.
unfoldable pub insert_all : Seals → Ledger → Signed → Database → Option Database
insert_all seals l signed db =
    elim (insert_records (rows_from (l.persisted + 1) (new_records l)) db.records) [
      | none ↦ none
      | some records ↦
          elim (insert_segment (l.segments + 1) (next_segment seals l (new_records l) signed)
            db.segments) [
              | none ↦ none
              | some segments ↦ some (record db { records = records; segments = segments })
            ]
    ]

-- The bookkeeping right after COMMIT.
unfoldable pub committed : Ledger → Ledger
committed l = record l {
  persisted = l.persisted + length (new_records l);
  segments = l.segments + 1;
  dirty = false;
}

abbrev pub with_database : Database → World → World
with_database db w = record w { file = some (sqlite db) }

-- From the signature on. `commits` is false where sqlite fails inside the transaction, which is
-- rolled back.
unfoldable pub write_signed :
    Seals → Bool → Option Signed → Ledger → World → Result Error (Unit {0}) × Ledger × World
write_signed seals commits none l w = (err seal_error, l, w)
write_signed seals commits (some signed) l w = elim (connect l w.file) [
  | none ↦ (err sqlite_error, l, w)
  | some db ↦ elim (if commits then insert_all seals l signed db else none) [
    | none ↦ (err sqlite_error, l, with_database db w)
    | some db' ↦ (ok tt, committed l, with_database db' w)
  ]
]

-- `_write`
unfoldable pub write : Seals → Bool → Ledger → World → Result Error (Unit {0}) × Ledger × World
unfolding write_signed
write seals commits l w = elim l.keys [
  | [] ↦ (err seal_error, l, w)
  | _ ∷ _ ↦
      write_signed seals commits
        (seals.sign (next_subject l (new_records l)) (new_records l) l.keys) l w
]
