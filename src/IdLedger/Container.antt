-- ===== src/IdLedger/Container.antt =====
-- The sqlite container of an id ledger (id_ledger.py): its tables, the subject of a segment, and
-- what the ledger takes from httk.core.project.sealing and httk.core._json.
use httk_store.Prelude.{ℕ, suc, String, ◌≡◌, ◌≢◌, Option, none, some, List, [], ◌∷◌, map}
use httk_store.Prelude.Dict.{Dict, lookup}
use httk_store.IdLedger.Records.{Binding, assigned, alias_of, Record}
use httk_store.IdLedger.Ledger.{SigningKey}

-- A column's value, where the code tests its type.
pub data Cell : Type 0 where
  integer : ℕ → Cell
  text : String → Cell
  other : Cell

-- A row of `records`. Its text columns hold texts or NULL, by their declared types.
pub record RecordRow : Type 0 where
  pub seq : ℕ
  pub key : String
  pub family : Option String
  pub id : Option String
  pub alias_of : Option String
  pub supersedes : Option String

pub record SegmentRow : Type 0 where
  pub segment : Cell
  pub first_seq : Cell
  pub record_count : Cell
  pub created_at : String
  pub subject : Cell
  pub body_sha256 : Cell
  pub signatures : Cell

-- The tables by name, and the rows of each in the order of its primary key.
pub record Database : Type 0 where
  pub tables : List String
  pub meta : Dict String
  pub records : List RecordRow
  pub segments : List SegmentRow

-- What stands at the ledger's path.
pub data File : Type 0 where
  unreadable : File
  sqlite : Database → File

-- The signed subject of a segment, as `_write` makes it.
pub record Subject : Type 0 where
  pub ledger_format_version : ℕ
  pub ledger : String
  pub series : String
  pub bases : Dict String
  pub segment : ℕ
  pub first_record : ℕ
  pub record_count : ℕ

-- A subject read back: `none` is a field that is missing or has a value of another type.
pub record Document : Type 0 where
  pub ledger_format_version : Option ℕ
  pub ledger : Option String
  pub series : Option String
  pub bases : Option (List (String × Option String))
  pub segment : Option ℕ
  pub first_record : Option ℕ
  pub record_count : Option ℕ

-- The outcome of `json.loads` on a subject's text.
pub data Loaded : Type 0 where
  invalid_json : Loaded
  no_object : Loaded
  object : Document → Loaded

pub data Verdict : Type 0 where
  invalid valid_trusted valid_untrusted : Verdict

-- What a signature is: the stamp `created_at`, the body's digest, and the signatures' JSON text.
pub record Signed : Type 0 where
  pub created_at : String
  pub body_sha256 : String
  pub signatures : String

-- httk.core's JSON and sealing, as the ledger calls them. `sign` is `build_seal_body` with
-- `sign_seal_body`, and `none` their SealError; `load_signatures` is `json.loads`, and `none` a
-- text that is not JSON or no list; `verify` rebuilds the body and calls `verify_signed_body`.
pub record Seals : Type 0 where
  pub subject_text : Subject → String
  pub loads : String → Loaded
  pub sign : Subject → List Record → List SigningKey → Option Signed
  pub load_signatures : String → Option (List String)
  pub verify : Document → String → List Record → String → List String → List String → Verdict

-- Every key of a dict stands once: what is listed is what is found.
abbrev pub HasUniqueKeys : Dict String → Type 0
HasUniqueKeys [] = Unit
HasUniqueKeys ((k, v) ∷ d) = (lookup k d ≡ none) × HasUniqueKeys d

abbrev pub SameDict : Dict String → Dict String → Type 0
SameDict a b = (k : String) → lookup k a ≡ lookup k b

-- A document has the fields of a subject; its base map may have come back in another order.
pub record Holds (d : Document) (s : Subject) : Type 0 where
  pub ledger_format_version : d.ledger_format_version ≡ some s.ledger_format_version
  pub ledger : d.ledger ≡ some s.ledger
  pub series : d.series ≡ some s.series
  pub segment : d.segment ≡ some s.segment
  pub first_record : d.first_record ≡ some s.first_record
  pub record_count : d.record_count ≡ some s.record_count
  pub base_map : Dict String
  pub bases : d.bases ≡ some (map (λ p. (p.0, some p.1)) base_map)
  pub unique_keys : HasUniqueKeys base_map
  pub same_bases : SameDict base_map s.bases

-- What a write of the subject `s` relies on: its text is read back with its fields, and what was
-- signed over it and its records is not found invalid over the same.
pub record SealLaws (seals : Seals) (s : Subject) : Type 0 where
  pub loads-subject_text :
      (d : Document) × (seals.loads (seals.subject_text s) ≡ object d) × Holds d s
  pub verify-sign :
      (d : Document) (rs : List Record) (keys : List SigningKey) (signed : Signed)
      → seals.sign s rs keys ≡ some signed
      → seals.loads (seals.subject_text s) ≡ object d
      → (list : List String) × (seals.load_signatures signed.signatures ≡ some list)
        × (seals.verify d signed.created_at rs signed.body_sha256 list [] ≢ invalid)

-- `_row_to_record`; `str(None)` is "None".
unfoldable pub str : Option String → String
str none = "None"
str (some s) = s

unfoldable pub row_binding : Option String → Option String → Option String → Binding
unfolding str
row_binding family id (some target) = alias_of target
row_binding family id none = assigned (str family) (str id)

unfoldable pub row_to_record : RecordRow → Record
unfolding row_binding
row_to_record row = record {
  key = row.key;
  binding = row_binding row.family row.id row.alias_of;
  supersedes = row.supersedes;
}

-- The values that `_write` inserts for a record: `record.get(column)`.
unfoldable pub record_to_row : ℕ → String → Binding → Option String → RecordRow
record_to_row seq key (assigned family id) supersedes = record {
  seq = seq;
  key = key;
  family = some family;
  id = some id;
  alias_of = none;
  supersedes = supersedes;
}
record_to_row seq key (alias_of target) supersedes = record {
  seq = seq;
  key = key;
  family = none;
  id = none;
  alias_of = some target;
  supersedes = supersedes;
}

-- The rows of records numbered from `seq` on.
unfoldable pub rows_from : ℕ → List Record → List RecordRow
unfolding record_to_row
rows_from seq [] = []
rows_from seq (r ∷ rs) = record_to_row seq r.key r.binding r.supersedes ∷ rows_from (suc seq) rs
