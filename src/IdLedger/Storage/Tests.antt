-- ===== src/IdLedger/Storage/Tests.antt =====
-- Runs of the id ledger's sessions on a small ledger, with a stand-in for the signatures.
use httk_store.Prelude.{
  String, ◌≡◌, ◌≢◌, refl, true, false, Option, none, some, List, [], ◌∷◌, Result, ok, Post,
}
use httk_store.Prelude.Dict
use httk_store.Prelude.Dict.{Dict}
use httk_store.IdLedger.Errors.{Error}
use httk_store.IdLedger.Records.{next_number}
use httk_store.IdLedger.Ledger.{Ledger, SigningKey, assign, mint, append, require_open, lookup}
use httk_store.IdLedger.Ledger.Invariant.{IsValid}
use httk_store.IdLedger.Container.{
  Seals, SealLaws, Document, Subject, Signed, object, Verdict, valid_untrusted, Database, rows_from,
  File, sqlite,
}
use httk_store.IdLedger.Segments.{walk_segments, check_growth}
use httk_store.IdLedger.Storage.{
  World, next_subject, new_records, connect, initial_database, committed, with_database, write,
  has_tables, validate_meta,
}
use httk_store.IdLedger.Storage.Session.{empty_ledger, create, open_ledger, load, close}
use httk_store.IdLedger.Storage.Session.Locks.{Acquires, create-Acquires, open-Acquires}
use httk_store.IdLedger.Storage.Session.Exclusion.{
  Releases, close-Releases, Sys, here, next, create_step, IsExclusive, reached-IsExclusive, opened,
}
use httk_store.IdLedger.Storage.Loaded.{load-IsValid}
use httk_store.IdLedger.Storage.Roundtrip.{IsStored}
use httk_store.IdLedger.Storage.Durable.{
  CanWrite, ReadsBack, plain_args, write_durable, close_then_open,
}
use httk_store.IdLedger.Tests.{toy_ids, one_key, one_key-IsValid}

-- The subject of the first segment of the ledger with one key, and the same read back.
abbrev subject : Subject
subject = next_subject one_key (new_records one_key)

abbrev document : Document
document = record {
  ledger_format_version = some subject.ledger_format_version;
  ledger = some subject.ledger;
  series = some subject.series;
  bases = some (("structures", some "httk.org") ∷ []);
  segment = some subject.segment;
  first_record = some subject.first_record;
  record_count = some subject.record_count;
}

abbrev signed : Signed
signed = record { created_at = "2026-01-01"; body_sha256 = "digest"; signatures = "[]" }

-- Seals that know one subject.
abbrev toy_seals : Seals
toy_seals = record {
  subject_text = λ s. "subject";
  loads = λ t. object document;
  sign = λ s rs keys. some signed;
  load_signatures = λ t. some [];
  verify = λ d created_at rs digest list trusted. valid_untrusted;
}

distinct : valid_untrusted ≢ Verdict.invalid
distinct e = cc e

seal_laws : SealLaws toy_seals subject
unfolding assign mint append empty_ledger next_number Dict.lookup require_open next_subject
seal_laws = record {
  loads-subject_text = (
    document,
    refl,
    record {
      ledger_format_version = refl;
      ledger = refl;
      series = refl;
      segment = refl;
      first_record = refl;
      record_count = refl;
      base_map = ("structures", "httk.org") ∷ [];
      bases = refl;
      unique_keys = (refl, tt);
      same_bases = λ k. refl;
    },
  );
  verify-sign = λ d rs keys s e h. ([], refl, distinct);
}

-- A first write goes to a path with no file.
abbrev world : World
world = record { file = none; lock = true }

database-IsStored : IsStored toy_seals one_key (initial_database "a" "uuid-1")
unfolding assign mint append empty_ledger next_number Dict.lookup require_open initial_database
    has_tables validate_meta walk_segments check_growth rows_from
database-IsStored = record {
  tables = refl;
  meta = refl;
  stored = [];
  unsaved = one_key.records;
  parts = refl;
  persisted = refl;
  rows = refl;
  prev_bases = none;
  walk = λ v. refl;
  grown = λ later same. refl;
  numbered = tt;
  count = refl;
}

some_keys : (k : SigningKey) (ks : List SigningKey) → k ∷ ks ≢ []
some_keys k ks e = cc e

can_write : CanWrite toy_seals one_key world
unfolding assign mint append empty_ledger next_number Dict.lookup require_open connect
can_write = record {
  db = initial_database "a" "uuid-1";
  stored = database-IsStored;
  has_keys = some_keys ("release", 1 ∷ []) [];
  connected = refl;
  signed = signed;
  was_signed = refl;
  laws = seal_laws;
  family = "structures";
  base = "httk.org";
  declared = refl;
}

write_durable_example :
    (db' : Database) × (write toy_seals true one_key world
      ≡ (ok tt, committed one_key, with_database db' world))
    × IsStored toy_seals (committed one_key) db'
    × ReadsBack toy_ids toy_seals (committed one_key) (sqlite db')
write_durable_example = write_durable toy_ids toy_seals one_key world one_key-IsValid can_write

one_key_mode : (one_key.closed ≡ false) × (one_key.read_only ≡ false) × (one_key.dirty ≡ true)
unfolding assign mint append empty_ledger next_number Dict.lookup require_open
one_key_mode = (refl, refl, refl)

close_then_open_example :
    (w' : World) × (l₂ : Ledger) × (close toy_seals true one_key world
      ≡ (ok tt, record (committed one_key) { closed = true }, w'))
    × (w'.lock ≡ false)
    × ((open_ledger toy_ids toy_seals (plain_args [] true true) w').0 ≡ ok l₂)
    × (l₂.records ≡ one_key.records)
    × ((key : String) → lookup key l₂ ≡ lookup key one_key)
close_then_open_example =
    close_then_open toy_ids toy_seals one_key world one_key-IsValid can_write true true []
      one_key_mode.0 one_key_mode.1 one_key_mode.2

-- The file after a first write.
abbrev stored_file : Option File
stored_file = (write toy_seals true one_key world).2.file

load-IsValid_example :
    Post (IsValid toy_ids) (load toy_ids toy_seals (plain_args [] true false) stored_file)
load-IsValid_example = load-IsValid toy_ids toy_seals (plain_args [] true false) stored_file

abbrev no_files : World
no_files = record { file = none; lock = false }

abbrev created : Result Error Ledger × World
created =
    create toy_ids toy_seals true "uuid-1" (("structures", "httk.org") ∷ []) "a"
      (("release", 1 ∷ []) ∷ []) no_files

create-Acquires_example : Acquires no_files created
create-Acquires_example =
    create-Acquires toy_ids toy_seals true "uuid-1" (("structures", "httk.org") ∷ []) "a"
      (("release", 1 ∷ []) ∷ []) no_files

open-Acquires_example :
    Acquires no_files (open_ledger toy_ids toy_seals (plain_args [] true false) no_files)
open-Acquires_example = open-Acquires toy_ids toy_seals (plain_args [] true false) no_files refl

close-Releases_example : Releases world (close toy_seals false one_key world)
close-Releases_example = close-Releases toy_seals false one_key world one_key_mode.0 one_key_mode.1

-- One process creates the ledger.
abbrev nobody : Sys
nobody = record { world = no_files; session = λ p. none }

reached-IsExclusive_example : IsExclusive (opened nobody 7 created)
reached-IsExclusive_example =
    reached-IsExclusive toy_ids toy_seals nobody (opened nobody 7 created) (λ p. refl)
      (next here (
        create_step 7 true "uuid-1" (("structures", "httk.org") ∷ []) "a" (("release", 1 ∷ []) ∷ [])
          refl))
