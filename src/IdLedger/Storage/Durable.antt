-- ===== src/IdLedger/Storage/Durable.antt =====
-- A session of an id ledger and the next one: `_write`, `close` and `open` (id_ledger.py).
use httk_store.Prelude.{
  String, ◌≡◌, ◌≢◌, refl, ap, sym, ◌∙◌, subst, Bool, true, false, none, some, List, [], ◌∷◌, length,
  Result, ok, err, >>=-step, if_true, if_false, Bool-cases, inl, inr,
}
use httk_store.Prelude.Dict
use httk_store.Prelude.Dict.{Dict}
use httk_store.IdLedger.Errors.{Error}
use httk_store.IdLedger.Records.{EntryIds}
use httk_store.IdLedger.Ledger.{Ledger, SigningKey, lookup}
use httk_store.IdLedger.Ledger.Invariant.{IsValid}
use httk_store.IdLedger.Container.{Seals, SealLaws, Signed, Database, File, sqlite, SameDict}
use httk_store.IdLedger.Storage.{
  World, read_and_validate, next_subject, new_records, connect, insert_all, committed,
  with_database, write_signed, write,
}
use httk_store.IdLedger.Storage.Session.{
  OpenArgs, load, open_ledger, open_locked, check_series, effective_bases, close, finish_close,
}
use httk_store.IdLedger.Storage.Roundtrip.{
  IsStored, new_records-unsaved, written, insert_all-written, written-IsStored, holds, read_base,
  read-written,
}

-- A write with keys goes on to sign.
write-signs :
    (seals : Seals) (commits : Bool) (l : Ledger) (w : World) (keys : List SigningKey)
    → l.keys ≡ keys
    → keys ≢ []
    → write seals commits l w
      ≡ write_signed seals commits
          (seals.sign (next_subject l (new_records l)) (new_records l) l.keys)
          l
          w
unfolding write
write-signs seals commits l w [] e has_keys = absurd (has_keys refl)
write-signs seals commits l w (k ∷ ks) e has_keys =
    let signs =
      write_signed seals commits
        (seals.sign (next_subject l (new_records l)) (new_records l) l.keys) l w in
    subst (λ keys. elim keys [ [] ↦ (err Error.seal_error, l, w) | _ ∷ _ ↦ signs ] ≡ signs) (sym e)
      refl

-- What is signed and committed is in the file.
write_signed-commits :
    (seals : Seals) (l : Ledger) (w : World) (db db' : Database) (signed : Signed)
    → connect l w.file ≡ some db
    → insert_all seals l signed db ≡ some db'
    → write_signed seals true (some signed) l w ≡ (ok tt, committed l, with_database db' w)
unfolding write_signed committed
write_signed-commits seals l w db db' signed c i = rw (write_signed, c, i)

-- A ledger whose next write succeeds.
pub record CanWrite (seals : Seals) (l : Ledger) (w : World) : Type 0 where
  pub db : Database
  pub stored : IsStored seals l db
  pub has_keys : l.keys ≢ []
  pub connected : connect l w.file ≡ some db
  pub signed : Signed
  pub was_signed : seals.sign (next_subject l (new_records l)) (new_records l) l.keys ≡ some signed
  pub laws : SealLaws seals (next_subject l (new_records l))
  pub family : String
  pub base : String
  pub declared : Dict.lookup family l.bases ≡ some base

-- The file holds the ledger: it is accepted as such, with or without a check of the signatures.
abbrev pub ReadsBack : EntryIds → Seals → Ledger → File → Type 0
ReadsBack ids seals l f =
    (bases : Dict String) × SameDict bases l.bases
    × ((verify : Bool)
        → read_and_validate ids seals verify [] f
          ≡ ok (record {
            bases = bases;
            series = l.series;
            ledger_uuid = l.ledger_uuid;
            records = l.records;
            live = l.live;
            segments = l.segments;
          }))

-- A close that has something to write and can write it ends the session.
close-writes :
    (seals : Seals) (commits : Bool) (l l' : Ledger) (w w' : World)
    → l.closed ≡ false
    → l.read_only ≡ false
    → l.dirty ≡ true
    → write seals commits l w ≡ (ok tt, l', w')
    → close seals commits l w ≡ (ok tt, record l' { closed = true }, record w' { lock = false })
unfolding close finish_close
close-writes seals commits l l' w w' c o d e =
    if_false _ _ c ∙ if_false _ _ o ∙ if_true _ _ d ∙ ap finish_close e

-- An open that finds no lock returns what is loaded.
open-loads :
    (ids : EntryIds) (seals : Seals) (args : OpenArgs) (w : World) (l : Ledger)
    → w.lock ≡ false
    → load ids seals args w.file ≡ ok l
    → (open_ledger ids seals args w).0 ≡ ok l
unfolding open_ledger open_locked
open-loads ids seals args w l free e = elim (Bool-cases args.read_only) [
  | inl y ↦ ap (λ (p : Result Error Ledger × World). p.0) (if_true _ _ y) ∙ e
  | inr n ↦
      ap (λ (p : Result Error Ledger × World). p.0) (if_false _ _ n ∙ if_false _ _ free)
      ∙ ap (λ (r : Result Error Ledger). (open_locked r w).0) e
]

-- The arguments of an `open` that expects no series and no bases of its own.
abbrev pub plain_args : List SigningKey → Bool → Bool → OpenArgs
plain_args keys verify read_only = record {
  keys = keys;
  trusted_keys = [];
  verify = verify;
  bases = none;
  series = none;
  read_only = read_only;
}

load-written :
    (ids : EntryIds) (seals : Seals) (l : Ledger) (f : File) (keys : List SigningKey)
    (verify read_only : Bool) (back : ReadsBack ids seals l f)
    → load ids seals (plain_args keys verify read_only) (some f)
      ≡ ok (record {
        bases = back.0;
        series = l.series;
        ledger_uuid = l.ledger_uuid;
        keys = keys;
        records = l.records;
        live = l.live;
        persisted = length l.records;
        segments = l.segments;
        read_only = read_only;
        dirty = false;
        closed = false;
      })
unfolding load check_series effective_bases
load-written ids seals l f keys verify read_only back = >>=-step _ _ (back.2 verify) refl

module _ (ids : EntryIds) (seals : Seals) (l : Ledger) (w : World) (v : IsValid ids l)
    (can : CanWrite seals l w) where
  saved : new_records l ≡ can.stored.unsaved
  saved = new_records-unsaved seals l can.db can.stored

  laws_unsaved : SealLaws seals (next_subject l can.stored.unsaved)
  laws_unsaved = subst (λ rs. SealLaws seals (next_subject l rs)) saved can.laws

  signed_unsaved :
      seals.sign (next_subject l can.stored.unsaved) can.stored.unsaved l.keys ≡ some can.signed
  signed_unsaved =
      subst (λ rs. seals.sign (next_subject l rs) rs l.keys ≡ some can.signed) saved can.was_signed

  pub new_database : Database
  new_database = written seals l can.db can.stored laws_unsaved can.signed signed_unsaved

  pub write_succeeds : write seals true l w ≡ (ok tt, committed l, with_database new_database w)
  unfolding new_database
  write_succeeds =
      write-signs seals true l w l.keys refl can.has_keys
      ∙ ap (λ o. write_signed seals true o l w) can.was_signed
      ∙ write_signed-commits seals l w can.db _ can.signed can.connected
          (insert_all-written seals l can.db can.stored laws_unsaved can.signed signed_unsaved)

  pub new_database-IsStored : IsStored seals (committed l) new_database
  unfolding new_database
  new_database-IsStored =
      written-IsStored seals l can.db can.stored laws_unsaved can.signed signed_unsaved can.family
        can.base can.declared

  pub new_database-ReadsBack : ReadsBack ids seals (committed l) (sqlite new_database)
  unfolding new_database committed
  new_database-ReadsBack = (
    (holds seals l can.db can.stored laws_unsaved can.signed signed_unsaved).base_map,
    read_base seals l can.db can.stored laws_unsaved can.signed signed_unsaved,
    λ verify.
        read-written seals l can.db can.stored laws_unsaved can.signed signed_unsaved ids verify
          can.family can.base can.declared v,
  )

  -- A write that has keys, whose signature succeeds and that sqlite commits returns normally. It
  -- leaves a file from which a reader, checking the signatures or not, gets back exactly the
  -- ledger that was written: its records, its live bindings and, up to their order, its bases.
  -- The file again satisfies what the next write needs of it.
  pub write_durable :
      (db' : Database) × (write seals true l w ≡ (ok tt, committed l, with_database db' w))
      × IsStored seals (committed l) db'
      × ReadsBack ids seals (committed l) (sqlite db')
  write_durable = (new_database, write_succeeds, new_database-IsStored, new_database-ReadsBack)

  -- Let a changed ledger be valid and open for writing, with signing keys and a base, its file
  -- hold what it loaded or saved last, signing its new segment succeed with what the sealing laws
  -- promise, and sqlite commit. Then closing it gives the lock up, and whoever opens the file next,
  -- to read or to write, with or without a check of the signatures, and with no trusted keys and
  -- no expected series or bases given, gets a ledger with the same records in which every key is
  -- bound to the id it was bound to.
  pub close_then_open :
      (verify read_only : Bool) (keys : List SigningKey)
      → l.closed ≡ false
      → l.read_only ≡ false
      → l.dirty ≡ true
      → (w' : World) × (l₂ : Ledger) × (close seals true l w
          ≡ (ok tt, record (committed l) { closed = true }, w'))
        × (w'.lock ≡ false)
        × ((open_ledger ids seals (plain_args keys verify read_only) w').0 ≡ ok l₂)
        × (l₂.records ≡ l.records)
        × ((key : String) → lookup key l₂ ≡ lookup key l)
  unfolding lookup committed
  close_then_open verify read_only keys c o d = (
    _,
    _,
    close-writes seals true l (committed l) w (with_database new_database w) c o d write_succeeds,
    refl,
    open-loads ids seals (plain_args keys verify read_only)
        (record { file = some (sqlite new_database); lock = false }) _ refl
        (load-written ids seals (committed l) (sqlite new_database) keys verify read_only
          new_database-ReadsBack),
    refl,
    λ key. refl,
  )
