-- ===== src/IdLedger/Storage/Roundtrip.antt =====
-- `_write` and `_read_and_validate` (id_ledger.py), one after the other.
use httk_store.Prelude.{
  ℕ, ◌+◌, String, ◌≡◌, ◌≢◌, refl, ap, sym, ◌∙◌, Bool, true, ◌&&◌, Option, none, some, List, [], ◌∷◌,
  ◌++◌, map, arith, length, length-append, drop, drop-append_length, eqb, Result, ok, >>=-step,
  append-nil,
}
use httk_store.Prelude.Dict.{Dict, lookup}
use httk_store.IdLedger.Errors.{Error}
use httk_store.IdLedger.Records.{Record, EntryIds}
use httk_store.IdLedger.Validate.{validate_entries}
use httk_store.IdLedger.Validate.Exact.{validate_entries_exact}
use httk_store.IdLedger.Ledger.{Ledger}
use httk_store.IdLedger.Ledger.Invariant.{IsValid, HasUniqueBases}
use httk_store.IdLedger.Container.{
  Seals, SealLaws, SegmentRow, RecordRow, Holds, Signed, Database, sqlite, SameDict, row_to_record,
  rows_from,
}
use httk_store.IdLedger.Bases.{duplicate_base}
use httk_store.IdLedger.Bases.Laws.{unique→duplicate_base}
use httk_store.IdLedger.Segments.{
  Check, Walk, start, walk_segments, check_growth, validate_segments, is_numbered, stored_bases,
}
use httk_store.IdLedger.Segments.Growth.{walk_segments-more, walk_segments-snoc}
use httk_store.IdLedger.Storage.{
  Contents, has_tables, validate_meta, read_and_validate, next_subject, next_segment, new_records,
  insert_all, committed,
}
use httk_store.IdLedger.Storage.Loaded.{Keeps, IsSound-mono}
use httk_store.IdLedger.Storage.Rows.{
  row_to_record-rows_from, rows_from-append, length-rows_from, is_numbered-rows_from,
  insert_records-rows_from, insert_segment-last, SegmentsBelow, SegmentsBelow-snoc,
}
use httk_store.IdLedger.Storage.Accepted.{
  own_check, has_grown-Keeps, guard-true, document, document-Holds, after, walk_segment-written,
}

-- The database holds the first records of the ledger, in segments that pass the check.
pub record IsStored (seals : Seals) (l : Ledger) (db : Database) : Type 0 where
  pub tables : has_tables db.tables ≡ true
  pub meta : validate_meta db.meta ≡ ok (l.series, l.ledger_uuid)
  pub stored : List Record
  pub unsaved : List Record
  pub parts : l.records ≡ stored ++ unsaved
  pub persisted : length stored ≡ l.persisted
  pub rows : db.records ≡ rows_from 1 stored
  pub prev_bases : Option (Dict String)
  pub walk :
      (verify : Bool)
      → walk_segments seals (own_check l verify) db.records start db.segments
        ≡ ok (record {
          index = l.segments + 1;
          prev_bases = prev_bases;
          expected_next = l.persisted + 1;
        })
  pub grown : (later : Dict String) → SameDict later l.bases → check_growth prev_bases later ≡ ok tt
  pub numbered : SegmentsBelow (l.segments + 1) db.segments
  pub count : length db.segments ≡ l.segments

validate_segments-nonempty :
    (seals : Seals) (c : Check) (ss : List SegmentRow) (rows : List RecordRow) (w : Walk)
    {bases : Dict String}
    → ss ≢ []
    → walk_segments seals c rows start ss ≡ ok w
    → (is_numbered 1 rows && eqb (length rows + 1) w.expected_next) ≡ true
    → stored_bases w.prev_bases ≡ ok bases
    → validate_segments seals c ss rows ≡ ok bases
unfolding validate_segments
validate_segments-nonempty seals c [] rows w some_segment walk numbered stored =
    absurd (some_segment refl)
validate_segments-nonempty seals c (s ∷ ss) rows w some_segment walk numbered stored =
    >>=-step _ _ walk (>>=-step _ _ (guard-true Error.partition numbered) stored)

stored_bases-ok : (d : Dict String) → duplicate_base d ≡ none → stored_bases (some d) ≡ ok d
unfolding stored_bases
stored_bases-ok d h = rw (h, stored_bases)

some_segment : (s : SegmentRow) (ss : List SegmentRow) → ss ++ s ∷ [] ≢ []
some_segment s [] e = cc
some_segment s (x ∷ ss) e = cc

-- What the ledger has not stored yet is what `_write` takes as new.
pub new_records-unsaved :
    (seals : Seals) (l : Ledger) (db : Database) (h : IsStored seals l db)
    → new_records l ≡ h.unsaved
unfolding new_records
new_records-unsaved seals l db h =
    ap (λ rs. drop l.persisted rs) h.parts
    ∙ ap (λ n. drop n (h.stored ++ h.unsaved)) (sym h.persisted)
    ∙ drop-append_length h.stored h.unsaved

module _ (seals : Seals) (l : Ledger) (db : Database) (h : IsStored seals l db)
    (laws : SealLaws seals (next_subject l h.unsaved)) (signed : Signed)
    (was_signed : seals.sign (next_subject l h.unsaved) h.unsaved l.keys ≡ some signed) where
  abbrev pub holds :
      Holds
        (document seals l h.stored h.unsaved laws signed was_signed h.prev_bases)
        (next_subject l h.unsaved)
  holds = document-Holds seals l h.stored h.unsaved laws signed was_signed h.prev_bases

  -- The database after the transaction.
  pub written : Database
  written = record db {
    records = rows_from 1 (h.stored ++ h.unsaved);
    segments = db.segments ++ next_segment seals l h.unsaved signed ∷ [];
  }

  pub insert_all-written : insert_all seals l signed db ≡ some written
  unfolding insert_all written
  insert_all-written =
      let rest = h.unsaved in
      rw (
        insert_all,
        (new_records-unsaved seals l db h),
        h.rows,
        ap (λ n. rows_from (n + 1) rest) (sym h.persisted),
        insert_records-rows_from h.stored rest,
        (new_records-unsaved seals l db h),
        insert_segment-last (l.segments + 1) (next_segment seals l rest signed) db.segments
            h.numbered,
      )

  pub read_base : SameDict holds.base_map l.bases
  unfolding next_subject
  read_base k = holds.same_bases k

  written-walk :
      (verify : Bool) (f b : String)
      → lookup f l.bases ≡ some b
      → walk_segments seals (own_check l verify) written.records start written.segments
        ≡ ok (after seals l h.stored h.unsaved laws signed was_signed h.prev_bases)
  unfolding written
  written-walk verify f b e =
      let c = own_check l verify in
      let rows = rows_from 1 (h.stored ++ h.unsaved) in
      let longer : walk_segments seals c rows start db.segments ≡ _ =
        rw (rows_from-append 1 h.stored h.unsaved) (
          walk_segments-more seals c (rows_from 1 h.stored)
            (rows_from (1 + length h.stored) h.unsaved) db.segments start _
            (rw h.rows at (h.walk verify))) in
      walk_segments-snoc seals c rows db.segments (next_segment seals l h.unsaved signed) start _
        longer
      ∙ walk_segment-written seals l h.stored h.unsaved laws signed was_signed h.prev_bases verify f
          b h.persisted e (h.grown holds.base_map read_base)

  same_walk :
      {n : ℕ}
      → n ≡ length h.unsaved
      → after seals l h.stored h.unsaved laws signed was_signed h.prev_bases ≡ record {
        index = l.segments + 1 + 1;
        prev_bases = some holds.base_map;
        expected_next = l.persisted + n + 1;
      }
  same_walk e = ground (arith, e)

  pub written-IsStored :
      (f b : String) → lookup f l.bases ≡ some b → IsStored seals (committed l) written
  unfolding written committed check_growth
  written-IsStored f b e = record {
    tables = h.tables;
    meta = h.meta;
    stored = l.records;
    unsaved = [];
    parts = sym (append-nil l.records);
    persisted = omega (
      arith,
      ap length h.parts,
      length-append h.stored h.unsaved,
      h.persisted,
      ap length (new_records-unsaved seals l db h),
    );
    rows = ap (rows_from 1) (sym h.parts);
    prev_bases = some holds.base_map;
    walk = λ v.
        written-walk v f b e ∙ ap ok (same_walk (ap length (new_records-unsaved seals l db h)));
    grown = λ later same. guard-true _ (
        has_grown-Keeps holds.base_map later holds.unique_keys
          (λ k c found. same k ∙ sym (read_base k) ∙ found));
    numbered =
        SegmentsBelow-snoc (l.segments + 1) db.segments (next_segment seals l h.unsaved signed)
          h.numbered (unfold next_segment in refl);
    count =
        omega
          (arith, length-append db.segments (next_segment seals l h.unsaved signed ∷ []), h.count);
  }

  unique : HasUniqueBases l.bases → HasUniqueBases holds.base_map
  unique u f g b e k = u f g b (sym (read_base f) ∙ e) (sym (read_base g) ∙ k)

  validate_segments-written :
      (verify : Bool) (f b : String)
      → lookup f l.bases ≡ some b
      → HasUniqueBases l.bases
      → validate_segments seals (own_check l verify) written.segments written.records
        ≡ ok holds.base_map
  validate_segments-written verify f b e u =
      validate_segments-nonempty seals (own_check l verify) written.segments written.records _
        (unfold written in some_segment (next_segment seals l h.unsaved signed) db.segments)
        (written-walk verify f b e) (unfold written in covers)
        (stored_bases-ok holds.base_map
          (unique→duplicate_base holds.base_map holds.unique_keys (unique u)))
    where
      covers :
          (is_numbered 1 (rows_from 1 (h.stored ++ h.unsaved))
            && eqb
                (length (rows_from 1 (h.stored ++ h.unsaved)) + 1)
                (l.persisted + 1 + length h.unsaved))
          ≡ true
      covers =
          let all = h.stored ++ h.unsaved in
          ground (
            arith,
            is_numbered-rows_from 1 all,
            length-rows_from 1 all,
            length-append h.stored h.unsaved,
            h.persisted,
          )

  segment_count : length written.segments ≡ l.segments + 1
  unfolding written
  segment_count =
      omega (arith, length-append db.segments (next_segment seals l h.unsaved signed ∷ []), h.count)

  -- What is read from the database after the transaction.
  abbrev pub contents : Contents
  contents = record {
    bases = holds.base_map;
    series = l.series;
    ledger_uuid = l.ledger_uuid;
    records = l.records;
    live = l.live;
    segments = l.segments + 1;
  }

  pub read-written :
      (ids : EntryIds) (verify : Bool) (f b : String)
      → lookup f l.bases ≡ some b
      → IsValid ids l
      → read_and_validate ids seals verify [] (sqlite written) ≡ ok contents
  unfolding read_and_validate
  read-written ids verify f b e v = >>=-step _ _ (guard-true _ tables) (
      >>=-step _ _ meta (
        >>=-step _ _ (validate_segments-written verify f b e v.unique_bases)
          (>>=-step _ _ entries (segments_back))))
    where
      keeps : Keeps l.bases holds.base_map
      keeps k c found = read_base k ∙ found

      tables : has_tables written.tables ≡ true
      tables = unfold written in h.tables

      meta : validate_meta written.meta ≡ ok (l.series, l.ledger_uuid)
      meta = unfold written in h.meta

      segments_back :
          ◌≡◌ {A = Result Error Contents}
            (ok (record contents { segments = length written.segments }))
            (ok contents)
      segments_back = ap (λ n. ok (record contents { segments = n })) segment_count

      records_back : map row_to_record written.records ≡ l.records
      records_back =
          unfold written in (row_to_record-rows_from 1 (h.stored ++ h.unsaved) ∙ sym h.parts)

      entries :
          validate_entries ids holds.base_map l.series (map row_to_record written.records)
          ≡ ok (l.records, l.live)
      entries = rw records_back (
          (validate_entries_exact ids holds.base_map l.series l.records (l.records, l.live)).1 (
            IsSound-mono ids l.bases holds.base_map l.series keeps l.records v.sound,
            ap (λ d. (l.records, d)) v.newest_live,
          ))
