-- ===== src/IdLedger/Storage/Accepted.antt =====
-- The segment check (`_validate_segments`) on a segment that `_write` adds.
use httk_store.Prelude.{
  suc, ◌+◌, ◌-◌, String, ◌≡◌, ◌≢◌, refl, ap, sym, ◌∙◌, Bool, true, false, eq_refl, eqb_refl,
  leb_of_le, Option, some, List, [], ◌∷◌, ◌++◌, map, arith, length, length-append, take, drop,
  drop-append_length, leb, ok, >>=-step, if◌then◌else◌,
}
use httk_store.Prelude.Dict
use httk_store.Prelude.Dict.{Dict, lookup}
use httk_store.IdLedger.Errors.{Error}
use httk_store.IdLedger.Records.{Record}
use httk_store.IdLedger.Ledger.{Ledger}
use httk_store.IdLedger.Container.{
  Seals, SealLaws, Document, object, Holds, Signed, Subject, Verdict, HasUniqueKeys, row_to_record,
  rows_from, text,
}
use httk_store.IdLedger.Segments.{
  Check, Walk, guard, covered, walk_segment, verify_segment, as_integer, parse_segment_subject,
  segment_bases, base_texts, check_growth, has_grown, check_verdict, ledger_format_version,
}
use httk_store.IdLedger.Bases.Laws.{lookup_later}
use httk_store.IdLedger.Storage.{next_subject, next_segment}
use httk_store.IdLedger.Storage.Loaded.{Keeps}
use httk_store.IdLedger.Storage.Rows.{row_to_record-rows_from, rows_from-append, length-rows_from}

take-length {ℓ} : {A : Type ℓ} (xs : List A) → take (length xs) xs ≡ xs
take-length [] = refl
take-length (x ∷ xs) = ap (λ t. x ∷ t) (take-length xs)

-- A base map that was written reads back as its entries.
base_texts-map : (d : Dict String) → base_texts (map (λ p. (p.0, some p.1)) d) ≡ some d
unfolding base_texts
base_texts-map [] = refl
base_texts-map ((f, b) ∷ d) = rw (base_texts-map d)

segment_bases-map :
    (d : Dict String) (f b : String)
    → lookup f d ≡ some b
    → segment_bases (some (map (λ p. (p.0, some p.1)) d)) ≡ ok d
unfolding segment_bases lookup base_texts
segment_bases-map [] f b e = cc
segment_bases-map ((g, c) ∷ d) f b e = rw (base_texts-map d)

-- A map that keeps every base has grown.
pub has_grown-Keeps :
    (prev later : Dict String) → HasUniqueKeys prev → Keeps prev later → has_grown prev later ≡ true
unfolding has_grown lookup
has_grown-Keeps [] later k h = refl
has_grown-Keeps ((f, b) ∷ prev) later (absent, k) h = rw (h f b (rw eq_refl)) (
    rw eq_refl (has_grown-Keeps prev later k (λ g c e. h g c (lookup_later g f c b prev absent e))))

verdict_ok : (v : Verdict) → v ≢ Verdict.invalid → check_verdict v [] ≡ ok tt
unfolding check_verdict
verdict_ok Verdict.invalid h = absurd (h refl)
verdict_ok Verdict.valid_trusted h = refl
verdict_ok Verdict.valid_untrusted h = refl

-- The rows that a new segment covers are those of its records.
covered-rows_from :
    (old new : List Record) → covered (rows_from 1 (old ++ new)) (length old + 1) (length new) ≡ new
unfolding covered
covered-rows_from old new =
    let first = rows_from 1 old in
    let last = rows_from (1 + length old) new in
    ap (λ n. map row_to_record (take (length new) (drop n (rows_from 1 (old ++ new)))))
      (omega (arith, length-rows_from 1 old))
    ∙ ap (λ rows. map row_to_record (take (length new) (drop (length first) rows)))
        (rows_from-append 1 old new)
    ∙ ap (λ rows. map row_to_record (take (length new) rows)) (drop-append_length first last)
    ∙ ap (λ n. map row_to_record (take n last)) (sym (length-rows_from (1 + length old) new))
    ∙ ap (map row_to_record) (take-length last)
    ∙ row_to_record-rows_from (1 + length old) new

-- A subject that `_write` made is read back and matches its row.
parse-written :
    (seals : Seals) (s : Subject) (d : Document)
    → seals.loads (seals.subject_text s) ≡ object d
    → Holds d s
    → s.ledger_format_version ≡ ledger_format_version
    → parse_segment_subject seals
        (text (seals.subject_text s))
        s.segment
        s.first_record
        s.record_count
        s.series
        s.ledger
      ≡ ok d
unfolding parse_segment_subject
parse-written seals s d e h version =
    rw
      (
        e, h.ledger_format_version, h.ledger, h.series, h.segment, h.first_record, h.record_count,
        version,
      )
      (simp (eq_refl, eqb_refl))

pub guard-true : {b : Bool} (e : Error) → b ≡ true → guard b e ≡ ok tt
guard-true e h = rw h

-- The check of a ledger's own segments, with or without signatures.
abbrev pub own_check : Ledger → Bool → Check
own_check l verify = record {
  series = l.series;
  ledger_uuid = l.ledger_uuid;
  verify = verify;
  trusted_keys = [];
}

module _ (seals : Seals) (l : Ledger) (old new : List Record)
    (laws : SealLaws seals (next_subject l new)) (signed : Signed)
    (was_signed : seals.sign (next_subject l new) new l.keys ≡ some signed)
    (prev : Option (Dict String)) where
  pub document : Document
  document = laws.loads-subject_text.0

  pub document-loads : seals.loads (seals.subject_text (next_subject l new)) ≡ object document
  unfolding document
  document-loads = laws.loads-subject_text.1

  pub document-Holds : Holds document (next_subject l new)
  unfolding document
  document-Holds = laws.loads-subject_text.2

  verify-written :
      verify_segment seals document signed.created_at new
        (text signed.body_sha256)
        (text signed.signatures)
        []
      ≡ ok tt
  unfolding verify_segment
  verify-written =
      let (list, loaded, valid) =
        laws.verify-sign document new l.keys signed was_signed document-loads in
      rw loaded
        (verdict_ok (seals.verify document signed.created_at new signed.body_sha256 list []) valid)

  -- The variables of the loop after the new segment.
  abbrev pub after : Walk
  after = record {
    index = suc (l.segments + 1);
    prev_bases = some document-Holds.base_map;
    expected_next = l.persisted + 1 + length new;
  }

  pub walk_segment-written :
      (verify : Bool) (f b : String)
      → length old ≡ l.persisted
      → Dict.lookup f l.bases ≡ some b
      → check_growth prev document-Holds.base_map ≡ ok tt
      → walk_segment seals
          (own_check l verify)
          (rows_from 1 (old ++ new))
          (record { index = l.segments + 1; prev_bases = prev; expected_next = l.persisted + 1 })
          (next_segment seals l new signed)
        ≡ ok after
  unfolding walk_segment next_segment as_integer
  walk_segment-written verify f b n e g = >>=-step _ _ (guard-true _ (eqb_refl (l.segments + 1))) (
      >>=-step _ _ (guard-true _ (eqb_refl (l.persisted + 1))) (
        >>=-step _ _
          (unfold next_subject in
            parse-written seals (next_subject l new) document document-loads document-Holds refl)
          (>>=-step _ _ bases-written (
            >>=-step _ _ g
              (>>=-step _ _ (guard-true _ fits) (>>=-step _ _ (verified verify) refl))))))
    where
      bases-written : segment_bases document.bases ≡ ok document-Holds.base_map
      bases-written = rw document-Holds.bases (
          segment_bases-map document-Holds.base_map f b
            (document-Holds.same_bases f ∙ unfold next_subject in e))

      fits : leb (l.persisted + 1 - 1 + length new) (length (rows_from 1 (old ++ new))) ≡ true
      fits = leb_of_le _ _ (omega (arith, length-rows_from 1 (old ++ new), length-append old new))

      covers : covered (rows_from 1 (old ++ new)) (l.persisted + 1) (length new) ≡ new
      covers = rw (← n) (covered-rows_from old new)

      verified :
          (v : Bool)
          → (if v
              then verify_segment seals document signed.created_at
                  (covered (rows_from 1 (old ++ new)) (l.persisted + 1) (length new))
                  (text signed.body_sha256)
                  (text signed.signatures)
                  []
              else ok tt)
            ≡ ok tt
      verified false = refl
      verified true = rw covers verify-written
