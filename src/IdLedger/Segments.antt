-- ===== src/IdLedger/Segments.antt =====
-- The segments of an id ledger (id_ledger.py): `_validate_segments` and the checks that it calls.
pub mod Growth
use mathlib.Core.Option
use httk_store.Prelude.{
  ℕ, zero, suc, ◌+◌, ◌-◌, String, Bool, true, false, Option, none, some, List, [], ◌∷◌, ◌==◌, ◌&&◌,
  ◌||◌, not, map, if◌then◌else◌, leb, eqb, length, take, drop, Result, ok, err, ◌>>=◌, ◌>>◌,
  or_raise,
}
use httk_store.Prelude.Dict.{Dict, lookup}
use httk_store.IdLedger.Errors.{
  Error, no_segments, malformed_segment, segment_numbering, segment_start, past_the_end,
  bad_subject, wrong_version, foreign_ledger, wrong_subject_series, subject_range, bad_bases,
  rebased, partition, shared_base, bad_signature_data, invalid_signature, untrusted_signer,
  assertion,
}
use httk_store.IdLedger.Records.{Record}
use httk_store.IdLedger.Bases.{duplicate_base}
use httk_store.IdLedger.Container.{
  Cell, integer, text, other, RecordRow, SegmentRow, Document, Loaded, Verdict, Seals,
  row_to_record,
}

abbrev pub ledger_format_version : ℕ
ledger_format_version = 1

abbrev pub guard : Bool → Error → Result Error (Unit {0})
guard true e = ok tt
guard false e = err e

-- `value == s` and `value == n`, where the value may be missing or of another type.
abbrev pub is_text : Option String → String → Bool
is_text none s = false
is_text (some v) s = v == s

abbrev pub is_number : Option ℕ → ℕ → Bool
is_number none n = false
is_number (some v) n = eqb v n

-- `isinstance(value, int)` and `isinstance(value, str)`
unfoldable pub as_integer : Cell → Option ℕ
as_integer (integer n) = some n
as_integer (text s) = none
as_integer other = none

unfoldable pub as_text : Cell → Option String
as_text (integer n) = none
as_text (text s) = some s
as_text other = none

-- The checks of `_parse_segment_subject` on the parsed object.
unfoldable pub check_subject : Document → ℕ → ℕ → ℕ → String → String → Result Error (Unit {0})
check_subject d segment first_seq record_count series uuid = do
  guard (is_number d.ledger_format_version ledger_format_version) wrong_version
  guard (is_text d.ledger uuid) foreign_ledger
  guard (is_text d.series series) wrong_subject_series
  guard
      (is_number d.segment segment
        && is_number d.first_record first_seq
        && is_number d.record_count record_count)
      subject_range

unfoldable pub as_object : Loaded → Result Error Document
as_object Loaded.invalid_json = err bad_subject
as_object Loaded.no_object = err bad_subject
as_object (Loaded.object d) = ok d

-- `_parse_segment_subject`
unfoldable pub parse_segment_subject :
    Seals → Cell → ℕ → ℕ → ℕ → String → String → Result Error Document
unfolding check_subject as_object as_text
parse_segment_subject seals cell segment first_seq record_count series uuid = do
  subject_json ← or_raise (as_text cell) bad_subject
  d ← as_object (seals.loads subject_json)
  check_subject d segment first_seq record_count series uuid
  ok d

-- `_segment_bases`
unfoldable pub base_texts : List (String × Option String) → Option (Dict String)
base_texts [] = some []
base_texts ((family, none) ∷ rest) = none
base_texts ((family, some base) ∷ rest) = elim (base_texts rest) [
  | none ↦ none
  | some d ↦ some ((family, base) ∷ d)
]

unfoldable pub segment_bases : Option (List (String × Option String)) → Result Error (Dict String)
unfolding base_texts
segment_bases none = err bad_bases
segment_bases (some []) = err bad_bases
segment_bases (some (p ∷ ps)) = or_raise (base_texts (p ∷ ps)) bad_bases

-- Every stored family is in the later map, with the same base.
unfoldable pub has_grown : Dict String → Dict String → Bool
has_grown [] later = true
has_grown ((family, base) ∷ rest) later = is_text (lookup family later) base && has_grown rest later

-- `_verify_segment`, on a verdict; with trust anchors the signer has to be one of them.
unfoldable pub check_verdict : Verdict → List String → Result Error (Unit {0})
check_verdict Verdict.invalid trusted = err invalid_signature
check_verdict Verdict.valid_trusted trusted = ok tt
check_verdict Verdict.valid_untrusted [] = ok tt
check_verdict Verdict.valid_untrusted (k ∷ ks) = err untrusted_signer

unfoldable pub verify_segment :
    Seals → Document → String → List Record → Cell → Cell → List String → Result Error (Unit {0})
unfolding check_verdict as_text
verify_segment seals d created_at records body_sha256 signatures trusted = do
  signatures_json ← or_raise (as_text signatures) bad_signature_data
  digest ← or_raise (as_text body_sha256) bad_signature_data
  list ← or_raise (seals.load_signatures signatures_json) bad_signature_data
  check_verdict (seals.verify d created_at records digest list trusted) trusted

-- The loop's variables: the number of the next segment, `prev_bases` and `expected_next`.
pub record Walk : Type 0 where
  pub index : ℕ
  pub prev_bases : Option (Dict String)
  pub expected_next : ℕ

abbrev pub start : Walk
start = record { index = 1; prev_bases = none; expected_next = 1 }

-- What a check of one ledger is made against: the meta series and uuid, and the caller's wishes.
pub record Check : Type 0 where
  pub series : String
  pub ledger_uuid : String
  pub verify : Bool
  pub trusted_keys : List String

unfoldable pub check_growth : Option (Dict String) → Dict String → Result Error (Unit {0})
unfolding has_grown
check_growth none bases = ok tt
check_growth (some prev) bases = guard (has_grown prev bases) rebased

-- `record_rows[first_seq - 1 : first_seq - 1 + record_count]`, as records
unfoldable pub covered : List RecordRow → ℕ → ℕ → List Record
covered rows first_seq record_count =
    map row_to_record (take record_count (drop (first_seq - 1) rows))

-- One round of the loop of `_validate_segments`.
unfoldable pub walk_segment : Seals → Check → List RecordRow → Walk → SegmentRow → Result Error Walk
unfolding as_integer
walk_segment seals c rows w row = do
  segment ← or_raise (as_integer row.segment) malformed_segment
  first_seq ← or_raise (as_integer row.first_seq) malformed_segment
  record_count ← or_raise (as_integer row.record_count) malformed_segment
  guard (eqb segment w.index) segment_numbering
  guard (eqb first_seq w.expected_next) segment_start
  d ← parse_segment_subject seals row.subject segment first_seq record_count c.series c.ledger_uuid
  bases ← segment_bases d.bases
  check_growth w.prev_bases bases
  guard (leb (first_seq - 1 + record_count) (length rows)) past_the_end
  if c.verify
      then verify_segment seals d row.created_at (covered rows first_seq record_count)
          row.body_sha256 row.signatures c.trusted_keys
      else ok tt
  ok (record {
    index = suc w.index;
    prev_bases = some bases;
    expected_next = w.expected_next + record_count;
  })

unfoldable pub walk_segments :
    Seals → Check → List RecordRow → Walk → List SegmentRow → Result Error Walk
walk_segments seals c rows w [] = ok w
walk_segments seals c rows w (s ∷ ss) = do
  w' ← walk_segment seals c rows w s
  walk_segments seals c rows w' ss

-- `record_seqs == list(range(1, expected_next))`
unfoldable pub is_numbered : ℕ → List RecordRow → Bool
is_numbered n [] = true
is_numbered n (r ∷ rs) = eqb r.seq n && is_numbered (suc n) rs

-- `_stored_bases`
unfoldable pub stored_bases : Option (Dict String) → Result Error (Dict String)
stored_bases none = err assertion
stored_bases (some bases) = elim (duplicate_base bases) [
  | some b ↦ err shared_base
  | none ↦ ok bases
]

-- `_validate_segments`
unfoldable pub validate_segments :
    Seals → Check → List SegmentRow → List RecordRow → Result Error (Dict String)
validate_segments seals c [] rows = err no_segments
validate_segments seals c (s ∷ ss) rows = do
  w ← walk_segments seals c rows start (s ∷ ss)
  guard (is_numbered 1 rows && eqb (length rows + 1) w.expected_next) partition
  stored_bases w.prev_bases
