-- ===== src/IdLedger/Storage/Rows.antt =====
-- The rows that `_write` inserts (id_ledger.py), and `_row_to_record` on them.
use httk_store.Prelude.{
  ℕ, suc, ◌+◌, ◌≤◌, ◌<◌, String, ◌≡◌, refl, ap, sym, ◌∙◌, true, Option, some, List, [], ◌∷◌, ◌++◌,
  map, append_assoc, append-nil, arith, length, All,
}
use httk_store.IdLedger.Records.{Record, Binding, assigned, alias_of}
use httk_store.IdLedger.Container.{
  RecordRow, SegmentRow, integer, row_to_record, record_to_row, rows_from,
}
use httk_store.IdLedger.Segments.{is_numbered}
use httk_store.IdLedger.Storage.{insert_record, insert_records, insert_segment}

-- A record survives its row.
record_round_trip :
    (seq : ℕ) (key : String) (b : Binding) (sup : Option String)
    → row_to_record (record_to_row seq key b sup)
      ≡ record { key = key; binding = b; supersedes = sup }
unfolding row_to_record record_to_row
record_round_trip seq key (assigned f i) sup = refl
record_round_trip seq key (alias_of t) sup = refl

pub row_to_record-rows_from :
    (seq : ℕ) (rs : List Record) → map row_to_record (rows_from seq rs) ≡ rs
unfolding rows_from
row_to_record-rows_from seq [] = refl
row_to_record-rows_from seq (r ∷ rs) =
    rw (record_round_trip seq r.key r.binding r.supersedes, row_to_record-rows_from (suc seq) rs)

pub length-rows_from : (seq : ℕ) (rs : List Record) → length (rows_from seq rs) ≡ length rs
unfolding rows_from
length-rows_from seq [] = refl
length-rows_from seq (r ∷ rs) = ap suc (length-rows_from (suc seq) rs)

pub rows_from-append :
    (seq : ℕ) (xs ys : List Record)
    → rows_from seq (xs ++ ys) ≡ rows_from seq xs ++ rows_from (seq + length xs) ys
unfolding rows_from
rows_from-append seq [] ys = ap (λ n. rows_from n ys) (omega arith)
rows_from-append seq (x ∷ xs) ys =
    ap (λ t. record_to_row seq x.key x.binding x.supersedes ∷ t)
      (rows_from-append (suc seq) xs ys
        ∙ ap (λ n. rows_from (suc seq) xs ++ rows_from n ys) (omega arith))

seq-record_to_row :
    (n : ℕ) (key : String) (b : Binding) (sup : Option String) → (record_to_row n key b sup).seq ≡ n
unfolding record_to_row
seq-record_to_row n key (assigned f i) sup = refl
seq-record_to_row n key (alias_of t) sup = refl

pub is_numbered-rows_from : (seq : ℕ) (rs : List Record) → is_numbered seq (rows_from seq rs) ≡ true
unfolding rows_from is_numbered
is_numbered-rows_from seq [] = refl
is_numbered-rows_from seq (r ∷ rs) =
    ground (
      arith,
      seq-record_to_row seq r.key r.binding r.supersedes,
      is_numbered-rows_from (suc seq) rs,
    )

abbrev pub AllBelow : ℕ → List RecordRow → Type 0
AllBelow n = All (λ (row : RecordRow). row.seq < n)

AllBelow-snoc :
    (n : ℕ) (rows : List RecordRow) (r : RecordRow)
    → AllBelow n rows
    → r.seq ≡ n
    → AllBelow (suc n) (rows ++ r ∷ [])
AllBelow-snoc n [] r h e = (omega arith, tt)
AllBelow-snoc n (x ∷ rows) r h e = (omega arith, AllBelow-snoc n rows r h.1 e)

insert_record-last :
    (r : RecordRow) (rows : List RecordRow)
    → AllBelow r.seq rows
    → insert_record r rows ≡ some (rows ++ r ∷ [])
unfolding insert_record
insert_record-last r [] h = refl
insert_record-last r (x ∷ rows) h = ground (arith, h.0, insert_record-last r rows h.1)

-- Consecutive rows after the last one are inserted at the end, and none is refused.
pub insert_records-last :
    (n : ℕ) (rs : List Record) (rows : List RecordRow)
    → AllBelow n rows
    → insert_records (rows_from n rs) rows ≡ some (rows ++ rows_from n rs)
unfolding insert_records rows_from
insert_records-last n [] rows h = rw append-nil
insert_records-last n (r ∷ rs) rows h =
    let row = record_to_row n r.key r.binding r.supersedes in
    let e = seq-record_to_row n r.key r.binding r.supersedes in
    rw (insert_record-last row rows (rw e h), insert_records)
      (insert_records-last (suc n) rs (rows ++ row ∷ []) (AllBelow-snoc n rows row h e)
        ∙ ap some (append_assoc rows (row ∷ []) (rows_from (suc n) rs)))

rows_from-AllBelow :
    (seq : ℕ) (rs : List Record) (bound : ℕ)
    → seq + length rs ≤ bound
    → AllBelow bound (rows_from seq rs)
unfolding rows_from
rows_from-AllBelow seq [] bound h = tt
rows_from-AllBelow seq (r ∷ rs) bound h = (
  omega (arith, seq-record_to_row seq r.key r.binding r.supersedes),
  rows_from-AllBelow (suc seq) rs bound (omega arith),
)

-- The rows of the new records, behind the rows of the stored ones.
pub insert_records-rows_from :
    (old new : List Record)
    → insert_records (rows_from (length old + 1) new) (rows_from 1 old)
      ≡ some (rows_from 1 (old ++ new))
insert_records-rows_from old new =
    insert_records-last (length old + 1) new (rows_from 1 old)
      (rows_from-AllBelow 1 old (length old + 1) (omega arith))
    ∙ ap some (
        sym
          (rows_from-append 1 old new ∙ ap (λ n. rows_from 1 old ++ rows_from n new) (omega arith)))

-- A segment behind all others is inserted at the end.
abbrev pub SegmentsBelow : ℕ → List SegmentRow → Type 0
SegmentsBelow n = All (λ (s : SegmentRow). (m : ℕ) × (s.segment ≡ integer m) × (m < n))

pub insert_segment-last :
    (n : ℕ) (s : SegmentRow) (rows : List SegmentRow)
    → SegmentsBelow n rows
    → insert_segment n s rows ≡ some (rows ++ s ∷ [])
unfolding insert_segment
insert_segment-last n s [] h = refl
insert_segment-last n s (x ∷ rows) ((m, e, lt), h) =
    rw e (ground (arith, insert_segment-last n s rows h))

SegmentsBelow-mono :
    (n m : ℕ) (rows : List SegmentRow) → n ≤ m → SegmentsBelow n rows → SegmentsBelow m rows
SegmentsBelow-mono n m [] le h = tt
SegmentsBelow-mono n m (x ∷ rows) le ((k, e, lt), h) =
    ((k, e, omega arith), SegmentsBelow-mono n m rows le h)

pub SegmentsBelow-snoc :
    (n : ℕ) (rows : List SegmentRow) (s : SegmentRow)
    → SegmentsBelow n rows
    → s.segment ≡ integer n
    → SegmentsBelow (n + 1) (rows ++ s ∷ [])
SegmentsBelow-snoc n [] s h e = ((n, e, omega arith), tt)
SegmentsBelow-snoc n (x ∷ rows) s ((k, f, lt), h) e =
    ((k, f, omega arith), SegmentsBelow-snoc n rows s h e)
