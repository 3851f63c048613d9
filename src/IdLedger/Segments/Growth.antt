-- ===== src/IdLedger/Segments/Growth.antt =====
-- The segment check (`_validate_segments`) on more rows and on one more segment.
use httk_store.Prelude.{
  ℕ, zero, suc, ◌+◌, ◌-◌, ◌≤◌, ◌≡◌, refl, ap, ◌∙◌, List, [], ◌∷◌, ◌++◌, map, arith, length,
  length-append, take, drop, leb, eqb, Result, ok, ◌>>◌, or_raise, >>=-mono, >>=-eq-ok, >>=-ok,
  ok-injective,
}
use httk_store.IdLedger.Errors.{Error}
use httk_store.IdLedger.Container.{Seals, SegmentRow, RecordRow, row_to_record}
use httk_store.IdLedger.Segments.{
  Check, Walk, guard, covered, walk_segment, walk_segments, as_integer, parse_segment_subject,
  segment_bases, check_growth,
}

take-append {ℓ} :
    {A : Type ℓ} (n : ℕ) (xs ys : List A) → n ≤ length xs → take n (xs ++ ys) ≡ take n xs
take-append zero xs ys h = refl
take-append (suc n) [] ys h = absurd (omega arith)
take-append (suc n) (x ∷ xs) ys h = ap (λ t. x ∷ t) (take-append n xs ys (omega arith))

take-drop-append {ℓ} :
    {A : Type ℓ} (n k : ℕ) (xs ys : List A)
    → k + n ≤ length xs
    → take n (drop k (xs ++ ys)) ≡ take n (drop k xs)
take-drop-append n zero xs ys h = take-append n xs ys (omega arith)
take-drop-append n (suc k) [] ys h = absurd (omega arith)
take-drop-append n (suc k) (x ∷ xs) ys h = take-drop-append n k xs ys (omega arith)

-- The records that a segment covers are the same in the longer table.
pub covered-append :
    (rows more : List RecordRow) (first_seq record_count : ℕ)
    → first_seq - 1 + record_count ≤ length rows
    → covered (rows ++ more) first_seq record_count ≡ covered rows first_seq record_count
unfolding covered
covered-append rows more first_seq record_count h =
    ap (map row_to_record) (take-drop-append record_count (first_seq - 1) rows more h)

guard-more :
    {A : Type 0} (rows more : List RecordRow) (n : ℕ) (e : Error) (k k' : Result Error A) {a : A}
    → (n ≤ length rows → k ≡ ok a → k' ≡ ok a)
    → (guard (leb n (length rows)) e >> k) ≡ ok a
    → (guard (leb n (length (rows ++ more))) e >> k') ≡ ok a
guard-more rows more n e k k' f h = ground (arith, f, length-append rows more)

module _ (seals : Seals) (c : Check) (rows more : List RecordRow) where
  walk_segment-more :
      (w w' : Walk) (s : SegmentRow)
      → walk_segment seals c rows w s ≡ ok w'
      → walk_segment seals c (rows ++ more) w s ≡ ok w'
  unfolding walk_segment
  walk_segment-more w w' s =
      >>=-mono (or_raise (as_integer s.segment) Error.malformed_segment) _ _ λ segment.
        >>=-mono (or_raise (as_integer s.first_seq) Error.malformed_segment) _ _ λ first_seq.
          >>=-mono (or_raise (as_integer s.record_count) Error.malformed_segment) _ _
            λ record_count. >>=-mono (guard (eqb segment w.index) Error.segment_numbering) _ _ λ _.
              >>=-mono (guard (eqb first_seq w.expected_next) Error.segment_start) _ _ λ _.
                >>=-mono
                  (parse_segment_subject seals s.subject segment first_seq record_count c.series
                    c.ledger_uuid)
                  _ _
                  λ d. >>=-mono (segment_bases d.bases) _ _ λ bases.
                    >>=-mono (check_growth w.prev_bases bases) _ _ λ _.
                      guard-more rows more (first_seq - 1 + record_count) Error.past_the_end _ _
                        λ fits h. rw (covered-append rows more first_seq record_count fits) h

  -- Rows behind the last segment change nothing in the check of the segments.
  pub walk_segments-more :
      (ss : List SegmentRow) (w w' : Walk)
      → walk_segments seals c rows w ss ≡ ok w'
      → walk_segments seals c (rows ++ more) w ss ≡ ok w'
  unfolding walk_segments
  walk_segments-more [] w w' h = h
  walk_segments-more (s ∷ ss) w w' h =
      let (v, first, rest) = >>=-eq-ok (walk_segment seals c rows w s) _ h in
      rw (walk_segment-more w v s first) (walk_segments-more ss v w' rest)

-- One more segment is one more round.
pub walk_segments-snoc :
    (seals : Seals) (c : Check) (rows : List RecordRow) (ss : List SegmentRow) (s : SegmentRow)
    (w w' : Walk)
    → walk_segments seals c rows w ss ≡ ok w'
    → walk_segments seals c rows w (ss ++ s ∷ []) ≡ walk_segment seals c rows w' s
unfolding walk_segments
walk_segments-snoc seals c rows [] s w w' h =
    >>=-ok (walk_segment seals c rows w s)
    ∙ ap (λ v. walk_segment seals c rows v s) (ok-injective {E = Error} h)
walk_segments-snoc seals c rows (x ∷ ss) s w w' h =
    let (v, first, rest) = >>=-eq-ok (walk_segment seals c rows w x) _ h in
    rw first (walk_segments-snoc seals c rows ss s v w' rest)
