-- ===== src/IdLedger/Validate/Exact.antt =====
-- `_validate_entries` (id_ledger.py) as a whole, against the soundness of a list of records.
use httk_store.Prelude.{
  String, ◌≡◌, refl, ap, sym, ◌∙◌, ◌↔◌, List, [], ◌∷◌, ◌++◌, append_assoc, append-nil, arith,
  Result, Result-cases, ok-injective, ok, ◌>>=◌, ◌>>◌, inl, inr,
}
use httk_store.Prelude.Dict.{Dict}
use httk_store.IdLedger.Errors.{Error}
use httk_store.IdLedger.Records.{
  Binding, assigned, alias_of, Record, EntryIds, assigned_ids, live_from, Resolves,
}
use httk_store.IdLedger.Records.Chain.{IsChain, IsSound, HasTargets}
use httk_store.IdLedger.Validate.{Scan, scan_record, scan_records, check_targets, validate_entries}
use httk_store.IdLedger.Validate.Laws.{
  pend, targets_from, prior_from, scan_of, scan_record-IsLink, scan_record→IsLink,
}

module _ (ids : EntryIds) (bases : Dict String) (series : String) where
  scan_records-IsChain :
      (before rs : List Record)
      → IsChain ids bases series before rs
      → scan_records ids bases series (scan_of before) rs ≡ ok (scan_of (before ++ rs))
  unfolding scan_records
  scan_records-IsChain before [] c = rw append-nil
  scan_records-IsChain before (r ∷ rs) c =
      rw (scan_record-IsLink ids bases series before r c.0)
        (scan_records-IsChain (before ++ r ∷ []) rs c.1 ∙ rw append_assoc)

  scan_records→IsChain :
      (before rs : List Record) (s : Scan)
      → scan_records ids bases series (scan_of before) rs ≡ ok s
      → IsChain ids bases series before rs
  unfolding scan_records
  scan_records→IsChain before [] s h = tt
  scan_records→IsChain before (r ∷ rs) s h =
      elim (Result-cases (scan_record ids bases series (scan_of before) r)) [
        | inr (e, bad) ↦ absurd (cc (rw bad at h))
        | inl (s', good) ↦
            let link = scan_record→IsLink ids bases series before r s' good in
            let again = scan_record-IsLink ids bases series before r link in
            (link, scan_records→IsChain (before ++ r ∷ []) rs s (rw again at h))
      ]

check_targets-append :
    (known : List String) (p q : List (String × String))
    → check_targets known (p ++ q) ≡ (check_targets known p >> check_targets known q)
unfolding check_targets
check_targets-append known [] q = refl
check_targets-append known ((k, t) ∷ p) q = ground (arith, check_targets-append known p q)

check_targets-pend :
    (all : List Record) (p : List (String × String)) (key : String) (b : Binding)
    → (check_targets (assigned_ids all) (pend key b p) ≡ ok tt)
      ↔ ((check_targets (assigned_ids all) p ≡ ok tt) × Resolves all b)
unfolding pend
check_targets-pend all p key (assigned f i) = ((λ h. (h, tt)), (λ h. h.0))
check_targets-pend all p key (alias_of t) = (
  (λ h.
      unfold check_targets in
      ground (arith, check_targets-append (assigned_ids all) p ((key, t) ∷ []))),
  (λ h. rw check_targets-append (rw h.0 (unfold check_targets in rw h.1))),
)

-- The loop over the pending targets passes exactly if the aliases resolve.
check_targets-from :
    (all : List Record) (p : List (String × String)) (rs : List Record)
    → (check_targets (assigned_ids all) (targets_from p rs) ≡ ok tt)
      ↔ ((check_targets (assigned_ids all) p ≡ ok tt) × HasTargets all rs)
unfolding targets_from
check_targets-from all p [] = ((λ h. (h, tt)), (λ h. h.0))
check_targets-from all p (r ∷ rs) =
    let step = check_targets-pend all p r.key r.binding in
    let later = check_targets-from all (pend r.key r.binding p) rs in
    (
      (λ h. let (now, rest) = later.0 h in ((step.0 now).0, ((step.0 now).1, rest))),
      (λ h. later.1 (step.1 (h.0, h.1.0), h.1.1)),
    )

module _ (ids : EntryIds) (bases : Dict String) (series : String) (rs : List Record) where
  finish : Scan → Result Error (List Record × Dict Record)
  finish s = do check_targets s.assigned_ids s.pending_targets; ok (s.out, s.live)

  validate_entries_lem :
      validate_entries ids bases series rs
      ≡ (scan_records ids bases series (scan_of []) rs >>= finish)
  unfolding validate_entries scan_of targets_from prior_from live_from assigned_ids finish
  validate_entries_lem = refl

  finish→HasTargets :
      (p : List Record × Dict Record) → finish (scan_of rs) ≡ ok p → HasTargets rs rs
  unfolding finish scan_of
  finish→HasTargets p h =
      elim (Result-cases (check_targets (assigned_ids rs) (targets_from [] rs))) [
        | inr (e, bad) ↦ absurd (cc (rw bad at h))
        | inl (tt, good) ↦ ((check_targets-from rs [] rs).0 good).1
      ]

  validate→IsSound :
      (p : List Record × Dict Record)
      → validate_entries ids bases series rs ≡ ok p
      → IsSound ids bases series rs
  validate→IsSound p h =
      let h' = rw validate_entries_lem at h in
      elim (Result-cases (scan_records ids bases series (scan_of []) rs)) [
        | inr (e, bad) ↦ absurd (cc (rw bad at h'))
        | inl (s, good) ↦
            let chain = scan_records→IsChain ids bases series [] rs s good in
            record {
              chain = chain;
              targets =
                  finish→HasTargets p
                    (rw (scan_records-IsChain ids bases series [] rs chain) at h');
            }
      ]

  IsSound→validate :
      IsSound ids bases series rs → validate_entries ids bases series rs ≡ ok (rs, live_from [] rs)
  IsSound→validate s =
      rw (validate_entries_lem, scan_records-IsChain ids bases series [] rs s.chain)
        (unfold finish scan_of in
          rw ((check_targets-from rs [] rs).1 (unfold check_targets in refl, s.targets)))

  -- Loading succeeds exactly on sound records, and returns them with their newest bindings.
  pub validate_entries_exact :
      (p : List Record × Dict Record)
      → (validate_entries ids bases series rs ≡ ok p)
        ↔ (IsSound ids bases series rs × (p ≡ (rs, live_from [] rs)))
  validate_entries_exact p = (
    (λ h. let s = validate→IsSound p h in (s, ok-injective (sym h ∙ IsSound→validate s))),
    (λ h. IsSound→validate h.0 ∙ ap ok (sym h.1)),
  )
