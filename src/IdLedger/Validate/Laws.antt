-- ===== src/IdLedger/Validate/Laws.antt =====
-- The loop of `_validate_entries` (id_ledger.py), one record at a time.
use httk_store.Prelude.{
  ℕ, String, ◌≡◌, refl, Option, none, some, List, [], ◌∷◌, ◌++◌, append-nil, arith, eq_iff, eq_refl,
  contains, Option-cases, Bool-cases, Result, Result-cases, ok, err, ◌>>◌, inl, inr,
}
use httk_store.Prelude.Dict.{Dict, lookup, insert, lookup-insert}
use httk_store.IdLedger.Errors.{Error}
use httk_store.IdLedger.Records.{
  Binding, assigned, alias_of, Record, live_id, EntryIds, assigned_ids, live_from, newest, prior_id,
  IsLink, Declared,
}
use httk_store.IdLedger.Records.Chain.{live_from-append, assigned_ids-append}
use httk_store.IdLedger.Validate.{
  check_supersession, check_parts, validate_entry_id, Scan, scan_record,
}

-- What the loop's variables hold after the records `before`.
unfoldable pub prior_from : Dict String → List Record → Dict String
prior_from d [] = d
prior_from d (r ∷ rs) = prior_from (insert r.key (live_id r.binding) d) rs

unfoldable pub pend : String → Binding → List (String × String) → List (String × String)
pend key (assigned family id) p = p
pend key (alias_of target) p = p ++ (key, target) ∷ []

unfoldable pub targets_from : List (String × String) → List Record → List (String × String)
unfolding pend
targets_from p [] = p
targets_from p (r ∷ rs) = targets_from (pend r.key r.binding p) rs

unfoldable pub scan_of : List Record → Scan
scan_of before = record {
  out = before;
  live = live_from [] before;
  assigned_ids = assigned_ids before;
  prior_id = prior_from [] before;
  pending_targets = targets_from [] before;
}

prior_from-append :
    (d : Dict String) (xs : List Record) (r : Record)
    → prior_from d (xs ++ r ∷ []) ≡ insert r.key (live_id r.binding) (prior_from d xs)
unfolding prior_from
prior_from-append d [] r = refl
prior_from-append d (x ∷ xs) r = prior_from-append (insert x.key (live_id x.binding) d) xs r

lookup-prior_from :
    (k : String) (d : Dict String) (rs : List Record)
    → lookup k (prior_from d rs)
      ≡ elim (newest k rs) [ some n ↦ some (live_id n.binding) | none ↦ lookup k d ]
unfolding prior_from newest
lookup-prior_from k d [] = refl
lookup-prior_from k d (r ∷ rs) = ground (
  arith,
  lookup-prior_from k (insert r.key (live_id r.binding) d) rs,
  lookup-insert r.key k (live_id r.binding) d,
)

lookup-prior_from_empty :
    (k : String) (rs : List Record) → lookup k (prior_from [] rs) ≡ prior_id k rs
unfolding lookup prior_id
lookup-prior_from_empty k rs = ground (arith, lookup-prior_from k [] rs)

targets_from-append :
    (p : List (String × String)) (xs ys : List Record)
    → targets_from p (xs ++ ys) ≡ targets_from (targets_from p xs) ys
unfolding targets_from
targets_from-append p [] ys = refl
targets_from-append p (x ∷ xs) ys = targets_from-append (pend x.key x.binding p) xs ys

abbrev record_of : String → Binding → Option String → Record
record_of k b s = record { key = k; binding = b; supersedes = s }

-- The loop's variables, one record later.
scan_of-assigned :
    (before : List Record) (key family id : String) (sup : Option String)
    → scan_of (before ++ record_of key (assigned family id) sup ∷ []) ≡ record {
      out = before ++ record_of key (assigned family id) sup ∷ [];
      live = insert key (record_of key (assigned family id) sup) (live_from [] before);
      assigned_ids = assigned_ids before ++ id ∷ [];
      prior_id = insert key id (prior_from [] before);
      pending_targets = targets_from [] before;
    }
unfolding scan_of targets_from pend live_from assigned_ids live_id
scan_of-assigned before key family id sup =
    let r = record_of key (assigned family id) sup in
    rw (
      live_from-append [] before (r ∷ []),
      assigned_ids-append before (r ∷ []),
      prior_from-append [] before r,
      targets_from-append [] before (r ∷ []),
    )

scan_of-alias_of :
    (before : List Record) (key target : String) (sup : Option String)
    → scan_of (before ++ record_of key (alias_of target) sup ∷ []) ≡ record {
      out = before ++ record_of key (alias_of target) sup ∷ [];
      live = insert key (record_of key (alias_of target) sup) (live_from [] before);
      assigned_ids = assigned_ids before;
      prior_id = insert key target (prior_from [] before);
      pending_targets = targets_from [] before ++ (key, target) ∷ [];
    }
unfolding scan_of targets_from pend live_from assigned_ids live_id
scan_of-alias_of before key target sup =
    let r = record_of key (alias_of target) sup in
    rw (
      live_from-append [] before (r ∷ []),
      assigned_ids-append before (r ∷ []),
      prior_from-append [] before r,
      targets_from-append [] before (r ∷ []),
      append-nil,
    )

check_supersession_iff : (s prior : Option String) → check_supersession s prior ≡ ok tt → s ≡ prior
unfolding check_supersession
check_supersession_iff none none h = refl
check_supersession_iff (some s) none h = cc
check_supersession_iff none (some p) h = cc
check_supersession_iff (some s) (some p) h = ground (arith, eq_iff s p)

check_supersession_self : (s : Option String) → check_supersession s s ≡ ok tt
unfolding check_supersession
check_supersession_self none = refl
check_supersession_self (some s) = rw eq_refl

check_parts→eq :
    (base series : String) (p : Option (String × String × ℕ))
    → check_parts base series p ≡ ok tt
    → (n : ℕ) × (p ≡ some (base, series, n))
unfolding check_parts
check_parts→eq base series none h = cc
check_parts→eq base series (some (b, s, n)) h = (n, ground (arith, eq_iff b base, eq_iff s series))

bind-ok :
    {A : Type 0} (m : Result Error (Unit {0})) (k : Result Error A) {a : A}
    → (m >> k) ≡ ok a
    → m ≡ ok tt
bind-ok (ok tt) k h = refl
bind-ok (err e) k h = cc

module _ (ids : EntryIds) (bases : Dict String) (series : String) where
  validate_entry_id→Declared :
      (family id : String)
      → validate_entry_id ids bases series family id ≡ ok tt
      → Declared ids bases series (assigned family id)
  unfolding validate_entry_id
  validate_entry_id→Declared family id h = elim (Bool-cases (ids.conforms id)) [
    | inr bad ↦ absurd (cc (rw bad at h))
    | inl good ↦ elim (Option-cases (lookup family bases)) [
      | inl missing ↦ absurd (cc (rw (good, missing) at h))
      | inr (base, found) ↦
          let (n, parsed) =
            check_parts→eq base series (ids.parse_entry_id id) (rw (good, found) at h) in
          (good, (base, n, found, parsed))
    ]
  ]

  Declared→validate_entry_id :
      (family id : String)
      → Declared ids bases series (assigned family id)
      → validate_entry_id ids bases series family id ≡ ok tt
  unfolding validate_entry_id
  Declared→validate_entry_id family id (c, (base, n, hb, hp)) = rw (c, hb, hp) (simp eq_refl)

  scan_record-go :
      (before : List Record) (key : String) (b : Binding) (sup : Option String)
      → IsLink ids bases series before (record_of key b sup)
      → scan_record ids bases series (scan_of before) (record_of key b sup)
        ≡ ok (scan_of (before ++ record_of key b sup ∷ []))
  unfolding scan_record scan_of live_id
  scan_record-go before key (assigned f i) sup l = rw (scan_of-assigned before key f i sup) (
      rw (
        Declared→validate_entry_id f i l.declared,
        l.fresh,
        lookup-prior_from_empty key before,
        l.supersession,
        check_supersession_self (prior_id key before),
      ))
  scan_record-go before key (alias_of t) sup l = rw (scan_of-alias_of before key t sup) (
      rw (
        lookup-prior_from_empty key before,
        l.supersession,
        check_supersession_self (prior_id key before),
      ))

  -- One round over a record that is linked to the records before it.
  pub scan_record-IsLink :
      (before : List Record) (r : Record)
      → IsLink ids bases series before r
      → scan_record ids bases series (scan_of before) r ≡ ok (scan_of (before ++ r ∷ []))
  scan_record-IsLink before r l = scan_record-go before r.key r.binding r.supersedes l

  scan_record→go :
      (before : List Record) (key : String) (b : Binding) (sup : Option String) (s : Scan)
      → scan_record ids bases series (scan_of before) (record_of key b sup) ≡ ok s
      → IsLink ids bases series before (record_of key b sup)
  unfolding scan_record scan_of live_id
  scan_record→go before key (assigned f i) sup s h =
      elim (Result-cases (validate_entry_id ids bases series f i)) [
        | inr (e, bad) ↦ absurd (cc (rw bad at h))
        | inl (tt, good) ↦ elim (Bool-cases (contains i (assigned_ids before))) [
          | inl old ↦ absurd (cc (rw (good, old) at h))
          | inr new ↦ record {
            supersession =
                check_supersession_iff sup (prior_id key before)
                  (bind-ok _ _ (rw (good, new, lookup-prior_from_empty key before) at h));
            declared = validate_entry_id→Declared f i good;
            fresh = new;
          }
        ]
      ]
  scan_record→go before key (alias_of t) sup s h = record {
    supersession =
        check_supersession_iff sup (prior_id key before)
          (bind-ok _ _ (rw (lookup-prior_from_empty key before) at h));
    declared = tt;
    fresh = tt;
  }

  pub scan_record→IsLink :
      (before : List Record) (r : Record) (s : Scan)
      → scan_record ids bases series (scan_of before) r ≡ ok s
      → IsLink ids bases series before r
  scan_record→IsLink before r s h = scan_record→go before r.key r.binding r.supersedes s h
