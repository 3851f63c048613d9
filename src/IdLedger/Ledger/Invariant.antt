-- ===== src/IdLedger/Ledger/Invariant.antt =====
-- The invariant of an open ledger: its records are sound, its live dict holds each key's newest
-- record, and no two families share a base.
use mathlib.Core.Option
use httk_store.Prelude.{
  ℕ, ◌≤◌, ◌<◌, String, ◌≡◌, refl, ap, sym, ◌∙◌, false, Option, some, List, [], ◌∷◌, ◌++◌, ◌==◌,
  if◌then◌else◌, contains, arith, eq_iff, Option-cases, inl, inr, Bool-cases,
}
use httk_store.Prelude.Dict
use httk_store.Prelude.Dict.{Dict, insert}
use httk_store.IdLedger.Records.{
  Binding, assigned, alias_of, Record, live_id, EntryIds, assigned_ids, add_id, highest_number,
  raise_mark, live_from, prior_id, IsLink, Resolves, Declared,
}
use httk_store.IdLedger.Records.Chain.{
  IsSound, IsChain, IsSound-append, live_from-append, lookup-live_from_empty,
}
use httk_store.IdLedger.Ledger.{Ledger, append, live_binding, lookup}

-- No two families have one base.
abbrev pub HasUniqueBases : Dict String → Type 0
HasUniqueBases bases =
    (f g b : String) → Dict.lookup f bases ≡ some b → Dict.lookup g bases ≡ some b → f ≡ g

pub record IsValid (ids : EntryIds) (l : Ledger) : Type 0 where
  pub sound : IsSound ids l.bases l.series l.records
  pub newest_live : l.live ≡ live_from [] l.records
  pub unique_bases : HasUniqueBases l.bases

-- On a valid ledger `lookup` is the id of the newest record of the key.
pub lookup-eq-prior_id :
    {ids : EntryIds} (key : String) (l : Ledger)
    → IsValid ids l
    → lookup key l ≡ prior_id key l.records
unfolding lookup prior_id
lookup-eq-prior_id key l v = rw (v.newest_live, lookup-live_from_empty key l.records)

pub lookup-live_binding :
    (key : String) (l : Ledger) → lookup key l ≡ Option.map live_id (live_binding key l)
unfolding lookup live_binding
lookup-live_binding key l = ground (arith, Option-cases (Dict.lookup key l.live))

-- What the live binding of a key supersedes is what its records do.
pub prior_of :
    (ids : EntryIds) (key : String) (l : Ledger)
    → IsValid ids l
    → (b : Option Binding) → live_binding key l ≡ b
    → Option.map live_id b ≡ prior_id key l.records
prior_of ids key l v b e =
    ap (Option.map live_id) (sym e) ∙ sym (lookup-live_binding key l) ∙ lookup-eq-prior_id key l v

-- A record that is linked to the end of the records keeps the invariant.
pub append-IsValid :
    (ids : EntryIds) (r : Record) (l : Ledger)
    → IsValid ids l
    → IsLink ids l.bases l.series l.records r
    → Resolves (l.records ++ r ∷ []) r.binding
    → IsValid ids (append r l)
unfolding append live_from
append-IsValid ids r l v k t = record {
  sound = IsSound-append ids l.bases l.series l.records r v.sound k t;
  newest_live = rw (v.newest_live, live_from-append [] l.records (r ∷ []));
  unique_bases = v.unique_bases;
}

pub lookup-append :
    (r : Record) (l : Ledger) (key : String)
    → lookup key (append r l) ≡ (if r.key == key then some (live_id r.binding) else lookup key l)
unfolding append lookup
lookup-append r l key = ground (arith, Dict.lookup-insert r.key key r l.live)

raise_mark-ge :
    (ids : EntryIds) (family : String) (m : ℕ) (b : Binding) → m ≤ raise_mark ids family m b
unfolding raise_mark
raise_mark-ge ids family m (alias_of t) = omega arith
raise_mark-ge ids family m (assigned f id) = ground arith

highest_number-ge :
    (ids : EntryIds) (family : String) (m : ℕ) (rs : List Record)
    → m ≤ highest_number ids family m rs
unfolding highest_number
highest_number-ge ids family m [] = omega arith
highest_number-ge ids family m (r ∷ rs) = omega (
  arith,
  raise_mark-ge ids family m r.binding,
  highest_number-ge ids family (raise_mark ids family m r.binding) rs,
)

module _ (ids : EntryIds) (bases : Dict String) (series family base id : String) (n : ℕ)
    (unique : HasUniqueBases bases) (has_base : Dict.lookup family bases ≡ some base)
    (parsed : ids.parse_entry_id id ≡ some (base, series, n)) where
  -- A declared id below the mark is another id: the same id would stand in the same family, whose
  -- mark it would raise.
  differs :
      (m : ℕ) (f i : String)
      → Declared ids bases series (assigned f i)
      → raise_mark ids family m (assigned f i) < n
      → (i == id) ≡ false
  unfolding raise_mark
  differs m f i (c, (b, k, fb, fp)) lt = elim (Bool-cases (i == id)) [
    | inr no_match ↦ no_match
    | inl match ↦
        let same = (eq_iff i id).0 match in
        let both : some (b, series, k) ≡ some (base, series, n) = sym (rw same at fp) ∙ parsed in
        let family_eq : f ≡ family = unique f family base (fb ∙ cc both) has_base in
        absurd (ground (arith, (eq_iff f family).1 family_eq, fp, both, lt))
  ]

  contains_step :
      (b : Binding) (m : ℕ) (rest : List String)
      → Declared ids bases series b
      → raise_mark ids family m b < n
      → contains id rest ≡ false
      → contains id (add_id b rest) ≡ false
  unfolding add_id
  contains_step (assigned f i) m rest d lt h = rw (differs m f i d lt) h
  contains_step (alias_of t) m rest d lt h = h

  -- No sound assignment has a number above its family's mark, so an id above it is new.
  pub contains_fresh :
      (m : ℕ) (before rs : List Record)
      → highest_number ids family m rs < n
      → IsChain ids bases series before rs
      → contains id (assigned_ids rs) ≡ false
  unfolding assigned_ids highest_number
  contains_fresh m before [] lt c = refl
  contains_fresh m before (r ∷ rs) lt c =
      contains_step r.binding m (assigned_ids rs) c.0.declared
        (omega (arith, highest_number-ge ids family (raise_mark ids family m r.binding) rs))
        (contains_fresh (raise_mark ids family m r.binding) (before ++ r ∷ []) rs lt c.1)
