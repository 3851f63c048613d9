-- ===== src/IdLedger/Bases/Laws.antt =====
-- The checks on base maps (id_ledger.py), against the uniqueness and the growth of a map.
use httk_store.Prelude.{
  String, ◌≡◌, refl, sym, ◌∙◌, inl, inr, Bool, false, Option, none, some, List, [], ◌∷◌, ◌++◌,
  contains, ok, arith, eq_iff, eq_refl, Option-cases, Result-cases, >>=-eq-ok, ok-injective,
  append-nil,
}
use httk_store.Prelude.Dict.{Dict, lookup}
use httk_store.IdLedger.Records.{EntryIds}
use httk_store.IdLedger.Ledger.Invariant.{HasUniqueBases}
use httk_store.IdLedger.Container.{HasUniqueKeys, SameDict}
use httk_store.IdLedger.Bases.{
  duplicate_from, duplicate_base, check_formats, validate_bases, check_family, check_stored,
  added_families, extend_by, extend_bases,
}

-- Where no duplicate is found, no base that is seen is found under a family.
not_seen :
    (seen : List String) (bases : Dict String) (f b : String)
    → duplicate_from seen bases ≡ none
    → lookup f bases ≡ some b
    → contains b seen ≡ false
unfolding duplicate_from lookup
not_seen seen [] f b h e = cc
not_seen seen ((g, c) ∷ rest) f b h e =
    ground (arith, eq_iff g f, eq_iff c b, not_seen (c ∷ seen) rest f b)

unique_from :
    (seen : List String) (bases : Dict String)
    → duplicate_from seen bases ≡ none
    → HasUniqueBases bases
unfolding duplicate_from lookup
unique_from seen [] h f g b e k = cc
unique_from seen ((i, c) ∷ rest) h f g b e k = ground (
  arith,
  eq_iff i f,
  eq_iff i g,
  eq_iff c b,
  eq_refl c,
  eq_refl b,
  λ (d : duplicate_from (c ∷ seen) rest ≡ none) (x : lookup f rest ≡ some b)
        (y : lookup g rest ≡ some b).
      unique_from (c ∷ seen) rest d f g b x y,
  not_seen (c ∷ seen) rest f b,
  not_seen (c ∷ seen) rest g b,
)

-- `_duplicate_base` finds nothing only where each base has one family.
pub duplicate_base→unique :
    (bases : Dict String) → duplicate_base bases ≡ none → HasUniqueBases bases
unfolding duplicate_base
duplicate_base→unique bases h = unique_from [] bases h

pub lookup_later :
    (f g b c : String) (rest : Dict String)
    → lookup g rest ≡ none
    → lookup f rest ≡ some b
    → lookup f ((g, c) ∷ rest) ≡ some b
unfolding lookup
lookup_later f g b c rest absent e = ground (arith, eq_iff g f)

-- Where each base has one family, and each family stands once, nothing is found.
no_duplicate_from :
    (seen : List String) (bases : Dict String)
    → HasUniqueKeys bases
    → HasUniqueBases bases
    → ((f b : String) → lookup f bases ≡ some b → contains b seen ≡ false)
    → duplicate_from seen bases ≡ none
unfolding duplicate_from lookup
no_duplicate_from seen [] k u s = refl
no_duplicate_from seen ((g, c) ∷ rest) (absent, k) u s = rw (s g c (rw eq_refl)) (
    no_duplicate_from (c ∷ seen) rest k
      (λ f h b x y.
        u f h b (lookup_later f g b c rest absent x) (lookup_later h g b c rest absent y))
      (λ f b x.
        let later = lookup_later f g b c rest absent x in
        ground (
          arith,
          eq_iff c b,
          s f b later,
          eq_refl g,
          λ (z : lookup f ((g, c) ∷ rest) ≡ some c). u f g c z (rw eq_refl),
          later,
        )))

pub unique→duplicate_base :
    (bases : Dict String) → HasUniqueKeys bases → HasUniqueBases bases → duplicate_base bases ≡ none
unfolding duplicate_base
unique→duplicate_base bases k u = no_duplicate_from [] bases k u (λ f b e. refl)

pub validate_bases→unique :
    (ids : EntryIds) (bases checked : Dict String) (series : String)
    → validate_bases ids bases series ≡ ok checked
    → (checked ≡ bases) × HasUniqueBases bases
unfolding validate_bases
validate_bases→unique ids [] checked series h = cc
validate_bases→unique ids (b ∷ bases) checked series h =
    elim (Result-cases (check_formats ids series (b ∷ bases))) [
      | inr (e, bad) ↦ absurd (cc (rw (bad, validate_bases) at h))
      | inl (tt, formed) ↦ elim (Option-cases (duplicate_base (b ∷ bases))) [
        | inl fine ↦ (
          ok-injective (sym (rw (formed, fine, validate_bases) at h)),
          duplicate_base→unique (b ∷ bases) fine,
        )
        | inr (d, twice) ↦ absurd (cc (rw (formed, twice, validate_bases) at h))
      ]
    ]

lookup-append :
    (f : String) (xs ys : Dict String)
    → lookup f (xs ++ ys) ≡ elim (lookup f xs) [ some b ↦ some b | none ↦ lookup f ys ]
unfolding lookup
lookup-append f [] ys = refl
lookup-append f ((g, c) ∷ xs) ys = ground (arith, lookup-append f xs ys)

lookup-added :
    (f : String) (stored expected : Dict String)
    → lookup f stored ≡ none
    → lookup f (added_families stored expected) ≡ lookup f expected
unfolding lookup added_families
lookup-added f stored [] h = refl
lookup-added f stored ((g, c) ∷ rest) h = ground (arith, eq_iff g f, lookup-added f stored rest h)

check_family_ok : (o : Option String) (c : String) → check_family o c ≡ ok tt → o ≡ some c
unfolding check_family
check_family_ok none c h = cc
check_family_ok (some x) c h = ground (arith, eq_iff x c)

stored_kept :
    (stored expected : Dict String) (f b : String)
    → check_stored stored expected ≡ ok tt
    → lookup f stored ≡ some b
    → lookup f expected ≡ some b
unfolding check_stored lookup
stored_kept [] expected f b h e = cc
stored_kept ((g, c) ∷ rest) expected f b h e =
    elim (Result-cases (check_family (lookup g expected) c)) [
      | inr (x, bad) ↦ absurd (cc (rw bad at h))
      | inl (tt, fine) ↦ ground (
        arith,
        eq_iff g f,
        check_family_ok (lookup g expected) c fine,
        stored_kept rest expected f b (rw fine at h),
      )
    ]

merged-SameDict :
    (stored expected : Dict String)
    → check_stored stored expected ≡ ok tt
    → SameDict (stored ++ added_families stored expected) expected
merged-SameDict stored expected h f = elim (Option-cases (lookup f stored)) [
  | inl absent ↦
      lookup-append f stored (added_families stored expected)
      ∙ rw absent (lookup-added f stored expected absent)
  | inr (b, present) ↦
      lookup-append f stored (added_families stored expected)
      ∙ rw present (sym (stored_kept stored expected f b h present))
]

extend_by_ok :
    (ids : EntryIds) (stored added : Dict String) (series : String) (m : Dict String) (grown : Bool)
    → HasUniqueBases stored
    → extend_by ids stored added series ≡ ok (m, grown)
    → (m ≡ stored ++ added) × HasUniqueBases m
unfolding extend_by
extend_by_ok ids stored [] series m grown u h =
    let same : m ≡ stored = cc (ok-injective h) in (same ∙ sym (append-nil stored), rw same u)
extend_by_ok ids stored (a ∷ added) series m grown u h =
    elim (Result-cases (validate_bases ids (stored ++ a ∷ added) series)) [
      | inr (e, bad) ↦ absurd (cc (rw (bad, extend_by) at h))
      | inl (checked, fine) ↦
          let same : m ≡ stored ++ a ∷ added = cc (ok-injective (rw (fine, extend_by) at h)) in
          (same, rw same (validate_bases→unique ids (stored ++ a ∷ added) checked series fine).1)
    ]

-- Where the stored bases are unique and `_extend_bases` accepts an expected base map, what it
-- returns has exactly the expected entries, up to order, and no base twice.
pub extend_bases_lem :
    (ids : EntryIds) (stored expected : Dict String) (series : String) (m : Dict String)
    (grown : Bool)
    → HasUniqueBases stored
    → extend_bases ids stored expected series ≡ ok (m, grown)
    → SameDict m expected × HasUniqueBases m
unfolding extend_bases
extend_bases_lem ids stored expected series m grown u h =
    elim (Result-cases (check_stored stored expected)) [
      | inr (e, bad) ↦ absurd (cc (rw (bad, extend_bases) at h))
      | inl (tt, kept) ↦
          let (same, unique) =
            extend_by_ok ids stored (added_families stored expected) series m grown u
              (rw (kept, extend_bases) at h) in
          (rw same (merged-SameDict stored expected kept), unique)
    ]

-- A stored family keeps its base.
pub extend_bases_kept :
    (ids : EntryIds) (stored expected : Dict String) (series : String) (m : Dict String)
    (grown : Bool) (f b : String)
    → HasUniqueBases stored
    → extend_bases ids stored expected series ≡ ok (m, grown)
    → lookup f stored ≡ some b
    → lookup f m ≡ some b
unfolding extend_bases
extend_bases_kept ids stored expected series m grown f b u h e =
    let (_, kept, rest) = >>=-eq-ok (check_stored stored expected) _ h in
    let added = added_families stored expected in
    let (same, _) = extend_by_ok ids stored added series m grown u rest in
    rw (same, lookup-append f stored added, e)
