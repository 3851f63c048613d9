-- ===== src/IdLedger/Bases.antt =====
-- The base maps of an id ledger (id_ledger.py): `_duplicate_base`, `_validate_bases` and
-- `_extend_bases`.
pub mod Laws
use httk_store.Prelude.{
  ℕ, String, Bool, true, false, Option, none, some, List, [], ◌∷◌, ◌++◌, ◌==◌, ◌&&◌, if◌then◌else◌,
  contains, Result, ok, err, ◌>>=◌, ◌>>◌, or_raise,
}
use httk_store.Prelude.Dict.{Dict, lookup, insert}
use httk_store.IdLedger.Errors.{Error, value_error, family_absent, family_rebased}
use httk_store.IdLedger.Records.{EntryIds}

-- `_duplicate_base`, with the set `seen` as a list.
unfoldable pub duplicate_from : List String → Dict String → Option String
duplicate_from seen [] = none
duplicate_from seen ((family, base) ∷ rest) =
    if contains base seen then some base else duplicate_from (base ∷ seen) rest

unfoldable pub duplicate_base : Dict String → Option String
unfolding duplicate_from
duplicate_base bases = duplicate_from [] bases

-- The loop of `_validate_bases`: each base forms an id with the series.
unfoldable pub check_formats : EntryIds → String → Dict String → Result Error (Unit {0})
check_formats ids series [] = ok tt
check_formats ids series ((family, base) ∷ rest) = do
  _ ← or_raise (ids.format_entry_id base series 1) value_error
  check_formats ids series rest

-- `_validate_bases`
unfoldable pub validate_bases : EntryIds → Dict String → String → Result Error (Dict String)
unfolding check_formats duplicate_base
validate_bases ids [] series = err value_error
validate_bases ids (b ∷ bases) series = do
  check_formats ids series (b ∷ bases)
  elim (duplicate_base (b ∷ bases)) [ some base ↦ err value_error | none ↦ ok (b ∷ bases) ]

-- The first loop of `_extend_bases`.
unfoldable pub check_family : Option String → String → Result Error (Unit {0})
check_family none base = err family_absent
check_family (some expected) base = if expected == base then ok tt else err family_rebased

unfoldable pub check_stored : Dict String → Dict String → Result Error (Unit {0})
unfolding check_family
check_stored [] expected = ok tt
check_stored ((family, base) ∷ rest) expected = do
  check_family (lookup family expected) base
  check_stored rest expected

-- The expected families that are not stored.
unfoldable pub added_families : Dict String → Dict String → Dict String
added_families stored [] = []
added_families stored ((family, base) ∷ rest) =
    let more = added_families stored rest in
    elim (lookup family stored) [ some _ ↦ more | none ↦ (family, base) ∷ more ]

-- `{**stored, **added}`: the added families are none of the stored ones.
unfoldable pub merged_bases : Dict String → Dict String → Dict String
merged_bases stored added = stored ++ added

-- The end of `_extend_bases`, on the added families.
unfoldable pub extend_by :
    EntryIds → Dict String → Dict String → String → Result Error (Dict String × Bool)
unfolding merged_bases
extend_by ids stored [] series = ok (stored, false)
extend_by ids stored (a ∷ added) series = do
  _ ← validate_bases ids (merged_bases stored (a ∷ added)) series
  ok (merged_bases stored (a ∷ added), true)

-- `_extend_bases`
unfoldable pub extend_bases :
    EntryIds → Dict String → Dict String → String → Result Error (Dict String × Bool)
unfolding extend_by
extend_bases ids stored expected series = do
  check_stored stored expected
  extend_by ids stored (added_families stored expected) series
