-- ===== src/IdLedger/Validate.antt =====
-- The validation of ledger records in append order: `_validate_entries`, `_check_supersession`
-- and `_validate_entry_id` of id_ledger.py.
pub mod Laws
pub mod Exact
use httk_store.Prelude.{
  String, Bool, true, false, Option, none, some, List, [], ◌∷◌, ◌++◌, ◌==◌, ◌&&◌, if◌then◌else◌,
  contains, Result, ok, err, ◌>>=◌, ◌>>◌, or_raise,
}
use httk_store.Prelude.Dict.{Dict, lookup, insert}
use httk_store.IdLedger.Errors.{
  Error, no_prior_binding, duplicate_binding, wrong_supersession, reused_id, dangling_alias,
  malformed_id, undeclared_family, wrong_base, assertion,
}
use httk_store.IdLedger.Records.{Binding, assigned, alias_of, Record, live_id, EntryIds}

-- `_check_supersession` on the record's `supersedes` and the key's prior id.
unfoldable pub check_supersession : Option String → Option String → Result Error (Unit {0})
check_supersession none none = ok tt
check_supersession (some s) none = err no_prior_binding
check_supersession none (some prior) = err duplicate_binding
check_supersession (some s) (some prior) = if s == prior then ok tt else err wrong_supersession

-- The last test of `_validate_entry_id`, on the declared base and the parsed id.
unfoldable pub check_parts :
    String → String → Option (String × String × httk_store.Prelude.ℕ) → Result Error (Unit {0})
check_parts base series none = err assertion
check_parts base series (some (b, s, n)) =
    if b == base && s == series then ok tt else err wrong_base

-- `_validate_entry_id`
unfoldable pub validate_entry_id :
    EntryIds → Dict String → String → String → String → Result Error (Unit {0})
unfolding check_parts
validate_entry_id ids bases series family id =
    if ids.conforms id
    then (do
      base ← or_raise (lookup family bases) undeclared_family
      check_parts base series (ids.parse_entry_id id))
    else err malformed_id

-- The variables of the loop of `_validate_entries`; the sets are lists in the order of `add`.
pub record Scan : Type 0 where
  pub out : List Record
  pub live : Dict Record
  pub assigned_ids : List String
  pub prior_id : Dict String
  pub pending_targets : List (String × String)

abbrev pub empty_scan : Scan
empty_scan = record { out = []; live = []; assigned_ids = []; prior_id = []; pending_targets = [] }

-- The two branches on `"alias_of" in record`.
unfoldable pub scan_binding :
    EntryIds → Dict String → String → Scan → String → Binding → Result Error Scan
scan_binding ids bases series s key (alias_of target) =
    ok (record s { pending_targets = s.pending_targets ++ (key, target) ∷ [] })
scan_binding ids bases series s key (assigned family id) = do
  validate_entry_id ids bases series family id
  if contains id s.assigned_ids
      then err reused_id
      else ok (record s { assigned_ids = s.assigned_ids ++ id ∷ [] })

-- One round of the loop.
unfoldable pub scan_record : EntryIds → Dict String → String → Scan → Record → Result Error Scan
unfolding scan_binding
scan_record ids bases series s r = do
  s' ← scan_binding ids bases series s r.key r.binding
  check_supersession r.supersedes (lookup r.key s'.prior_id)
  ok (record s' {
    prior_id = insert r.key (live_id r.binding) s'.prior_id;
    out = s'.out ++ r ∷ [];
    live = insert r.key r s'.live;
  })

-- `for record in records`
unfoldable pub scan_records :
    EntryIds → Dict String → String → Scan → List Record → Result Error Scan
scan_records ids bases series s [] = ok s
scan_records ids bases series s (r ∷ rs) = do
  s' ← scan_record ids bases series s r
  scan_records ids bases series s' rs

-- `for key, target in pending_targets`
unfoldable pub check_targets : List String → List (String × String) → Result Error (Unit {0})
check_targets known [] = ok tt
check_targets known ((key, target) ∷ rest) =
    let later = check_targets known rest in
    if contains target known then later else err dangling_alias

-- `_validate_entries`
unfoldable pub validate_entries :
    EntryIds → Dict String → String → List Record → Result Error (List Record × Dict Record)
validate_entries ids bases series records = do
  s ← scan_records ids bases series empty_scan records
  check_targets s.assigned_ids s.pending_targets
  ok (s.out, s.live)
