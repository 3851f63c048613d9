-- ===== src/IdLedger/Ledger.antt =====
-- The allocator of id_ledger.py: the state of an open `IdLedger`, `assign`, `alias`, `lookup` and
-- the internals that they call. A method returns its result, or the error, and the state after it.
pub mod Invariant
pub mod Assign
pub mod Alias
use mathlib.Core.Option
use httk_store.Prelude.{
  ℕ, ◌+◌, String, Bool, true, false, Option, none, some, List, [], ◌∷◌, ◌++◌, ◌==◌, if◌then◌else◌,
  contains, Result, ok, err,
}
use httk_store.Prelude.Dict
use httk_store.Prelude.Dict.{Dict, insert}
use httk_store.IdLedger.Errors.{
  Error, closed, read_only, unknown_target, no_base, supersedes_new, supersedes_assignment,
  other_family, aliased_key, assigned_key, alias_to_itself, already_alias, other_target,
  value_error,
}
use httk_store.IdLedger.Records.{
  Binding, assigned, alias_of, Record, live_id, EntryIds, assigned_ids, next_number,
}

-- A `(role, seed)` pair; the seed is its bytes.
abbrev pub SigningKey : Type 0
SigningKey = String × List ℕ

-- `IdLedger`, without the paths of its one file and that file's lock.
pub record Ledger : Type 0 where
  pub bases : Dict String
  pub series : String
  pub ledger_uuid : String
  pub keys : List SigningKey
  pub records : List Record
  pub live : Dict Record
  pub persisted : ℕ
  pub segments : ℕ
  pub read_only : Bool
  pub dirty : Bool
  pub closed : Bool

abbrev pub Action : Type 0 → Type 0
Action A = Ledger → Result Error A × Ledger

-- `_require_open`
unfoldable pub require_open : Ledger → Option Error
require_open l =
    if l.closed then some Error.closed else if l.read_only then some Error.read_only else none

-- `_append`
unfoldable pub append : Record → Ledger → Ledger
append r l = record l { records = l.records ++ r ∷ []; live = insert r.key r l.live; dirty = true }

-- `_mint`, with `format_entry_id` and the base of the family looked up first.
unfoldable pub mint : EntryIds → String → String → Option String → Action String
mint ids key family supersedes l = elim (Dict.lookup family l.bases) [
  | none ↦ (err no_base, l)
  | some base ↦ elim (ids.format_entry_id base l.series (next_number ids family l.records + 1)) [
    | none ↦ (err value_error, l)
    | some id ↦ (
      ok id,
      append (record { key = key; binding = assigned family id; supersedes = supersedes }) l,
    )
  ]
]

-- The branches of `assign` on the key's live binding.
unfoldable pub assign_binding : EntryIds → String → String → Bool → Option Binding → Action String
assign_binding ids key family supersede none l =
    if supersede then (err supersedes_new, l) else mint ids key family none l
assign_binding ids key family supersede (some (assigned f id)) l =
    if supersede
    then (err supersedes_assignment, l)
    else if f == family
    then (ok id, l)
    else (err other_family, l)
assign_binding ids key family supersede (some (alias_of target)) l =
    if supersede then mint ids key family (some target) l else (err aliased_key, l)

-- The live binding of a key: `self._live.get(key)`.
unfoldable pub live_binding : String → Ledger → Option Binding
live_binding key l = Option.map (λ (r : Record). r.binding) (Dict.lookup key l.live)

-- `assign`
unfoldable pub assign : EntryIds → String → String → Bool → Action String
unfolding assign_binding live_binding
assign ids key family supersede l = elim (require_open l) [
  | some e ↦ (err e, l)
  | none ↦ assign_binding ids key family supersede (live_binding key l) l
]

-- `_require_target`, and then the alias record is appended.
unfoldable pub append_alias : String → String → Option String → Action (Unit {0})
append_alias key existing_id supersedes l =
    if contains existing_id (assigned_ids l.records)
    then (
      ok tt,
      append (record { key = key; binding = alias_of existing_id; supersedes = supersedes }) l,
    )
    else (err unknown_target, l)

-- The branches of `alias` on the key's live binding.
unfoldable pub alias_binding : String → String → Bool → Option Binding → Action (Unit {0})
alias_binding key existing_id supersede (some (assigned f id)) l =
    if supersede
    then (if existing_id == id
        then (err alias_to_itself, l)
        else append_alias key existing_id (some id) l)
    else (err assigned_key, l)
alias_binding key existing_id supersede (some (alias_of target)) l =
    if supersede
    then (err already_alias, l)
    else if target == existing_id
    then (ok tt, l)
    else (err other_target, l)
alias_binding key existing_id supersede none l =
    if supersede then (err supersedes_new, l) else append_alias key existing_id none l

-- `alias`
unfoldable pub alias : String → String → Bool → Action (Unit {0})
unfolding alias_binding live_binding
alias key existing_id supersede l = elim (require_open l) [
  | some e ↦ (err e, l)
  | none ↦ alias_binding key existing_id supersede (live_binding key l) l
]

-- `lookup`
unfoldable pub lookup : String → Ledger → Option String
unfolding live_id
lookup key l = Option.map (λ (r : Record). live_id r.binding) (Dict.lookup key l.live)
