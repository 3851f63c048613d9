-- ===== src/IdLedger/Records.antt =====
-- The records of an id ledger (id_ledger.py), and how an ordered list of them is read.
pub mod Chain
use mathlib.Core.Option
use httk_store.Prelude.{
  ℕ, String, ◌≡◌, refl, Bool, true, false, Option, none, some, List, [], ◌∷◌, ◌++◌, arith, ◌==◌,
  if◌then◌else◌, contains, ltb,
}
use httk_store.Prelude.Dict.{Dict, insert}

-- The part of a record dict that binds its key: `{family, id}`, or `{alias_of}`.
pub data Binding : Type 0 where
  assigned : (family id : String) → Binding
  alias_of : (target : String) → Binding

pub record Record : Type 0 where
  pub key : String
  pub binding : Binding
  pub supersedes : Option String

-- `_live_id`
unfoldable pub live_id : Binding → String
live_id (assigned family id) = id
live_id (alias_of target) = target

-- httk.core.entry_ids: `none` is a ValueError of `format_entry_id` and the None of
-- `parse_entry_id`; `conforms` is `ENTRY_ID_PATTERN.fullmatch(id) is not None`.
pub record EntryIds : Type 0 where
  pub format_entry_id : String → String → ℕ → Option String
  pub parse_entry_id : String → Option (String × String × ℕ)
  pub conforms : String → Bool

-- What the ledger relies on: a formatted id matches the pattern, and parses back to its parts.
pub record EntryIdLaws (ids : EntryIds) : Type 0 where
  pub parse-format :
      (base series : String) (n : ℕ) (id : String)
      → ids.format_entry_id base series n ≡ some id
      → ids.parse_entry_id id ≡ some (base, series, n)
  pub format-conforms :
      (base series : String) (n : ℕ) (id : String)
      → ids.format_entry_id base series n ≡ some id
      → ids.conforms id ≡ true

-- `_assigned_ids`: every id ever assigned, in record order.
unfoldable pub add_id : Binding → List String → List String
add_id (assigned family id) rest = id ∷ rest
add_id (alias_of target) rest = rest

unfoldable pub assigned_ids : List Record → List String
unfolding add_id
assigned_ids [] = []
assigned_ids (r ∷ rs) = add_id r.binding (assigned_ids rs)

-- One round of `_next_number`, on a parsed id and on a record's binding.
unfoldable pub higher : ℕ → Option (String × String × ℕ) → ℕ
higher highest none = highest
higher highest (some (_, _, n)) = if ltb highest n then n else highest

unfoldable pub raise_mark : EntryIds → String → ℕ → Binding → ℕ
unfolding higher
raise_mark ids family highest (alias_of _) = highest
raise_mark ids family highest (assigned f id) =
    if f == family then higher highest (ids.parse_entry_id id) else highest

-- The loop of `_next_number`, from the mark `highest`.
unfoldable pub highest_number : EntryIds → String → ℕ → List Record → ℕ
unfolding raise_mark
highest_number ids family highest [] = highest
highest_number ids family highest (r ∷ rs) =
    highest_number ids family (raise_mark ids family highest r.binding) rs

-- `_next_number`
unfoldable pub next_number : EntryIds → String → List Record → ℕ
unfolding highest_number
next_number ids family records = highest_number ids family 0 records

-- The live bindings after the records: `_live[record["key"]] = record`, one by one.
unfoldable pub live_from : Dict Record → List Record → Dict Record
live_from d [] = d
live_from d (r ∷ rs) = live_from (insert r.key r d) rs

-- The newest record of a key.
unfoldable pub newest : String → List Record → Option Record
newest key [] = none
newest key (r ∷ rs) =
    let later = newest key rs in
    elim later [ some n ↦ some n | none ↦ if r.key == key then some r else none ]

-- The id that a key resolves to after the records.
unfoldable pub prior_id : String → List Record → Option String
unfolding newest live_id
prior_id key rs = Option.map (λ (r : Record). live_id r.binding) (newest key rs)

-- The id that a record assigns is one that its family declares.
abbrev pub Declared : EntryIds → Dict String → String → Binding → Type 0
Declared ids bases series (alias_of target) = Unit
Declared ids bases series (assigned family id) =
    (ids.conforms id ≡ true)
    × ((base : String) × (n : ℕ) × (httk_store.Prelude.Dict.lookup family bases ≡ some base)
        × (ids.parse_entry_id id ≡ some (base, series, n)))

-- An assignment takes an id that none of the records before it has.
abbrev pub IsFresh : Binding → List Record → Type 0
IsFresh (alias_of target) before = Unit
IsFresh (assigned family id) before = contains id (assigned_ids before) ≡ false

-- An alias points at an id that the records assign.
abbrev pub Resolves : List Record → Binding → Type 0
Resolves rs (assigned family id) = Unit
Resolves rs (alias_of target) = contains target (assigned_ids rs) ≡ true

-- One record in its place: it supersedes exactly what its key resolved to before it.
pub record IsLink (ids : EntryIds) (bases : Dict String) (series : String) (before : List Record)
    (r : Record) : Type 0 where
  pub supersession : r.supersedes ≡ prior_id r.key before
  pub declared : Declared ids bases series r.binding
  pub fresh : IsFresh r.binding before
