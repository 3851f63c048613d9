-- ===== src/IdLedger/Tests.antt =====
-- Runs of the id ledger (id_ledger.py) on small inputs, with stand-ins for the entry-id scheme and
-- for the signatures.
use httk_store.Prelude.{
  ℕ, String, ◌≡◌, ◌≢◌, ◌↔◌, refl, ap, true, false, Option, none, some, List, [], ◌∷◌, ◌==◌, ◌&&◌,
  eqb, if◌then◌else◌, ok, eq_iff, arith,
}
use httk_store.Prelude.Dict
use httk_store.Prelude.Dict.{Dict}
use httk_store.IdLedger.Records.{assigned, Record, EntryIds, EntryIdLaws, live_from, prior_id}
use httk_store.IdLedger.Ledger.{Ledger, assign, alias, lookup}
use httk_store.IdLedger.Records.{next_number, assigned_ids}
use httk_store.IdLedger.Ledger.{mint, require_open, append_alias, append}
use httk_store.IdLedger.Ledger.Invariant.{IsValid, HasUniqueBases, lookup-eq-prior_id}
use httk_store.IdLedger.Ledger.Assign.{
  AssignEffect, assign-IsValid, assign_effect, assign_idempotent,
}
use httk_store.IdLedger.Ledger.Alias.{AliasEffect, alias-IsValid, alias_effect}
use httk_store.IdLedger.Storage.Session.{empty_ledger}
use httk_store.IdLedger.Records.Chain.{IsSound}
use httk_store.IdLedger.Validate.{validate_entries}
use httk_store.IdLedger.Validate.Exact.{validate_entries_exact}
use httk_store.IdLedger.Bases.{extend_bases, check_stored, added_families, validate_bases}
use httk_store.IdLedger.Bases.Laws.{extend_bases_lem}
use httk_store.IdLedger.Container.{SameDict}

-- The first entry ids of two bases, in one series.
abbrev toy_format : String → String → ℕ → Option String
toy_format base series n =
    if base == "httk.org" && series == "a"
    then (if eqb n 1 then some "httk.org/a-1" else none)
    else if base == "refs.org" && series == "a"
    then (if eqb n 1 then some "refs.org/a-1" else none)
    else none

abbrev toy_parse : String → Option (String × String × ℕ)
toy_parse id =
    if id == "httk.org/a-1"
    then some ("httk.org", "a", 1)
    else if id == "refs.org/a-1"
    then some ("refs.org", "a", 1)
    else none

abbrev pub toy_ids : EntryIds
toy_ids = record { format_entry_id = toy_format; parse_entry_id = toy_parse; conforms = λ id. true }

distinct : ◌≢◌ {A = String} "httk.org/a-1" "refs.org/a-1"
distinct e = cc (ap (λ s. s == "httk.org/a-1") e)

pub toy_laws : EntryIdLaws toy_ids
toy_laws = record {
  parse-format = λ base series n id h. ground (
    arith,
    h,
    eq_iff base "httk.org",
    eq_iff base "refs.org",
    eq_iff series "a",
    eq_iff id "httk.org/a-1",
    eq_iff id "refs.org/a-1",
    distinct,
  );
  format-conforms = λ base series n id h. refl;
}

-- A new ledger, and the ledger after one key was assigned.
abbrev pub fresh : Ledger
fresh = empty_ledger (("structures", "httk.org") ∷ []) "a" "uuid-1" (("release", 1 ∷ []) ∷ [])

lookup_one : (f g b : String) → Dict.lookup f ((g, b) ∷ []) ≡ (if g == f then some b else none)
unfolding Dict.lookup
lookup_one f g b = refl

pub unique_fresh : HasUniqueBases (("structures", "httk.org") ∷ [])
unique_fresh f g b e k = ground (
  arith,
  e,
  k,
  lookup_one f "structures" "httk.org",
  lookup_one g "structures" "httk.org",
  eq_iff "structures" f,
  eq_iff "structures" g,
)

pub fresh-IsValid : IsValid toy_ids fresh
unfolding empty_ledger live_from
fresh-IsValid = record {
  sound = record { chain = tt; targets = tt };
  newest_live = refl;
  unique_bases = unique_fresh;
}

-- Two keys of one id: an assignment, and an alias of it.
abbrev pub one_key : Ledger
one_key = (assign toy_ids "mp-1" "structures" false fresh).1

abbrev two_keys : Ledger
two_keys = (alias "mp-2" "httk.org/a-1" false one_key).1

pub one_key-IsValid : IsValid toy_ids one_key
one_key-IsValid = assign-IsValid toy_ids toy_laws "mp-1" "structures" fresh fresh-IsValid false

one_key_runs : assign toy_ids "mp-1" "structures" false fresh ≡ (ok "httk.org/a-1", one_key)
unfolding assign mint empty_ledger next_number Dict.lookup require_open
one_key_runs = refl

assign_idempotent_example :
    assign toy_ids "mp-1" "structures" false one_key ≡ (ok "httk.org/a-1", one_key)
assign_idempotent_example =
    assign_idempotent toy_ids toy_laws "mp-1" "structures" fresh fresh-IsValid false "httk.org/a-1"
      one_key one_key_runs

assign-IsValid_example : IsValid toy_ids (assign toy_ids "mp-1" "structures" false fresh).1
assign-IsValid_example =
    assign-IsValid toy_ids toy_laws "mp-1" "structures" fresh fresh-IsValid false

assign_effect_example : AssignEffect "mp-1" fresh (assign toy_ids "mp-1" "structures" false fresh)
assign_effect_example = assign_effect toy_ids toy_laws "mp-1" "structures" fresh fresh-IsValid false

alias-IsValid_example : IsValid toy_ids (alias "mp-2" "httk.org/a-1" false one_key).1
alias-IsValid_example = alias-IsValid toy_ids "mp-2" "httk.org/a-1" one_key one_key-IsValid false

alias_effect_example :
    AliasEffect "mp-2" "httk.org/a-1" one_key (alias "mp-2" "httk.org/a-1" false one_key)
alias_effect_example = alias_effect toy_ids "mp-2" "httk.org/a-1" one_key one_key-IsValid false

lookup-eq-prior_id_example : lookup "mp-2" two_keys ≡ prior_id "mp-2" two_keys.records
lookup-eq-prior_id_example = lookup-eq-prior_id "mp-2" two_keys alias-IsValid_example

-- The alias resolves to the id that the first key was given.
two_keys_runs : lookup "mp-2" two_keys ≡ some "httk.org/a-1"
unfolding assign mint empty_ledger next_number Dict.lookup Dict.insert require_open alias
    append_alias append lookup assigned_ids
two_keys_runs = refl

abbrev sample : List Record
sample =
    record { key = "mp-1"; binding = assigned "structures" "httk.org/a-1"; supersedes = none } ∷ []

abbrev sample_bindings : List Record × Dict Record
sample_bindings = (sample, live_from [] sample)

validate_entries_exact_example :
    (validate_entries toy_ids (("structures", "httk.org") ∷ []) "a" sample ≡ ok sample_bindings) ↔ (
      IsSound toy_ids (("structures", "httk.org") ∷ []) "a" sample
      × (sample_bindings ≡ (sample, live_from [] sample)))
validate_entries_exact_example =
    validate_entries_exact toy_ids (("structures", "httk.org") ∷ []) "a" sample sample_bindings

-- A second family is added to the base map.
abbrev two_bases : Dict String
two_bases = ("structures", "httk.org") ∷ ("references", "refs.org") ∷ []

extends :
    extend_bases toy_ids (("structures", "httk.org") ∷ []) two_bases "a" ≡ ok (two_bases, true)
unfolding extend_bases check_stored added_families validate_bases Dict.lookup
extends = refl

extend_bases_lem_example : SameDict two_bases two_bases × HasUniqueBases two_bases
extend_bases_lem_example =
    extend_bases_lem toy_ids (("structures", "httk.org") ∷ []) two_bases "a" two_bases true
      unique_fresh extends
