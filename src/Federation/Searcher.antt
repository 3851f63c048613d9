-- ===== src/Federation/Searcher.antt =====
-- FederatedStore, FederatedTarget and FederatedSearcher (federated_store.py): the building of a plan.
pub mod Build
pub mod Planning
pub mod Steps
pub mod Cache
pub mod Calls
pub mod Coherence
pub mod Counting
pub mod Targets
mod Tests
pub mod Effects
use httk_store.Prelude.{
  ℕ, zero, suc, ◌+◌, String, Bool, true, false, Option, none, some, List, [], ◌∷◌, ◌++◌, not, map,
  if◌then◌else◌, eqb, ltb, length, contains, Result, ok, err, ◌>>=◌, ◌==◌,
}
use httk_store.Prelude.Dict.{Dict, lookup}
use httk_store.Federation.{
  Exn, SourceError, source_failed, at, Ast, constant, predicate, both, either, neg, Child, Output,
  record_output, field_output, origin_output, output_name, Plan, child_field, replay_ast,
  bind_child,
}
use httk_store.Federation.Count.{Caches, count_plan}

-- What the searcher's operations raise, besides the errors of the sources.
pub data QueryError : Type 0 where
  second_root foreign_target no_variable foreign_expression foreign_output field_to_field :
      QueryError
  empty_name no_outputs not_integer negative_offset no_source_targets : QueryError
  too_few_sources empty_source_name : QueryError
  duplicate_output unknown_source : (name : String) → QueryError
  source : SourceError → QueryError

-- The keys of a mapping, in its order.
abbrev pub keys {ℓ} : {A : Type ℓ} → List (String × A) → List String
keys [] = []
keys ((name, a) ∷ entries) = name ∷ keys entries

abbrev pub without_empty {ℓ} : {A : Type ℓ} → List (String × A) → Bool
without_empty [] = true
without_empty ((name, a) ∷ entries) = if name == "" then false else without_empty entries

-- `FederatedStore.__init__`
unfoldable pub make_store {ℓ} :
    {A : Type ℓ} → List (String × A) → Result QueryError (List (String × A))
make_store sources =
    if ltb (length sources) 2
    then err too_few_sources
    else if without_empty sources
    then ok sources
    else err empty_source_name

abbrev pub first_unknown {ℓ} : {A : Type ℓ} → List String → List (String × A) → Option String
first_unknown known [] = none
first_unknown known ((name, a) ∷ entries) =
    if contains name known then first_unknown known entries else some name

abbrev pub place {ℓ} : {A : Type ℓ} → Option A → String → List (String × A) → List (String × A)
place none name entries = entries
place (some a) name entries = (name, a) ∷ entries

-- The entries of a mapping at the given keys, in the order of these.
unfoldable pub ordered {ℓ} : {A : Type ℓ} → List String → List (String × A) → List (String × A)
ordered [] targets = []
ordered (name ∷ names) targets = place (lookup name targets) name (ordered names targets)

abbrev pub known_targets {ℓ} :
    {A : Type ℓ}
    → Option String
    → List String
    → List (String × A)
    → Result QueryError (List (String × A))
known_targets (some name) known targets = err (unknown_source name)
known_targets none known targets = ok (ordered known targets)

-- `FederatedTarget.__post_init__`: the targets, in the order of the store's sources.
unfoldable pub make_target {ℓ} :
    {A : Type ℓ} → List String → String → List (String × A) → Result QueryError (List (String × A))
unfolding ordered
make_target known name targets = if name == "" then err empty_name else elim targets [
  | [] ↦ err no_source_targets
  | entry ∷ entries ↦ known_targets (first_unknown known (entry ∷ entries)) known (entry ∷ entries)
]

-- A child of a bound searcher: its variable and its prototype searcher.
pub record Prototype (V : Type 0) : Type 1 where
  pub name : String
  pub child : Child V
  pub field : child.Field
  pub searcher : child.Searcher

-- FederatedVariable
pub record Variable (V : Type 0) : Type 1 where
  pub targets : List (String × V)
  pub children : List (Prototype V)

-- FederatedSearcher; `me` stands for its identity, `store_id` for its store's.
pub record Searcher (V : Type 0) : Type 1 where
  pub me : ℕ
  pub store_id : ℕ
  pub store : Dict (Child V)
  pub as_of : Option V
  pub only_latest : Bool
  pub variable : Option (Variable V)
  pub expressions : List (Ast V)
  pub outputs : List Output
  pub count_cache : ℕ
  pub limit : Option ℕ
  pub offset : ℕ

-- A target that all the sources share, or a FederatedTarget of a store.
pub data Target (V : Type 0) : Type 0 where
  shared : (target : V) → Target V
  federated : (owner : ℕ) (targets : List (String × V)) → Target V

-- FederatedExpression
pub record Expression (V : Type 0) : Type 0 where
  pub owner : ℕ
  pub ast : Ast V

-- What an output is declared of: the root variable, a field, the `origin` sentinel or another object.
pub data OutputValue : Type 0 where
  root : (owner : ℕ) → OutputValue
  field_of : (owner : ℕ) (path : List String) → OutputValue
  origin_of : (owner : ℕ) → OutputValue
  other_value : OutputValue

-- The count caches that exist, and the address of the next one.
pub record Heap : Type 0 where
  pub caches : Caches
  pub next : ℕ

-- `_FederatedCountCache()`
abbrev pub fresh : Heap → Heap
fresh heap = record {
  caches = λ k. if eqb heap.next k then none else heap.caches k;
  next = suc heap.next;
}

abbrev pub raised_by {ℓ} : {A : Type ℓ} → Result SourceError A → Result QueryError A
raised_by (ok a) = ok a
raised_by (err e) = err (source e)
