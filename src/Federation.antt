-- ===== src/Federation.antt =====
-- src/httk/store/federated_store.py: the union of several stores behind one searcher. Here: the
-- query tree, the calls of a child store, and the frozen plan.
pub mod Execute
pub mod Count
pub mod Window
pub mod Paging
pub mod Union
pub mod Searcher
pub mod Tests
pub mod Faults
pub mod Results
use httk_store.Prelude.{
  ℕ, String, Bool, true, false, Option, none, some, List, [], ◌∷◌, Result, ok, err, ◌>>=◌,
}
use httk_store.Prelude.Dict.{Dict, lookup}

-- The exceptions of a child store, as the federation tells them apart.
pub data Exn : Type 0 where
  unsupported attribute_error count_unavailable other_error : Exn

-- FederatedSourceError and its two refinements, with the source and the operation.
pub data SourceError : Type 0 where
  source_failed : (source operation : String) → SourceError
  source_unsupported : (source operation : String) → SourceError
  source_count_unavailable : (source operation : String) → SourceError

-- `_source_error`
unfoldable pub source_error : String → String → Exn → SourceError
source_error source operation Exn.unsupported = source_unsupported source operation
source_error source operation Exn.attribute_error = source_unsupported source operation
source_error source operation Exn.count_unavailable = source_failed source operation
source_error source operation Exn.other_error = source_failed source operation

-- `try: … except Exception as exc: raise _source_error(source, operation, exc)`
abbrev pub at {ℓ} : {A : Type ℓ} → String → String → Result Exn A → Result SourceError A
at source operation (ok a) = ok a
at source operation (err e) = err (source_error source operation e)

-- `_Constant`, `_Predicate`, `_And`, `_Or` and `_Not`
pub data Ast (V : Type 0) : Type 0 where
  constant : (value : Bool) → Ast V
  predicate : (path : List String) (operation : String) (arguments : List V) → Ast V
  both : (left right : Ast V) → Ast V
  either : (left right : Ast V) → Ast V
  neg : (expression : Ast V) → Ast V

-- What iterating a child's matches gives: the outputs' values of each match, and the exception that
-- ends the iteration, if one does.
pub record Matches (V : Type 0) : Type 0 where
  pub rows : List (List V)
  pub fault : Option Exn

-- A child store, as the federation calls it. Any call may raise; `searcher` is given `as_of` and
-- `only_latest`, and a searcher is passed on and returned where a call changes it.
pub record Child (V : Type 0) : Type 1 where
  pub Searcher : Type 0
  pub Field : Type 0
  pub Expr : Type 0
  pub searcher : Option V → Bool → Result Exn Searcher
  pub variable : V → Searcher → Result Exn (Field × Searcher)
  pub getattr : Field → String → Result Exn Field
  pub always : Bool → Field → Result Exn Expr
  pub operation : Field → String → List V → Result Exn Expr
  pub conjoin : Expr → Expr → Result Exn Expr
  pub disjoin : Expr → Expr → Result Exn Expr
  pub negate : Expr → Result Exn Expr
  pub add : Expr → Searcher → Result Exn Searcher
  pub output : Field → String → Searcher → Result Exn Searcher
  pub set_limit : ℕ → Searcher → Result Exn Searcher
  pub matches : Searcher → Result Exn (Matches V)
  pub count : Searcher → Result Exn ℕ

-- `_RecordOutput`, `_FieldOutput` and `_OriginOutput`
pub data Output : Type 0 where
  record_output : (name : String) → Output
  field_output : (name : String) (path : List String) → Output
  origin_output : (name : String) → Output

abbrev pub output_name : Output → String
output_name (record_output name) = name
output_name (field_output name path) = name
output_name (origin_output name) = name

-- `_FederatedPlan`. The count cache is an object that plans share: its address.
pub record Plan (V : Type 0) : Type 0 where
  pub sources : List (String × V)
  pub expressions : List (Ast V)
  pub outputs : List Output
  pub offset : ℕ
  pub limit : Option ℕ
  pub as_of : Option V
  pub only_latest : Bool
  pub count_cache : ℕ

module _ {V : Type 0} (c : Child V) where
  -- `_child_field`
  unfoldable pub child_field : c.Field → List String → Result Exn c.Field
  child_field field [] = ok field
  child_field field (name ∷ path) = do next ← c.getattr field name; child_field next path

  -- `_replay_ast`
  unfoldable pub replay_ast : Ast V → c.Field → Result Exn c.Expr
  unfolding child_field
  replay_ast (constant value) variable = c.always value variable
  replay_ast (predicate path operation arguments) variable = do
    field ← child_field variable path
    c.operation field operation arguments
  replay_ast (both left right) variable = do
    l ← replay_ast left variable
    r ← replay_ast right variable
    c.conjoin l r
  replay_ast (either left right) variable = do
    l ← replay_ast left variable
    r ← replay_ast right variable
    c.disjoin l r
  replay_ast (neg expression) variable = do e ← replay_ast expression variable; c.negate e

  -- The replay of a plan's conditions into a child searcher.
  unfoldable pub add_all : List (Ast V) → c.Field → c.Searcher → Result Exn c.Searcher
  add_all [] variable s = ok s
  add_all (ast ∷ asts) variable s = do
    e ← replay_ast ast variable
    s' ← c.add e s
    add_all asts variable s'

  -- The searcher and the variable of a child, from `_child_searcher` on.
  unfoldable pub bind_child : Option V → Bool → V → Result Exn (c.Field × c.Searcher)
  bind_child as_of only_latest target = do s ← c.searcher as_of only_latest; c.variable target s
