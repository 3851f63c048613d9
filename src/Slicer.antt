-- ===== src/Slicer.antt =====
-- src/httk/store/query/slicer.py: a `[]` indexing layer over a store's searchers.
pub mod Masks
pub mod Index
pub mod Meaning
pub mod Views
pub mod Names
mod Tests
use httk_store.Prelude.{
  ℕ, String, Bool, true, false, Option, none, some, List, [], ◌∷◌, ◌==◌, not, if◌then◌else◌, eqb,
  contains, Result, ok, err, ◌>>=◌,
}

-- `_Op`
pub data Op : Type 0 where
  eq ne lt le gt ge is_in has_text startswith endswith : Op

-- `_Cmp`, `_And`, `_Or` and `_Not`; an operand is a value of the type V.
pub data Node (V : Type 0) : Type 0 where
  cmp : (path : List String) (op : Op) (args : List V) → Node V
  both : (left right : Node V) → Node V
  either : (left right : Node V) → Node V
  neg : (inner : Node V) → Node V

-- The search protocol of a store, as the slicer calls it. A query variable and its fields are one
-- type; `getattr` gives `none` where it raises AttributeError. `method` is a comparison dunder or a
-- text matcher by its name. A searcher is passed on and returned where the protocol changes it;
-- `records`, `values` and `rows` are what `results` iterates for a record, a field, and named fields.
pub record Search (V : Type 0) : Type 1 where
  pub Field : Type 0
  pub Expr : Type 0
  pub Searcher : Type 0
  pub Rec : Type 0
  pub getattr : Field → String → Option Field
  pub method : Op → Field → V → Expr
  pub is_in : Field → List V → Expr
  pub conjoin : Expr → Expr → Expr
  pub disjoin : Expr → Expr → Expr
  pub negate : Expr → Expr
  pub make : Searcher
  pub variable : Searcher → Field × Searcher
  pub add : Expr → Searcher → Searcher
  pub records : Field → Searcher → List Rec
  pub values : Field → Searcher → List V
  pub rows : List (String × Field) → Searcher → List (List V)
  pub count : Searcher → ℕ

-- What the slicer raises itself: TypeError and ValueError, by their place.
pub data Refused : Type 0 where
  bad_key other_slicer empty_projection no_identifier duplicate_name : Refused

-- `_compile` on a leaf, whose field is resolved; `none` is the IndexError of `args[0]`.
unfoldable pub first_arg : {V : Type 0} (s : Search V) → Op → s.Field → List V → Option s.Expr
first_arg s op field [] = none
first_arg s op field (v ∷ vs) = some (s.method op field v)

unfoldable pub compile_leaf : {V : Type 0} (s : Search V) → Op → s.Field → List V → Option s.Expr
unfolding first_arg
compile_leaf s Op.is_in field args = some (s.is_in field args)
compile_leaf s op field args = first_arg s op field args

-- `_resolve`
unfoldable pub resolve : {V : Type 0} (s : Search V) → s.Field → List String → Option s.Field
resolve s field [] = some field
resolve s field (name ∷ path) = elim (s.getattr field name) [
  | none ↦ none
  | some next ↦ resolve s next path
]

-- `_compile`
unfoldable pub compile : {V : Type 0} (s : Search V) → Node V → s.Field → Option s.Expr
unfolding compile_leaf
compile s (cmp path op args) variable = elim (resolve s variable path) [
  | none ↦ none
  | some field ↦ compile_leaf s op field args
]
compile s (both left right) variable = elim (compile s left variable) [
  | none ↦ none
  | some l ↦ elim (compile s right variable) [ none ↦ none | some r ↦ some (s.conjoin l r) ]
]
compile s (either left right) variable = elim (compile s left variable) [
  | none ↦ none
  | some l ↦ elim (compile s right variable) [ none ↦ none | some r ↦ some (s.disjoin l r) ]
]
compile s (neg inner) variable = elim (compile s inner variable) [
  | none ↦ none
  | some e ↦ some (s.negate e)
]
