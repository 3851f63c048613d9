-- ===== src/Federation/Searcher/Build.antt =====
-- The operations of FederatedSearcher, FederatedVariable, FederatedField and FederatedExpression
-- (federated_store.py).
use httk_store.Prelude.{
  ℕ, String, Bool, true, false, Option, none, some, List, [], ◌∷◌, ◌++◌, not, map, if◌then◌else◌,
  eqb, Result, ok, err, ◌>>=◌, ◌||◌,
}
use httk_store.Prelude.Dict.{Dict, lookup}
use httk_store.Federation.{
  Exn, SourceError, at, Ast, constant, predicate, both, either, neg, Child, replay_ast, bind_child,
}
use httk_store.Federation.Searcher.{
  QueryError, second_root, foreign_target, no_variable, foreign_expression, field_to_field, keys,
  Prototype, Variable, Searcher, Target, shared, federated, Expression, Heap, fresh, raised_by,
}

-- Whether an argument of a predicate is a field or an expression.
abbrev any_of {ℓ} : {A : Type ℓ} → (A → Bool) → List A → Bool
any_of test [] = false
any_of test (a ∷ arguments) = test a || any_of test arguments

module _ {V : Type 0} where
  abbrev pub require_variable : Searcher V → Result QueryError (Variable V)
  require_variable s = elim s.variable [ none ↦ err no_variable | some v ↦ ok v ]

  -- The loop of `variable` over the sources that have a target.
  unfoldable pub bind_children :
      Option V → Bool → List (String × V) → Dict (Child V) → Result SourceError (List (Prototype V))
  bind_children as_of only_latest targets [] = ok []
  bind_children as_of only_latest targets ((name, c) ∷ sources) =
      let others = bind_children as_of only_latest targets sources in
      elim (lookup name targets) [
        | none ↦ others
        | some target ↦ do
          (field, searcher) ← at name "target binding" (bind_child c as_of only_latest target)
          prototypes ← others
          ok (record { name = name; child = c; field = field; searcher = searcher } ∷ prototypes)
      ]

  abbrev pub source_targets : Searcher V → Target V → Result QueryError (List (String × V))
  source_targets s (shared target) = ok (map (λ name. (name, target)) (keys s.store))
  source_targets s (federated owner targets) =
      if eqb owner s.store_id then ok targets else err foreign_target

  abbrev pub bound_to : Searcher V → Variable V → Searcher V
  bound_to s variable = record s { variable = some variable }

  -- `FederatedSearcher.variable`
  unfoldable pub bind_variable : Searcher V → Target V → Result QueryError (Searcher V)
  unfolding bind_children
  bind_variable s target = elim s.variable [
    | some v ↦ err second_root
    | none ↦ do
      targets ← source_targets s target
      children ← raised_by (bind_children s.as_of s.only_latest targets s.store)
      ok (bound_to s (record { targets = targets; children = children }))
  ]

  -- `_validate`: the expression is replayed on each child's variable.
  unfoldable pub validate : List (Prototype V) → Ast V → String → Result SourceError (Unit {0})
  validate [] ast operation = ok tt
  validate (p ∷ prototypes) ast operation = do
    e ← at p.name operation (replay_ast p.child ast p.field)
    validate prototypes ast operation

  -- `_expression`
  unfoldable pub expression : Searcher V → Ast V → String → Result QueryError (Expression V)
  unfolding validate
  expression s ast operation = do
    variable ← require_variable s
    valid ← raised_by (validate variable.children ast operation)
    ok (record { owner = s.me; ast = ast })

  -- `always_true` and `always_false`
  unfoldable pub always : Searcher V → Bool → Result QueryError (Expression V)
  unfolding expression
  always s true = expression s (constant true) "always_true"
  always s false = expression s (constant false) "always_false"

  -- `_predicate`; `is_field` tells the arguments that are fields or expressions.
  unfoldable pub compare :
      (V → Bool) → Searcher V → List String → String → List V → Result QueryError (Expression V)
  unfolding expression
  compare is_field s path operation arguments =
      if any_of is_field arguments
      then err field_to_field
      else expression s (predicate path operation arguments) operation

  -- `__and__` and `__or__`, of an expression of this searcher with another.
  unfoldable pub combine :
      Bool → Searcher V → Expression V → Expression V → Result QueryError (Expression V)
  unfolding expression
  combine conjunction s left right =
      if not (eqb right.owner s.me)
      then err foreign_expression
      else if conjunction
      then expression s (both left.ast right.ast) "AND"
      else expression s (either left.ast right.ast) "OR"

  -- `__invert__`
  unfoldable pub invert : Searcher V → Expression V → Result QueryError (Expression V)
  unfolding expression
  invert s e = expression s (neg e.ast) "NOT"

  abbrev add_one : Ast V → (p : Prototype V) → Result Exn (Prototype V)
  add_one ast p = do
    e ← replay_ast p.child ast p.field
    searcher ← p.child.add e p.searcher
    ok (record p { searcher = searcher })

  -- The loop of `add`: the prototypes before one that fails have taken the condition.
  unfoldable pub add_children :
      Ast V → List (Prototype V) → Result SourceError (Unit {0}) × List (Prototype V)
  add_children ast [] = (ok tt, [])
  add_children ast (p ∷ prototypes) =
      let others = add_children ast prototypes in
      elim (at p.name "add" (add_one ast p)) [
        | err e ↦ (err e, p ∷ prototypes)
        | ok p' ↦ (others.0, p' ∷ others.1)
      ]

  abbrev pub conditioned :
      Searcher V → List (String × V) → Ast V → List (Prototype V) → ℕ → Searcher V
  conditioned s targets ast children address = record s {
    variable = some (record { targets = targets; children = children });
    expressions = s.expressions ++ ast ∷ [];
    count_cache = address;
  }

  abbrev pub added :
      Searcher V
      → Heap
      → List (String × V)
      → Ast V
      → Result SourceError (Unit {0}) × List (Prototype V)
      → Result QueryError (Unit {0}) × Searcher V × Heap
  added s heap targets ast (err e, children) = (
    err (QueryError.source e),
    bound_to s (record { targets = targets; children = children }),
    heap,
  )
  added s heap targets ast (ok u, children) =
      (ok tt, conditioned s targets ast children heap.next, fresh heap)

  -- `FederatedSearcher.add`
  unfoldable pub add :
      Searcher V → Expression V → Heap → Result QueryError (Unit {0}) × Searcher V × Heap
  unfolding add_children
  add s e heap = elim s.variable [
    | none ↦ (err no_variable, s, heap)
    | some v ↦
        if not (eqb e.owner s.me)
        then (err foreign_expression, s, heap)
        else added s heap v.targets e.ast (add_children e.ast v.children)
  ]
