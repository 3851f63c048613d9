-- ===== src/Evaluator/Root.antt =====
-- `_root_scope` and `evaluate` (evaluator.py): the search for the scope of the record.
pub mod Search
use httk_store.Prelude.{
  ℕ, zero, suc, ◌+◌, ◌≤◌, ◌≡◌, refl, ap, sym, ◌∙◌, Bool, Option, none, some, List, [], ◌∷◌, Result,
  arith,
}
use httk_store.Evaluator.{
  Operator, FieldName, Predicate, constant, compare, is_null, exists, both, either, neg, when_known,
  scaled, Value, valued, ValueKind, field_value, store_timestamp, logical_id, alt_kind,
  alternative_id, present, literal, null, count, distinct_count, Scope, root, child, identifier,
  Python, Resolvers, EvalError, Environment, bind_item,
}
use httk_store.Evaluator.Eval.{eval}

-- What stands on the stack; operands of other kinds are popped without effect.
pub data StackItem (V : Type 0) : Type 0 where
  predicate_node : Predicate V → StackItem V
  value_node : Value V → StackItem V
  scope_node : Scope V → StackItem V

module _ {V : Type 0} where
  -- `item.operands`
  abbrev pub operands : Predicate V → List (StackItem V)
  operands (constant value) = []
  operands (compare left operator right) = value_node left ∷ value_node right ∷ []
  operands (is_null value) = value_node value ∷ []
  operands (exists scope nested) = scope_node scope ∷ predicate_node nested ∷ []
  operands (both left right) = predicate_node left ∷ predicate_node right ∷ []
  operands (either left right) = predicate_node left ∷ predicate_node right ∷ []
  operands (neg operand) = predicate_node operand ∷ []
  operands (when_known known operand) = predicate_node known ∷ predicate_node operand ∷ []
  operands (scaled left left_factor right right_factor) =
      value_node left ∷ value_node left_factor ∷ value_node right ∷ value_node right_factor ∷ []

  -- `item.scope`
  abbrev pub scope_of : Value V → Option (Scope V)
  scope_of (valued codec (field_value scope name)) = some scope
  scope_of (valued codec store_timestamp) = none
  scope_of (valued codec logical_id) = none
  scope_of (valued codec alt_kind) = none
  scope_of (valued codec (alternative_id scope name prefix)) = some scope
  scope_of (valued codec (present scope name)) = some scope
  scope_of (valued codec (literal value)) = none
  scope_of (valued codec null) = none
  scope_of (valued codec (count scope)) = some scope
  scope_of (valued codec (distinct_count scope value)) = some scope

  -- `stack.extend`, the top of the stack at the head of the list.
  abbrev pub extend : List (StackItem V) → List (StackItem V) → List (StackItem V)
  extend [] stack = stack
  extend (node ∷ nodes) stack = extend nodes (node ∷ stack)

  abbrev pub push_scope : Option (Scope V) → List (StackItem V) → List (StackItem V)
  push_scope none stack = stack
  push_scope (some scope) stack = scope_node scope ∷ stack

  -- The loop of `_root_scope`: `none` where the fuel does not last.
  unfoldable pub search_root : ℕ → List (StackItem V) → Option (Option (Scope V))
  search_root zero stack = none
  search_root (suc fuel) [] = some none
  search_root (suc fuel) (scope_node (root k scalar) ∷ stack) = some (some (root k scalar))
  search_root (suc fuel) (scope_node (child k parent r f scalar) ∷ stack) =
      search_root fuel (scope_node parent ∷ stack)
  search_root (suc fuel) (value_node value ∷ stack) =
      search_root fuel (push_scope (scope_of value) stack)
  search_root (suc fuel) (predicate_node predicate ∷ stack) =
      search_root fuel (extend (operands predicate) stack)

  -- The fuel that a node takes, and the scope that it leads to, the last operand first.
  abbrev pub scope_fuel : Scope V → ℕ
  scope_fuel (root k scalar) = 1
  scope_fuel (child k parent r f scalar) = suc (scope_fuel parent)

  abbrev pub maybe_fuel : Option (Scope V) → ℕ
  maybe_fuel none = 0
  maybe_fuel (some scope) = scope_fuel scope

  abbrev pub value_fuel : Value V → ℕ
  value_fuel value = suc (maybe_fuel (scope_of value))

  abbrev pub fuel_of : Predicate V → ℕ
  fuel_of (constant value) = 1
  fuel_of (compare left operator right) = suc (value_fuel right + value_fuel left)
  fuel_of (is_null value) = suc (value_fuel value)
  fuel_of (exists scope nested) = suc (fuel_of nested + scope_fuel scope)
  fuel_of (both left right) = suc (fuel_of right + fuel_of left)
  fuel_of (either left right) = suc (fuel_of right + fuel_of left)
  fuel_of (neg operand) = suc (fuel_of operand)
  fuel_of (when_known known operand) = suc (fuel_of operand + fuel_of known)
  fuel_of (scaled left left_factor right right_factor) =
      suc
        (value_fuel right_factor + (value_fuel right + (value_fuel left_factor + value_fuel left)))

  -- `_root_scope`
  abbrev pub root_scope : Predicate V → Option (Option (Scope V))
  root_scope predicate = search_root (suc (fuel_of predicate)) (predicate_node predicate ∷ [])

  abbrev pub root_environment : Option (Option (Scope V)) → Option V → Environment V
  root_environment none record_ = λ k. none
  root_environment (some none) record_ = λ k. none
  root_environment (some (some scope)) record_ = bind_item (identifier scope) record_ (λ k. none)

  -- `evaluate`
  unfoldable pub evaluate :
      Python V → Resolvers V → Predicate V → Option V → Result EvalError (Option Bool)
  unfolding eval search_root
  evaluate py resolvers predicate record_ =
      eval py resolvers predicate (root_environment (root_scope predicate) record_)
