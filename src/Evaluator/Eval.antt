-- ===== src/Evaluator/Eval.antt =====
-- `_eval_predicate`, `_items` and `_eval_value` (evaluator.py).
pub mod Parts
unfoldable pub use Parts.*
use httk_store.Prelude.{
  ℕ, String, Bool, true, false, not, Option, none, some, List, [], ◌∷◌, ◌++◌, if◌then◌else◌, length,
  ◌==◌, Result, ok, err, ◌>>=◌, ◌||◌,
}
use httk_store.Evaluator.{
  Operator, equals, differs, less, at_most, greater, at_least, contains_text, starts, ends,
  other_operator, ValueCodec, Relationship, FieldName, plain, prefixed, without_separator,
  Predicate, constant, compare, is_null, exists, both, either, neg, when_known, scaled, Value,
  valued, ValueKind, field_value, store_timestamp, logical_id, alt_kind, alternative_id, present,
  literal, null, count, distinct_count, Scope, root, child, Filter, unfiltered, filtered_by,
  identifier, scalar_child, Python, Resolvers, resolved, EvalError, unsupported_operator,
  invalid_marker, missing_attribute, Environment, bind_item,
}

module _ {V : Type 0} (py : Python V) (resolvers : Resolvers V) where
  unfoldable mutual
    -- `_eval_predicate`
    pub eval : Predicate V → Environment V → Result EvalError (Option Bool)
    eval (constant value) env = ok value
    eval (compare left operator right) env = do
      l ← eval_value left env
      r ← eval_value right env
      compare_values py l left operator r right
    eval (is_null value) env = do v ← eval_value value env; ok (some (is_none v))
    eval (exists scope nested) env = do
      items ← items_of scope env
      any_item (λ item. eval nested (bind_item (identifier scope) item env)) items
    eval (both left right) env = do l ← eval left env; r ← eval right env; ok (and3 l r)
    eval (either left right) env = do l ← eval left env; r ← eval right env; ok (or3 l r)
    eval (neg operand) env = do v ← eval operand env; ok (not3 v)
    eval (when_known known operand) env = do
      k ← eval known env
      let result = eval operand env in if is_true k then result else ok none
    eval (scaled left left_factor right right_factor) env = do
      l ← eval_value left env
      lf ← eval_value left_factor env
      r ← eval_value right env
      rf ← eval_value right_factor env
      compare_scaled py l lf r rf

    -- `_items`
    pub items_of : Scope V → Environment V → Result EvalError (List (Option V))
    items_of (root k scalar) env = elim (env k) [ some item ↦ ok (item ∷ []) | none ↦ ok [] ]
    items_of (child k parent relationship filter scalar) env = elim (env k) [
      | some item ↦ ok (item ∷ [])
      | none ↦ do
        parents ← items_of parent env
        values ← related py relationship parents
        filter_items filter k env values
    ]

    pub filter_items :
        Filter V → ℕ → Environment V → List (Option V) → Result EvalError (List (Option V))
    filter_items unfiltered k env items = ok items
    filter_items (filtered_by predicate) k env items =
        keep_items (λ item. eval predicate (bind_item k item env)) items

    -- `_eval_value`
    pub eval_value : Value V → Environment V → Result EvalError (Option V)
    eval_value (valued codec kind) env = eval_kind kind env

    pub eval_kind : ValueKind V → Environment V → Result EvalError (Option V)
    eval_kind (field_value scope name) env = do
      items ← items_of scope env
      of_only (field_of py (scalar_child scope) name) items
    eval_kind store_timestamp env = resolved resolvers.timestamp
    eval_kind logical_id env = resolved resolvers.logical
    eval_kind alt_kind env = resolved resolvers.kind
    eval_kind (alternative_id scope name prefix) env = do
      items ← items_of scope env
      of_only (named_alternative py prefix name (resolved resolvers.kind)) items
    eval_kind (present scope name) env = do
      items ← items_of scope env
      ok (some (py.boolean (is_present py name items)))
    eval_kind (literal value) env = ok value
    eval_kind null env = ok none
    eval_kind (count scope) env = do
      items ← items_of scope env
      ok (some (py.number (length items)))
    eval_kind (distinct_count scope value) env = do
      items ← items_of scope env
      keys ←
          distinct_keys py value (λ item. eval_value value (bind_item (identifier scope) item env))
            items []
      ok (some (py.number (length keys)))
