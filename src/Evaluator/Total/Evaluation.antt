-- ===== src/Evaluator/Total/Evaluation.antt =====
-- `_eval_predicate`, `_items` and `_eval_value` (evaluator.py) on supported predicates.
use httk_store.Prelude.{
  ℕ, refl, ap, ◌∙◌, Option, none, some, List, [], ◌∷◌, Result, ok, ◌>>=◌, Bool-cases, inl, inr,
  if_true, if_false,
}
use httk_store.Evaluator.{
  Predicate, constant, compare, is_null, exists, both, either, neg, when_known, scaled, Value,
  valued, ValueKind, field_value, store_timestamp, logical_id, alt_kind, alternative_id, present,
  literal, null, count, distinct_count, Scope, root, child, Filter, unfiltered, filtered_by,
  identifier, scalar_child, Python, Resolvers, resolved, EvalError, Environment, bind_item,
}
use httk_store.Evaluator.Eval.{
  and3, or3, not3, is_true, is_none, related, distinct_keys, eval, items_of, filter_items,
  eval_value, eval_kind,
}
use httk_store.Evaluator.Total.{
  Returns, Returns-known, related-Returns, compare_scaled-Returns, IsSupported, IsScope, IsFilter,
  IsValue, IsKind, Returns-bind, any_item-Returns, keep_items-Returns, of_only-Returns,
  distinct_keys-Returns, field_of-Returns, compare_values-Returns,
}

module _ {V : Type 0} (py : Python V) (resolvers : Resolvers V) where
  mutual
    unfolding eval

    pub eval-Returns :
        (p : Predicate V) (env : Environment V)
        → IsSupported py resolvers p
        → Returns (eval py resolvers p env)
    eval-Returns (constant value) env h = (value, refl)
    eval-Returns (compare left operator right) env (a, b, c) =
        Returns-bind (eval_value py resolvers left env) _ (value-Returns left env a) (λ l.
          Returns-bind (eval_value py resolvers right env) _ (value-Returns right env c)
            (λ r. compare_values-Returns py l left operator r right b))
    eval-Returns (is_null value) env h =
        Returns-bind (eval_value py resolvers value env) _ (value-Returns value env h)
          (λ v. (some (is_none v), refl))
    eval-Returns (exists scope nested) env (a, b) =
        Returns-bind (items_of py resolvers scope env) _ (items-Returns scope env a) (λ items.
          any_item-Returns _ items
            (λ item. eval-Returns nested (bind_item (identifier scope) item env) b))
    eval-Returns (both left right) env (a, b) =
        Returns-bind (eval py resolvers left env) _ (eval-Returns left env a) (λ l.
          Returns-bind (eval py resolvers right env) _ (eval-Returns right env b)
            (λ r. (and3 l r, refl)))
    eval-Returns (either left right) env (a, b) =
        Returns-bind (eval py resolvers left env) _ (eval-Returns left env a) (λ l.
          Returns-bind (eval py resolvers right env) _ (eval-Returns right env b)
            (λ r. (or3 l r, refl)))
    eval-Returns (neg operand) env h =
        Returns-bind (eval py resolvers operand env) _ (eval-Returns operand env h)
          (λ v. (not3 v, refl))
    eval-Returns (when_known known operand) env (a, b) =
        Returns-bind (eval py resolvers known env) _ (eval-Returns known env a) (λ k.
          elim (Bool-cases (is_true k)) [
            | inl is_known ↦
                let (r, e) = eval-Returns operand env b in (r, if_true _ _ is_known ∙ e)
            | inr unknown ↦ (none, if_false _ _ unknown)
          ])
    eval-Returns (scaled left left_factor right right_factor) env (a, b, c, d, fits) =
        Returns-known (eval_value py resolvers left env) _ (value-Returns left env a) (λ l el.
          Returns-known (eval_value py resolvers left_factor env) _
            (value-Returns left_factor env b)
            (λ lf ef.
              Returns-known (eval_value py resolvers right env) _ (value-Returns right env c)
                (λ r er.
                  Returns-known (eval_value py resolvers right_factor env) _
                    (value-Returns right_factor env d)
                    (λ rf eg. compare_scaled-Returns py l lf r rf (λ x xf y yf hx hxf hy hyf.
                      fits env x xf y yf (el ∙ ap ok hx) (ef ∙ ap ok hxf) (er ∙ ap ok hy)
                        (eg ∙ ap ok hyf))))))

    pub items-Returns :
        (scope : Scope V) (env : Environment V)
        → IsScope py resolvers scope
        → Returns (items_of py resolvers scope env)
    items-Returns (root k scalar) env h =
        elim (env k)
          as (λ found. Returns (elim found as (λ x. Result EvalError (List (Option V))) [
            | some item ↦ ok (item ∷ [])
            | none ↦ ok []
          ])) [ some item ↦ (item ∷ [], refl) | none ↦ ([], refl) ]
    items-Returns (child k parent relationship filter scalar) env (a, followed, b) =
        elim (env k)
          as (λ found. Returns (elim found as (λ x. Result EvalError (List (Option V))) [
            | some item ↦ ok (item ∷ [])
            | none ↦ do
              parents ← items_of py resolvers parent env
              values ← related py relationship parents
              filter_items py resolvers filter k env values
          ])) [
            | some item ↦ (item ∷ [], refl)
            | none ↦
                Returns-bind (items_of py resolvers parent env) _ (items-Returns parent env a)
                  (λ parents.
                    Returns-bind (related py relationship parents) _
                      (related-Returns py relationship parents followed)
                      (λ values. filter-Returns filter k env values b))
          ]

    pub filter-Returns :
        (f : Filter V) (k : ℕ) (env : Environment V) (items : List (Option V))
        → IsFilter py resolvers f
        → Returns (filter_items py resolvers f k env items)
    filter-Returns unfiltered k env items h = (items, refl)
    filter-Returns (filtered_by p) k env items h =
        keep_items-Returns _ items (λ item. eval-Returns p (bind_item k item env) h)

    pub value-Returns :
        (v : Value V) (env : Environment V)
        → IsValue py resolvers v
        → Returns (eval_value py resolvers v env)
    value-Returns (valued codec kind) env h = kind-Returns kind env h

    pub kind-Returns :
        (kind : ValueKind V) (env : Environment V)
        → IsKind py resolvers kind
        → Returns (eval_kind py resolvers kind env)
    kind-Returns (field_value scope name) env (a, b) =
        Returns-bind (items_of py resolvers scope env) _ (items-Returns scope env a) (λ items.
          of_only-Returns _ items
            (λ item. field_of-Returns py resolvers (scalar_child scope) name item b))
    kind-Returns store_timestamp env h = h
    kind-Returns logical_id env h = h
    kind-Returns alt_kind env h = h
    kind-Returns (alternative_id scope name prefix) env (a, b) =
        Returns-bind (items_of py resolvers scope env) _ (items-Returns scope env a) (λ items.
          of_only-Returns _ items
            (λ item. Returns-bind (resolved resolvers.kind) _ b (λ kind. (_, refl))))
    kind-Returns (present scope name) env h =
        Returns-bind (items_of py resolvers scope env) _ (items-Returns scope env h)
          (λ items. (_, refl))
    kind-Returns (literal value) env h = (value, refl)
    kind-Returns null env h = (none, refl)
    kind-Returns (count scope) env h =
        Returns-bind (items_of py resolvers scope env) _ (items-Returns scope env h)
          (λ items. (_, refl))
    kind-Returns (distinct_count scope value) env (a, b, hashed) =
        Returns-bind (items_of py resolvers scope env) _ (items-Returns scope env a) (λ items.
          Returns-bind (distinct_keys py value _ items []) _
            (distinct_keys-Returns py value _ items []
              (λ item. value-Returns value (bind_item (identifier scope) item env) b)
              (λ item v e. hashed (bind_item (identifier scope) item env) v e))
            (λ keys. (_, refl)))
