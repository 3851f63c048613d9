-- ===== src/Evaluator/Quantifiers.antt =====
-- "exists", filters and the connectives of `_eval_predicate` (evaluator.py).
use httk_store.Prelude.{
  ℕ, ◌≡◌, refl, ap, sym, ◌∙◌, Bool, Option, none, some, List, [], ◌∷◌, Result, ok, err, ◌>>=◌,
  >>=-step,
}
use httk_store.Evaluator.{
  Relationship, Predicate, exists, both, either, neg, Scope, child, Filter, unfiltered, filtered_by,
  identifier, Python, Resolvers, EvalError, Environment, bind_item,
}
use httk_store.Evaluator.Eval.{or3, any_item, keep_items, related, eval, items_of, filter_items}
use httk_store.Evaluator.Total.{IsSupported}
use httk_store.Evaluator.Total.Evaluation.{eval-Returns}
use httk_store.Evaluator.Logic.{Test, and_test, or_test, or3-known, negated, keep-any, any-or}

module _ {V : Type 0} (py : Python V) (resolvers : Resolvers V) where
  -- The items of a scope that the environment does not bind.
  items_of-free :
      (k : ℕ) (parent : Scope V) (relationship : Relationship) (filter : Filter V) (scalar : Bool)
      (env : Environment V)
      → env k ≡ none
      → items_of py resolvers (child k parent relationship filter scalar) env ≡ (
          items_of py resolvers parent env >>= (λ parents.
            related py relationship parents
            >>= (λ values. filter_items py resolvers filter k env values)))
  unfolding eval
  items_of-free k parent relationship filter scalar env free =
      ap
        (λ (found : Option (Option V)). elim found as (λ x. Result EvalError (List (Option V))) [
          | some item ↦ ok (item ∷ [])
          | none ↦ items_of py resolvers parent env >>= (λ parents.
              related py relationship parents
              >>= (λ values. filter_items py resolvers filter k env values))
        ])
        free

  -- A filter on the scope of an "exists" can be moved into its condition, where the scope is not bound yet
  -- and neither the filter nor the condition can raise.
  pub exists-filter :
      (k : ℕ) (parent : Scope V) (relationship : Relationship) (filter nested : Predicate V)
      (scalar : Bool) (env : Environment V)
      → IsSupported py resolvers filter
      → IsSupported py resolvers nested
      → env k ≡ none
      → eval py resolvers
          (exists (child k parent relationship (filtered_by filter) scalar) nested)
          env
        ≡ eval py resolvers
            (exists (child k parent relationship unfiltered scalar) (both filter nested))
            env
  unfolding eval
  exists-filter k parent relationship filter nested scalar env hf hn free =
      ap (λ m. m >>= any_item tn)
        (items_of-free k parent relationship (filtered_by filter) scalar env free)
      ∙ go (items_of py resolvers parent env)
      ∙ ap (λ m. m >>= any_item (and_test tf tn))
          (sym (items_of-free k parent relationship unfiltered scalar env free))
    where
      tf : Test V
      tf item = eval py resolvers filter (bind_item k item env)

      tn : Test V
      tn item = eval py resolvers nested (bind_item k item env)

      within :
          (m : Result EvalError (List (Option V)))
          → ((m >>= keep_items tf) >>= any_item tn)
            ≡ ((m >>= (λ values. ok values)) >>= any_item (and_test tf tn))
      within (err e) = refl
      within (ok values) =
          keep-any tf tn values (λ item. eval-Returns py resolvers filter (bind_item k item env) hf)
            (λ item. eval-Returns py resolvers nested (bind_item k item env) hn)

      go :
          (m : Result EvalError (List (Option V)))
          → ((m >>= (λ parents. related py relationship parents >>= keep_items tf)) >>= any_item tn)
            ≡ ((m >>= (λ parents. related py relationship parents >>= (λ values. ok values)))
                >>= any_item (and_test tf tn))
      go (err e) = refl
      go (ok parents) = within (related py relationship parents)

  -- An item satisfies one of two conditions that cannot raise just where one satisfies the first, or one
  -- satisfies the second.
  exists-either :
      (scope : Scope V) (left right : Predicate V) (env : Environment V)
      → IsSupported py resolvers left
      → IsSupported py resolvers right
      → eval py resolvers (exists scope (either left right)) env
        ≡ eval py resolvers (either (exists scope left) (exists scope right)) env
  unfolding eval
  exists-either scope left right env hl hr = go (items_of py resolvers scope env)
    where
      tl : Test V
      tl item = eval py resolvers left (bind_item (identifier scope) item env)

      tr : Test V
      tr item = eval py resolvers right (bind_item (identifier scope) item env)

      go :
          (m : Result EvalError (List (Option V)))
          → (m >>= any_item (or_test tl tr))
            ≡ (do l ← m >>= any_item tl; r ← m >>= any_item tr; ok (or3 l r))
      go (err e) = refl
      go (ok items) =
          let (x, y, el, er, eo) =
            any-or tl tr items
              (λ item. eval-Returns py resolvers left (bind_item (identifier scope) item env) hl)
              (λ item.
                eval-Returns py resolvers right (bind_item (identifier scope) item env) hr) in
          eo
          ∙ sym (
              >>=-step (any_item tl items) _ el
                (>>=-step (any_item tr items) _ er (ap ok (or3-known x y))))

  -- NOT exchanges AND and OR, and undoes itself, in every environment and also where an operand raises.
  pub de_morgan :
      (left right : Predicate V) (env : Environment V)
      → (eval py resolvers (neg (both left right)) env
          ≡ eval py resolvers (either (neg left) (neg right)) env)
        × (eval py resolvers (neg (either left right)) env
            ≡ eval py resolvers (both (neg left) (neg right)) env)
        × (eval py resolvers (neg (neg left)) env ≡ eval py resolvers left env)
  unfolding eval
  de_morgan left right env = negated (eval py resolvers left env) (eval py resolvers right env)
