-- ===== src/Evaluator/Root/Search.antt =====
-- The stack of `_root_scope` (evaluator.py) against a search by recursion.
use httk_store.Prelude.{
  ℕ, suc, ◌+◌, ◌≡◌, refl, ap, sym, ◌∙◌, Option, none, some, List, [], ◌∷◌, arith,
}
use httk_store.Evaluator.{
  Predicate, constant, compare, is_null, exists, both, either, neg, when_known, scaled, Value,
  Scope, root, child,
}
use httk_store.Evaluator.Root.{
  StackItem, predicate_node, value_node, scope_node, operands, scope_of, extend, push_scope,
  search_root, scope_fuel, maybe_fuel, value_fuel, fuel_of, root_scope,
}

module _ {V : Type 0} where
  -- The search by recursion on the predicate.
  abbrev pub root_above : Scope V → Scope V
  root_above (root k scalar) = root k scalar
  root_above (child k parent r f scalar) = root_above parent

  abbrev pub or_else : Option (Scope V) → Option (Scope V) → Option (Scope V)
  or_else none other = other
  or_else (some scope) other = some scope

  abbrev pub above_maybe : Option (Scope V) → Option (Scope V)
  above_maybe none = none
  above_maybe (some scope) = some (root_above scope)

  abbrev pub root_of : Predicate V → Option (Scope V)
  root_of (constant value) = none
  root_of (compare left operator right) =
      or_else (above_maybe (scope_of right)) (above_maybe (scope_of left))
  root_of (is_null value) = above_maybe (scope_of value)
  root_of (exists scope nested) = or_else (root_of nested) (some (root_above scope))
  root_of (both left right) = or_else (root_of right) (root_of left)
  root_of (either left right) = or_else (root_of right) (root_of left)
  root_of (neg operand) = root_of operand
  root_of (when_known known operand) = or_else (root_of operand) (root_of known)
  root_of (scaled left left_factor right right_factor) =
      or_else (above_maybe (scope_of right_factor)) (
        or_else (above_maybe (scope_of right))
          (or_else (above_maybe (scope_of left_factor)) (above_maybe (scope_of left))))

  abbrev found_or : Option (Scope V) → Option (Option (Scope V)) → Option (Option (Scope V))
  found_or none rest = rest
  found_or (some scope) rest = some (some scope)

  found_or-or_else :
      (a b : Option (Scope V)) (rest : Option (Option (Scope V)))
      → found_or (or_else a b) rest ≡ found_or a (found_or b rest)
  found_or-or_else none b rest = refl
  found_or-or_else (some scope) b rest = refl

  found_or-none : (found : Option (Scope V)) → found_or found (some none) ≡ some found
  found_or-none none = refl
  found_or-none (some scope) = refl

  refuel :
      (n m : ℕ) (stack : List (StackItem V)) → n ≡ m → search_root n stack ≡ search_root m stack
  refuel n m stack e = ap (λ k. search_root k stack) e

  search_scope :
      (scope : Scope V) (m : ℕ) (stack : List (StackItem V))
      → search_root (scope_fuel scope + m) (scope_node scope ∷ stack)
        ≡ some (some (root_above scope))
  unfolding search_root
  search_scope (root k scalar) m stack =
      refuel (1 + m) (suc m) (scope_node (root k scalar) ∷ stack) (omega arith)
  search_scope (child k parent r f scalar) m stack =
      refuel (suc (scope_fuel parent) + m) (suc (scope_fuel parent + m))
        (scope_node (child k parent r f scalar) ∷ stack) (omega arith)
      ∙ search_scope parent m stack

  search_value :
      (value : Value V) (m : ℕ) (stack : List (StackItem V))
      → search_root (value_fuel value + m) (value_node value ∷ stack)
        ≡ found_or (above_maybe (scope_of value)) (search_root m stack)
  unfolding search_root
  search_value value m stack =
      refuel (value_fuel value + m) (suc (maybe_fuel (scope_of value) + m))
        (value_node value ∷ stack) (omega arith)
      ∙ go (scope_of value)
    where
      go :
          (scope : Option (Scope V))
          → search_root (maybe_fuel scope + m) (push_scope scope stack)
            ≡ found_or (above_maybe scope) (search_root m stack)
      go none = refuel (0 + m) m stack (omega arith)
      go (some scope) = search_scope scope m stack

  -- What is pushed on the stack is searched with its fuel, and then the rest of the stack.
  abbrev Finds : (List (StackItem V) → List (StackItem V)) → ℕ → Option (Scope V) → Type 0
  Finds push fuel found =
      (m : ℕ) (stack : List (StackItem V))
      → search_root (fuel + m) (push stack) ≡ found_or found (search_root m stack)

  then-Finds :
      (b : StackItem V) (push : List (StackItem V) → List (StackItem V)) (fb fa : ℕ)
      (rb ra : Option (Scope V))
      → Finds (λ stack. b ∷ stack) fb rb
      → Finds push fa ra
      → Finds (λ stack. b ∷ push stack) (fb + fa) (or_else rb ra)
  then-Finds b push fb fa rb ra hb ha m stack =
      refuel (fb + fa + m) (fb + (fa + m)) (b ∷ push stack) (omega arith)
      ∙ hb (fa + m) (push stack)
      ∙ ap (found_or rb) (ha m stack)
      ∙ sym (found_or-or_else rb ra (search_root m stack))

  -- The node of a predicate takes one step, and then its operands'.
  opened :
      (p : Predicate V) (fuel m : ℕ) (stack : List (StackItem V))
      → search_root (suc fuel + m) (predicate_node p ∷ stack)
        ≡ search_root (fuel + m) (extend (operands p) stack)
  unfolding search_root
  opened p fuel m stack =
      refuel (suc fuel + m) (suc (fuel + m)) (predicate_node p ∷ stack) (omega arith)

  value_then :
      (value : Value V) (push : List (StackItem V) → List (StackItem V)) (fuel : ℕ)
      (found : Option (Scope V))
      → Finds push fuel found
      → Finds
          (λ stack. value_node value ∷ push stack)
          (value_fuel value + fuel)
          (or_else (above_maybe (scope_of value)) found)
  value_then value push fuel found h =
      then-Finds (value_node value) push (value_fuel value) fuel (above_maybe (scope_of value))
        found (search_value value) h

  two_values :
      (left right : Value V)
      → Finds
          (λ stack. value_node right ∷ value_node left ∷ stack)
          (value_fuel right + value_fuel left)
          (or_else (above_maybe (scope_of right)) (above_maybe (scope_of left)))
  two_values left right =
      value_then right (λ stack. value_node left ∷ stack) (value_fuel left)
        (above_maybe (scope_of left)) (search_value left)

  two_predicates :
      (left right : Predicate V)
      → Finds (λ stack. predicate_node left ∷ stack) (fuel_of left) (root_of left)
      → Finds (λ stack. predicate_node right ∷ stack) (fuel_of right) (root_of right)
      → Finds
          (λ stack. predicate_node right ∷ predicate_node left ∷ stack)
          (fuel_of right + fuel_of left)
          (or_else (root_of right) (root_of left))
  two_predicates left right hl hr =
      then-Finds (predicate_node right) (λ stack. predicate_node left ∷ stack) (fuel_of right)
        (fuel_of left) (root_of right) (root_of left) hr hl

  search_predicate :
      (p : Predicate V) → Finds (λ stack. predicate_node p ∷ stack) (fuel_of p) (root_of p)
  search_predicate (constant value) m stack =
      opened (constant value) 0 m stack ∙ refuel (0 + m) m stack (omega arith)
  search_predicate (compare left operator right) m stack =
      opened (compare left operator right) (value_fuel right + value_fuel left) m stack
      ∙ two_values left right m stack
  search_predicate (is_null value) m stack =
      opened (is_null value) (value_fuel value) m stack ∙ search_value value m stack
  search_predicate (exists scope nested) m stack =
      opened (exists scope nested) (fuel_of nested + scope_fuel scope) m stack
      ∙ then-Finds (predicate_node nested) (λ st. scope_node scope ∷ st) (fuel_of nested)
          (scope_fuel scope) (root_of nested) (some (root_above scope)) (search_predicate nested)
          (search_scope scope) m stack
  search_predicate (both left right) m stack =
      opened (both left right) (fuel_of right + fuel_of left) m stack
      ∙ two_predicates left right (search_predicate left) (search_predicate right) m stack
  search_predicate (either left right) m stack =
      opened (either left right) (fuel_of right + fuel_of left) m stack
      ∙ two_predicates left right (search_predicate left) (search_predicate right) m stack
  search_predicate (neg operand) m stack =
      opened (neg operand) (fuel_of operand) m stack ∙ search_predicate operand m stack
  search_predicate (when_known known operand) m stack =
      opened (when_known known operand) (fuel_of operand + fuel_of known) m stack
      ∙ two_predicates known operand (search_predicate known) (search_predicate operand) m stack
  search_predicate (scaled left left_factor right right_factor) m stack =
      opened (scaled left left_factor right right_factor)
        (value_fuel right_factor + (value_fuel right + (value_fuel left_factor + value_fuel left)))
        m stack
      ∙ value_then right_factor _ _ _ (value_then right _ _ _ (two_values left left_factor)) m stack

-- The search for the root scope ends for every predicate within the fuel that it is given, and finds what a
-- search by recursion finds, which looks at the last operand first.
pub root_scope_lem :
    {V : Type 0} (predicate : Predicate V) → root_scope predicate ≡ some (root_of predicate)
unfolding search_root
root_scope_lem predicate =
    refuel (suc (fuel_of predicate)) (fuel_of predicate + 1) (predicate_node predicate ∷ [])
      (omega arith)
    ∙ search_predicate predicate 1 []
    ∙ found_or-none (root_of predicate)
