-- ===== src/Evaluator/Total.antt =====
-- What `_eval_predicate` (evaluator.py) needs in order not to raise.
pub mod Evaluation
use mathlib.Core.Option
use httk_store.Prelude.{
  ℕ, zero, suc, not, subst, ◌≡◌, refl, ap, sym, ◌∙◌, String, Bool, true, false, Option, none, some,
  List, [], ◌∷◌, Result, ok, err, ◌>>=◌, >>=-step, if◌then◌else◌, Bool-cases, inl, inr, if_true,
  if_false, eqb,
}
use httk_store.Evaluator.{
  Operator, equals, differs, less, at_most, greater, at_least, contains_text, starts, ends,
  other_operator, FieldName, plain, prefixed, without_separator, Predicate, constant, compare,
  is_null, exists, both, either, neg, when_known, scaled, Value, valued, ValueKind, field_value,
  store_timestamp, logical_id, alt_kind, alternative_id, present, literal, null, count,
  distinct_count, Scope, root, child, Filter, unfiltered, filtered_by, identifier, scalar_child,
  Python, Resolvers, resolved, EvalError, Environment, bind_item, Relationship,
}
use httk_store.Evaluator.Eval.{
  and3, or3, not3, is_true, is_none, is_null_kind, any_item, keep_items, compare_known,
  compare_maybe, against_null, compare_values, related, found_with, distinct_keys, of_only,
  with_prefix, text_of, field_of, composed, is_present, compare_scaled, exact_key, iterated,
  children_of, add_children, eval, items_of, filter_items, eval_value, eval_kind,
}

-- One of the operators that the evaluator knows.
abbrev pub IsKnownOperator : Operator → Type 0
IsKnownOperator equals = Unit
IsKnownOperator differs = Unit
IsKnownOperator less = Unit
IsKnownOperator at_most = Unit
IsKnownOperator greater = Unit
IsKnownOperator at_least = Unit
IsKnownOperator contains_text = Unit
IsKnownOperator starts = Unit
IsKnownOperator ends = Unit
IsKnownOperator (other_operator text) = ⊥

-- A result that is not raised.
abbrev pub Returns {ℓ} : {A : Type ℓ} → Result EvalError A → Type ℓ
Returns {A = A} m = (a : A) × (m ≡ ok a)

module _ {V : Type 0} (py : Python V) (resolvers : Resolvers V) where
  -- A field with a prefix is a text on every object.
  abbrev pub IsReadable : FieldName → Type 0
  IsReadable (plain name) = Unit
  IsReadable (prefixed prefix name) =
      (item : Option V) → (t : String) × (text_of py (py.attr item name) ≡ some t)
  IsReadable without_separator = ⊥

  -- A relationship is a reference, or what its field has on any object can be iterated.
  abbrev pub IsFollowed : Relationship → Type 0
  IsFollowed relationship =
      (parent : Option V) (found : V)
      → relationship.is_reference ≡ false
      → py.attr parent relationship.field ≡ some found
      → (items : List (Option V)) × (py.iterate found ≡ some items)

  -- A set takes the key of whatever a value evaluates to.
  abbrev pub IsHashed : Value V → Type 0
  IsHashed value =
      (env : Environment V) (v : V)
      → eval_value py resolvers value env ≡ ok (some v)
      → py.is_hashable (exact_key value v none) ≡ true

  -- The products of what four values evaluate to can be compared, or raise what is caught.
  abbrev pub IsScalable : Value V → Value V → Value V → Value V → Type 0
  IsScalable left left_factor right right_factor =
      (env : Environment V) (l lf r rf : V)
      → eval_value py resolvers left env ≡ ok (some l)
      → eval_value py resolvers left_factor env ≡ ok (some lf)
      → eval_value py resolvers right env ≡ ok (some r)
      → eval_value py resolvers right_factor env ≡ ok (some rf)
      → Returns (py.scaled_equal l lf r rf)

  -- All operators are known, all fields readable, all relationships followed, the values counted as
  -- distinct are hashable, the scaled ones comparable and the resolvers that are used return; in the
  -- filters of the scopes too.
  abbrev mutual
    pub IsSupported : Predicate V → Type 0
    IsSupported (constant value) = Unit
    IsSupported (compare left operator right) =
        IsValue left × IsKnownOperator operator × IsValue right
    IsSupported (is_null value) = IsValue value
    IsSupported (exists scope nested) = IsScope scope × IsSupported nested
    IsSupported (both left right) = IsSupported left × IsSupported right
    IsSupported (either left right) = IsSupported left × IsSupported right
    IsSupported (neg operand) = IsSupported operand
    IsSupported (when_known known operand) = IsSupported known × IsSupported operand
    IsSupported (scaled left left_factor right right_factor) =
        IsValue left
        × IsValue left_factor
        × IsValue right
        × IsValue right_factor
        × IsScalable left left_factor right right_factor

    pub IsScope : Scope V → Type 0
    IsScope (root k scalar) = Unit
    IsScope (child k parent relationship filter scalar) =
        IsScope parent × IsFollowed relationship × IsFilter filter

    pub IsFilter : Filter V → Type 0
    IsFilter unfiltered = Unit
    IsFilter (filtered_by predicate) = IsSupported predicate

    pub IsValue : Value V → Type 0
    IsValue (valued codec kind) = IsKind kind

    pub IsKind : ValueKind V → Type 0
    IsKind (field_value scope name) = IsScope scope × IsReadable name
    IsKind store_timestamp = Returns (resolved resolvers.timestamp)
    IsKind logical_id = Returns (resolved resolvers.logical)
    IsKind alt_kind = Returns (resolved resolvers.kind)
    IsKind (alternative_id scope name prefix) = IsScope scope × Returns (resolved resolvers.kind)
    IsKind (present scope name) = IsScope scope
    IsKind (literal value) = Unit
    IsKind null = Unit
    IsKind (count scope) = IsScope scope
    IsKind (distinct_count scope value) = IsScope scope × IsValue value × IsHashed value

pub Returns-bind {ℓ κ} :
    {A : Type ℓ} {B : Type κ} (m : Result EvalError A) (f : A → Result EvalError B)
    → Returns m
    → ((a : A) → Returns (f a))
    → Returns (m >>= f)
Returns-bind m f (a, h) k = ((k a).0, >>=-step m f h (k a).1)

-- The same where what comes after knows what was returned.
pub Returns-known {ℓ κ} :
    {A : Type ℓ} {B : Type κ} (m : Result EvalError A) (f : A → Result EvalError B)
    → Returns m
    → ((a : A) → m ≡ ok a → Returns (f a))
    → Returns (m >>= f)
Returns-known m f (a, h) k = let (b, e) = k a h in (b, >>=-step m f h e)

module _ {V : Type 0} where
  pub any_item-Returns :
      (test : Option V → Result EvalError (Option Bool)) (items : List (Option V))
      → ((item : Option V) → Returns (test item))
      → Returns (any_item test items)
  unfolding any_item
  any_item-Returns test [] h = (some false, refl)
  any_item-Returns test (item ∷ items) h = Returns-bind (test item) _ (h item) (λ r.
      elim (Bool-cases (is_true r)) [
        | inl yes_ ↦ (some true, if_true _ _ yes_)
        | inr no_ ↦ let (b, e) = any_item-Returns test items h in (b, if_false _ _ no_ ∙ e)
      ])

  pub keep_items-Returns :
      (test : Option V → Result EvalError (Option Bool)) (items : List (Option V))
      → ((item : Option V) → Returns (test item))
      → Returns (keep_items test items)
  unfolding keep_items
  keep_items-Returns test [] h = ([], refl)
  keep_items-Returns test (item ∷ items) h = Returns-bind (test item) _ (h item) (λ r.
      Returns-bind (keep_items test items) _ (keep_items-Returns test items h)
        (λ others. ((if is_true r then item ∷ others else others), refl)))

  pub of_only-Returns :
      (test : Option V → Result EvalError (Option V)) (items : List (Option V))
      → ((item : Option V) → Returns (test item))
      → Returns (of_only test items)
  of_only-Returns test [] h = (none, refl)
  of_only-Returns test (item ∷ []) h = h item
  of_only-Returns test (item ∷ other ∷ items) h = (none, refl)

module _ {V : Type 0} (py : Python V) where
  children_of-Returns :
      (is_reference : Bool) (found : V)
      → (is_reference ≡ false → (items : List (Option V)) × (py.iterate found ≡ some items))
      → Returns (children_of py is_reference found)
  children_of-Returns true found h = (_, refl)
  children_of-Returns false found h = let (items, e) = h refl in (items, ap (iterated py) e)

  add_children-Returns :
      (found : Option (Result EvalError (List (Option V))))
      (others : Result EvalError (List (Option V)))
      → ((m : Result EvalError (List (Option V))) → found ≡ some m → Returns m)
      → Returns others
      → Returns (add_children py found others)
  add_children-Returns none others h k = k
  add_children-Returns (some m) others h k =
      Returns-bind m _ (h m refl) (λ items. Returns-bind others _ k (λ rest. (_, refl)))

  pub related-Returns :
      (relationship : Relationship) (parents : List (Option V))
      → ((parent : Option V) (found : V)
          → relationship.is_reference ≡ false
          → py.attr parent relationship.field ≡ some found
          → (items : List (Option V)) × (py.iterate found ≡ some items))
      → Returns (related py relationship parents)
  unfolding related
  related-Returns relationship [] h = ([], refl)
  related-Returns relationship (parent ∷ parents) h =
      add_children-Returns _ (related py relationship parents)
        (go (py.attr parent relationship.field) refl) (related-Returns relationship parents h)
    where
      go :
          (o : Option V)
          → py.attr parent relationship.field ≡ o
          → (m : Result EvalError (List (Option V)))
          → Option.map (children_of py relationship.is_reference) o ≡ some m
          → Returns m
      go none e m k = absurd (cc k)
      go (some found) e m k =
          let same : children_of py relationship.is_reference found ≡ m = cc k in
          subst Returns same
            (children_of-Returns relationship.is_reference found (λ holds. h parent found holds e))

  found_with-Returns :
      (value : Value V) (candidate : Option V) (keys : List (Option V))
      → ((v : V) → candidate ≡ some v → py.is_hashable (exact_key value v none) ≡ true)
      → Returns (found_with py value candidate keys)
  found_with-Returns value none keys h = (keys, refl)
  found_with-Returns value (some v) keys h = (_, if_false _ _ (ap not (h v refl)))

  pub compare_scaled-Returns :
      (l lf r rf : Option V)
      → ((a af b bf : V)
          → l ≡ some a
          → lf ≡ some af
          → r ≡ some b
          → rf ≡ some bf
          → Returns (py.scaled_equal a af b bf))
      → Returns (compare_scaled py l lf r rf)
  compare_scaled-Returns (some l) (some lf) (some r) (some rf) h = h l lf r rf refl refl refl refl
  compare_scaled-Returns (some l) (some lf) (some r) none h = (none, refl)
  compare_scaled-Returns (some l) (some lf) none rf h = (none, refl)
  compare_scaled-Returns (some l) none r rf h = (none, refl)
  compare_scaled-Returns none lf r rf h = (none, refl)

  pub distinct_keys-Returns :
      (value : Value V) (test : Option V → Result EvalError (Option V))
      (items keys : List (Option V))
      → ((item : Option V) → Returns (test item))
      → ((item : Option V) (v : V)
          → test item ≡ ok (some v)
          → py.is_hashable (exact_key value v none) ≡ true)
      → Returns (distinct_keys py value test items keys)
  unfolding distinct_keys
  distinct_keys-Returns value test [] keys h hashed = (keys, refl)
  distinct_keys-Returns value test (item ∷ items) keys h hashed =
      Returns-known (test item) _ (h item) (λ candidate given.
        Returns-bind (found_with py value candidate keys) _
          (found_with-Returns value candidate keys (λ v e. hashed item v (given ∙ ap ok e)))
          (λ found. distinct_keys-Returns value test items found h hashed))

  pub field_of-Returns :
      (resolvers : Resolvers V) (scalar : Bool) (name : FieldName) (item : Option V)
      → IsReadable py resolvers name
      → Returns (field_of py scalar name item)
  field_of-Returns resolvers true name item h = (item, refl)
  field_of-Returns resolvers false (plain name) item h = (py.attr item name, refl)
  field_of-Returns resolvers false (prefixed prefix name) item h =
      let (t, e) = h item in (some (py.prepend prefix t), ap (with_prefix py prefix) e)
  field_of-Returns resolvers false without_separator item h = absurd h

  compare_known-Returns :
      (left : Value V) (l : V) (operator : Operator) (right : Value V) (r : V)
      → IsKnownOperator operator
      → Returns (compare_known py left l operator right r)
  unfolding compare_known
  compare_known-Returns left l equals right r h = (_, refl)
  compare_known-Returns left l differs right r h = (_, refl)
  compare_known-Returns left l less right r h = (_, refl)
  compare_known-Returns left l at_most right r h = (_, refl)
  compare_known-Returns left l greater right r h = (_, refl)
  compare_known-Returns left l at_least right r h = (_, refl)
  compare_known-Returns left l contains_text right r h = (_, refl)
  compare_known-Returns left l starts right r h = (_, refl)
  compare_known-Returns left l ends right r h = (_, refl)
  compare_known-Returns left l (other_operator text) right r h = absurd h

  compare_maybe-Returns :
      (left : Value V) (l : Option V) (operator : Operator) (right : Value V) (r : Option V)
      → IsKnownOperator operator
      → Returns (compare_maybe py left l operator right r)
  compare_maybe-Returns left none operator right r h = (none, refl)
  compare_maybe-Returns left (some l) operator right none h = (none, refl)
  compare_maybe-Returns left (some l) operator right (some r) h =
      compare_known-Returns left l operator right r h

  pub compare_values-Returns :
      (l : Option V) (left : Value V) (operator : Operator) (r : Option V) (right : Value V)
      → IsKnownOperator operator
      → Returns (compare_values py l left operator r right)
  unfolding compare_values
  compare_values-Returns l left operator r right h = elim (Bool-cases (is_null_kind left)) [
    | inl left_null ↦ (against_null operator r, if_true _ _ left_null)
    | inr left_known ↦ elim (Bool-cases (is_null_kind right)) [
      | inl right_null ↦ (against_null operator l, if_false _ _ left_known ∙ if_true _ _ right_null)
      | inr right_known ↦
          let (a, e) = compare_maybe-Returns left l operator right r h in
          (a, if_false _ _ left_known ∙ if_false _ _ right_known ∙ e)
    ]
  ]
