-- ===== src/Evaluator/Eval/Parts.antt =====
-- What `_eval_predicate`, `_items` and `_eval_value` (evaluator.py) do with values: `_compare`,
-- `_exact_key`, and their loops over items.
use mathlib.Core.Option
use httk_store.Prelude.{
  String, Bool, true, false, not, Option, none, some, List, [], ◌∷◌, ◌++◌, if◌then◌else◌, ◌==◌,
  Result, ok, err, ◌>>=◌, ◌||◌,
}
use httk_store.Evaluator.{
  Operator, equals, differs, less, at_most, greater, at_least, contains_text, starts, ends,
  other_operator, ValueCodec, Relationship, FieldName, plain, prefixed, without_separator, Value,
  valued, field_value, store_timestamp, logical_id, alt_kind, alternative_id, present, literal,
  null, count, distinct_count, Python, EvalError, unsupported_operator, invalid_marker,
  missing_attribute, type_error,
}

-- AND, OR and NOT, as the branches of `_eval_predicate` combine their results.
abbrev pub and3 : Option Bool → Option Bool → Option Bool
and3 (some false) y = some false
and3 (some true) y = y
and3 none (some false) = some false
and3 none (some true) = none
and3 none none = none

abbrev pub or3 : Option Bool → Option Bool → Option Bool
or3 (some true) y = some true
or3 (some false) y = y
or3 none (some true) = some true
or3 none (some false) = none
or3 none none = none

abbrev pub not3 : Option Bool → Option Bool
not3 none = none
not3 (some b) = some (not b)

-- `result is True`
abbrev pub is_true : Option Bool → Bool
is_true none = false
is_true (some b) = b

abbrev pub is_none {ℓ} : {A : Type ℓ} → Option A → Bool
is_none none = true
is_none (some a) = false

abbrev pub is_null_kind : {V : Type 0} → Value V → Bool
is_null_kind (valued codec null) = true
is_null_kind (valued codec (field_value scope name)) = false
is_null_kind (valued codec store_timestamp) = false
is_null_kind (valued codec logical_id) = false
is_null_kind (valued codec alt_kind) = false
is_null_kind (valued codec (alternative_id scope name prefix)) = false
is_null_kind (valued codec (present scope name)) = false
is_null_kind (valued codec (literal value)) = false
is_null_kind (valued codec (count scope)) = false
is_null_kind (valued codec (distinct_count scope value)) = false

abbrev pub exact_value : {V : Type 0} → List String → List (Option V) → Option V → Option V
exact_value [] values raw = raw
exact_value (c ∷ columns) [] raw = raw
exact_value (c ∷ columns) (v ∷ values) raw =
    if c == "_exact" then v else exact_value columns values raw

abbrev pub any_exact : List String → Bool
any_exact [] = false
any_exact (c ∷ columns) = c == "_exact" || any_exact columns

module _ {V : Type 0} where
  -- `_exact_codec`
  abbrev pub exact_codec : Value V → Option (ValueCodec V)
  exact_codec (valued none kind) = none
  exact_codec (valued (some codec) kind) = if any_exact codec.columns then some codec else none

  abbrev pub first_codec : Option (ValueCodec V) → Option (ValueCodec V) → Option (ValueCodec V)
  first_codec (some codec) other = some codec
  first_codec none other = other

  abbrev pub encoded : V → Option (ValueCodec V) → Option V
  encoded raw none = some raw
  encoded raw (some codec) = elim (codec.encode raw) [
    | none ↦ some raw
    | some values ↦ exact_value codec.columns values (some raw)
  ]

  -- `_exact_key`
  unfoldable pub exact_key : Value V → V → Option (ValueCodec V) → Option V
  exact_key value raw codec = encoded raw (first_codec codec (exact_codec value))

  -- The loop of "exists".
  unfoldable pub any_item :
      (Option V → Result EvalError (Option Bool)) → List (Option V) → Result EvalError (Option Bool)
  any_item test [] = ok (some false)
  any_item test (item ∷ items) = do
    r ← test item
    let others = any_item test items in if is_true r then ok (some true) else others

  -- The comprehension of `_items` over a filter.
  unfoldable pub keep_items :
      (Option V → Result EvalError (Option Bool))
      → List (Option V)
      → Result EvalError (List (Option V))
  keep_items test [] = ok []
  keep_items test (item ∷ items) = do
    r ← test item
    others ← keep_items test items
    ok (if is_true r then item ∷ others else others)

  -- Equality with a null value asks whether the other one is None.
  abbrev pub against_null : Operator → Option V → Option Bool
  against_null equals other = some (is_none other)
  against_null differs other = some (not (is_none other))
  against_null less other = none
  against_null at_most other = none
  against_null greater other = none
  against_null at_least other = none
  against_null contains_text other = none
  against_null starts other = none
  against_null ends other = none
  against_null (other_operator text) other = none

  -- The one item of a scope, or None.
  abbrev pub of_only :
      (Option V → Result EvalError (Option V)) → List (Option V) → Result EvalError (Option V)
  of_only test [] = ok none
  of_only test (item ∷ []) = test item
  of_only test (item ∷ other ∷ items) = ok none

module _ {V : Type 0} (py : Python V) where
  unfoldable pub same_key : Value V → V → Value V → V → Bool
  unfolding exact_key
  same_key left l right r =
      let codec = first_codec (exact_codec left) (exact_codec right) in
      py.equal (exact_key left l codec) (exact_key right r codec)

  abbrev pub text_compare : Operator → Option String → Option String → Option Bool
  text_compare operator none r = none
  text_compare operator (some l) none = none
  text_compare operator (some l) (some r) = some (py.text_test operator l r)

  -- The comparison of two values that are not None.
  unfoldable pub compare_known :
      Value V → V → Operator → Value V → V → Result EvalError (Option Bool)
  unfolding same_key
  compare_known left l equals right r = ok (some (same_key left l right r))
  compare_known left l differs right r = ok (some (not (same_key left l right r)))
  compare_known left l less right r = ok (py.order less l r)
  compare_known left l at_most right r = ok (py.order at_most l r)
  compare_known left l greater right r = ok (py.order greater l r)
  compare_known left l at_least right r = ok (py.order at_least l r)
  compare_known left l contains_text right r =
      ok (text_compare contains_text (py.string_of l) (py.string_of r))
  compare_known left l starts right r = ok (text_compare starts (py.string_of l) (py.string_of r))
  compare_known left l ends right r = ok (text_compare ends (py.string_of l) (py.string_of r))
  compare_known left l (other_operator text) right r = err (unsupported_operator text)

  abbrev pub compare_maybe :
      Value V → Option V → Operator → Value V → Option V → Result EvalError (Option Bool)
  compare_maybe left none operator right r = ok none
  compare_maybe left (some l) operator right none = ok none
  compare_maybe left (some l) operator right (some r) = compare_known left l operator right r

  -- `_compare`
  unfoldable pub compare_values :
      Option V → Value V → Operator → Option V → Value V → Result EvalError (Option Bool)
  unfolding compare_known
  compare_values l left operator r right =
      if is_null_kind left
      then ok (against_null operator r)
      else if is_null_kind right
      then ok (against_null operator l)
      else compare_maybe left l operator right r

  -- The children of the given parents: the relationship's value, or what it holds.
  abbrev pub iterated : Option (List (Option V)) → Result EvalError (List (Option V))
  iterated none = err type_error
  iterated (some items) = ok items

  abbrev pub children_of : Bool → V → Result EvalError (List (Option V))
  children_of true found = ok (some found ∷ [])
  children_of false found = iterated (py.iterate found)

  abbrev pub add_children :
      Option (Result EvalError (List (Option V)))
      → Result EvalError (List (Option V))
      → Result EvalError (List (Option V))
  add_children none others = others
  add_children (some found) others = do items ← found; rest ← others; ok (items ++ rest)

  unfoldable pub related : Relationship → List (Option V) → Result EvalError (List (Option V))
  related relationship [] = ok []
  related relationship (parent ∷ parents) =
      add_children
        (Option.map (children_of relationship.is_reference) (py.attr parent relationship.field))
        (related relationship parents)

  -- The keys found by "distinct_count".
  abbrev pub is_found : Option V → List (Option V) → Bool
  is_found key [] = false
  is_found key (k ∷ keys) = py.equal k key || is_found key keys

  abbrev pub found_with : Value V → Option V → List (Option V) → Result EvalError (List (Option V))
  found_with value none keys = ok keys
  found_with value (some candidate) keys =
      let key = exact_key value candidate none in
      if not (py.is_hashable key)
      then err type_error
      else ok (if is_found key keys then keys else key ∷ keys)

  unfoldable pub distinct_keys :
      Value V
      → (Option V → Result EvalError (Option V))
      → List (Option V)
      → List (Option V)
      → Result EvalError (List (Option V))
  distinct_keys value test [] keys = ok keys
  distinct_keys value test (item ∷ items) keys = do
    candidate ← test item
    found ← found_with value candidate keys
    distinct_keys value test items found

  abbrev pub with_prefix : String → Option String → Result EvalError (Option V)
  with_prefix prefix none = err missing_attribute
  with_prefix prefix (some text) = ok (some (py.prepend prefix text))

  abbrev pub text_of : Option V → Option String
  text_of none = none
  text_of (some v) = py.string_of v

  abbrev pub field_of : Bool → FieldName → Option V → Result EvalError (Option V)
  field_of true name item = ok item
  field_of false (plain name) item = ok (py.attr item name)
  field_of false (prefixed prefix name) item = with_prefix prefix (text_of (py.attr item name))
  field_of false without_separator item = err invalid_marker

  abbrev pub composed : String → Option V → Option V → Option V
  composed prefix none kind = none
  composed prefix (some id) none = none
  composed prefix (some id) (some kind) = some (py.composite prefix id kind)

  -- The branch of "alternative_id" on its one item; the resolver is called after the `getattr`.
  abbrev pub named_alternative :
      String → String → Result EvalError (Option V) → Option V → Result EvalError (Option V)
  named_alternative prefix name kind item = do k ← kind; ok (composed prefix (py.attr item name) k)

  abbrev pub is_present : String → List (Option V) → Bool
  is_present name [] = false
  is_present name (item ∷ []) = not (is_none (py.attr item name))
  is_present name (item ∷ other ∷ items) = false

  abbrev pub compare_scaled :
      Option V → Option V → Option V → Option V → Result EvalError (Option Bool)
  compare_scaled (some l) (some lf) (some r) (some rf) = py.scaled_equal l lf r rf
  compare_scaled (some l) (some lf) (some r) none = ok none
  compare_scaled (some l) (some lf) none rf = ok none
  compare_scaled (some l) none r rf = ok none
  compare_scaled none lf r rf = ok none
