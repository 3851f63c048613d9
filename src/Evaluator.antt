-- ===== src/Evaluator.antt =====
-- src/httk/store/backend/mongo/evaluator.py: predicates over hydrated records, in three-valued
-- logic. Here: the tree of predicates, values and scopes, and what is used of Python's objects.
pub mod Eval
pub mod Root
pub mod Total
pub mod Logic
pub mod Quantifiers
mod Tests
use httk_store.Prelude.{
  ℕ, zero, suc, String, Bool, true, false, Option, none, some, List, [], ◌∷◌, ◌++◌, if◌then◌else◌,
  eqb, ◌==◌, Result, ok,
}

-- The operators of a comparison; any other text is refused.
pub data Operator : Type 0 where
  equals differs : Operator
  less at_most greater at_least : Operator
  contains_text starts ends : Operator
  other_operator : (text : String) → Operator

-- A codec's column suffixes, and its encoding of a value: `none` is a TypeError or ValueError, and it
-- is taken to raise nothing else.
pub record ValueCodec (V : Type 0) : Type 0 where
  pub columns : List String
  pub encode : V → Option (List (Option V))

-- FieldSpec, as far as a relationship is followed.
pub record Relationship : Type 0 where
  pub field : String
  pub is_reference : Bool

-- A field's name; `prefixed` is one that starts with `__presentation_prefix__`, cut at its separator.
pub data FieldName : Type 0 where
  plain : (name : String) → FieldName
  prefixed : (prefix name : String) → FieldName
  without_separator : FieldName

mutual
  -- MongoPredicate
  pub data Predicate (V : Type 0) : Type 0 where
    constant : (value : Option Bool) → Predicate V
    compare : (left : Value V) (operator : Operator) (right : Value V) → Predicate V
    is_null : (value : Value V) → Predicate V
    exists : (scope : Scope V) (nested : Predicate V) → Predicate V
    both : (left right : Predicate V) → Predicate V
    either : (left right : Predicate V) → Predicate V
    neg : (operand : Predicate V) → Predicate V
    when_known : (known operand : Predicate V) → Predicate V
    scaled : (left left_factor right right_factor : Value V) → Predicate V

  -- MongoValue: its `spec`'s codec, and its kind with what the kind uses.
  pub data Value (V : Type 0) : Type 0 where
    valued : (codec : Option (ValueCodec V)) (kind : ValueKind V) → Value V

  pub data ValueKind (V : Type 0) : Type 0 where
    field_value : (scope : Scope V) (name : FieldName) → ValueKind V
    store_timestamp logical_id alt_kind : ValueKind V
    alternative_id : (scope : Scope V) (name prefix : String) → ValueKind V
    present : (scope : Scope V) (name : String) → ValueKind V
    literal : (value : Option V) → ValueKind V
    null : ValueKind V
    count : (scope : Scope V) → ValueKind V
    distinct_count : (scope : Scope V) (value : Value V) → ValueKind V

  -- MongoScope: a root, or one that a relationship of its parent leads to.
  pub data Scope (V : Type 0) : Type 0 where
    root : (identifier : ℕ) (scalar_child : Bool) → Scope V
    child :
        (identifier : ℕ) (parent : Scope V) (relationship : Relationship) (filter : Filter V)
        (scalar_child : Bool)
        → Scope V

  pub data Filter (V : Type 0) : Type 0 where
    unfiltered : Filter V
    filtered_by : (predicate : Predicate V) → Filter V

abbrev pub identifier : {V : Type 0} → Scope V → ℕ
identifier (root k scalar) = k
identifier (child k parent r f scalar) = k

abbrev pub scalar_child : {V : Type 0} → Scope V → Bool
scalar_child (root k scalar) = scalar
scalar_child (child k parent r f scalar) = scalar

-- What evaluation raises; `other_error` is any other exception of Python's own.
pub data EvalError : Type 0 where
  unsupported_operator : (text : String) → EvalError
  invalid_marker missing_attribute : EvalError
  type_error other_error : EvalError

-- Python's objects other than None, and what the evaluator asks of them: `getattr` with a default of
-- None, iteration (`none` is its TypeError), whether a set takes an object, `==`, the order (`none` is a
-- TypeError, which is caught), texts and their tests, numbers and Booleans, an f-string of three
-- parts, and the comparison of two products of Fractions, which is `ok none` where it raises what is
-- caught, and an error where it raises anything else, as for an infinity. A property of an object
-- and a `==` are taken not to raise.
pub record Python (V : Type 0) : Type 0 where
  pub attr : Option V → String → Option V
  pub iterate : V → Option (List (Option V))
  pub is_hashable : Option V → Bool
  pub equal : Option V → Option V → Bool
  pub order : Operator → V → V → Option Bool
  pub string_of : V → Option String
  pub text_test : Operator → String → String → Bool
  pub number : ℕ → V
  pub boolean : Bool → V
  pub prepend : String → String → V
  pub composite : String → V → V → V
  pub scaled_equal : V → V → V → V → Result EvalError (Option Bool)

-- What the resolvers of `evaluate` do when they are called, where they are given.
pub record Resolvers (V : Type 0) : Type 0 where
  pub timestamp : Option (Result EvalError (Option V))
  pub logical : Option (Result EvalError (Option V))
  pub kind : Option (Result EvalError (Option V))

abbrev pub resolved :
    {V : Type 0} → Option (Result EvalError (Option V)) → Result EvalError (Option V)
resolved none = ok none
resolved (some outcome) = outcome

-- `environment`, and `environment | {identifier: item}`
abbrev pub Environment : Type 0 → Type 0
Environment V = ℕ → Option (Option V)

abbrev pub bind_item : {V : Type 0} → ℕ → Option V → Environment V → Environment V
bind_item k item environment j = if eqb k j then some item else environment j
