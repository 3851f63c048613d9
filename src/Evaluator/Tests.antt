-- ===== src/Evaluator/Tests.antt =====
-- Numbers and lists of numbers under evaluator.py.
use httk_store.Prelude.{
  ℕ, ◌≡◌, refl, String, Bool, true, false, Option, none, some, List, [], ◌∷◌, map, eqb, ltb, leb,
  ok, err, Result, if◌then◌else◌, ◌==◌, ◌*◌, ap, sym,
}
use httk_store.Evaluator.{
  EvalError, type_error, other_error, is_null, scaled, distinct_count, Operator, equals, differs,
  less, at_most, greater, at_least, contains_text, starts, ends, other_operator, Relationship,
  plain, Predicate, compare, exists, both, either, neg, Value, valued, field_value, literal, Scope,
  root, child, unfiltered, filtered_by, Python, Resolvers, Environment, bind_item,
}
use httk_store.Evaluator.Eval.{
  distinct_keys, eval, any_item, keep_items, compare_known, compare_values, same_key, exact_key,
  related,
}
use httk_store.Evaluator.Root.{evaluate, root_scope, search_root}
use httk_store.Evaluator.Root.Search.{root_of, root_scope_lem}
use httk_store.Evaluator.Quantifiers.{exists-filter, de_morgan}

data Thing : Type 0 where
  num : (n : ℕ) → Thing
  many : (ns : List ℕ) → Thing
  text : (s : String) → Thing

-- The fields: `items` of a list is the list, and any other field of another thing is itself.
abbrev attr_of : Option Thing → String → Option Thing
attr_of none name = none
attr_of (some (many ns)) name = if name == "items" then some (many ns) else none
attr_of (some (num n)) name = if name == "items" then none else some (num n)
attr_of (some (text s)) name = if name == "items" then none else some (text s)

abbrev iterate_of : Thing → Option (List (Option Thing))
iterate_of (num n) = none
iterate_of (many ns) = some (map (λ n. some (num n)) ns)
iterate_of (text s) = none

-- A list is not hashable.
abbrev hashable_of : Option Thing → Bool
hashable_of none = true
hashable_of (some (num n)) = true
hashable_of (some (many ns)) = false
hashable_of (some (text s)) = true

abbrev equal_of : Option Thing → Option Thing → Bool
equal_of (some (num a)) (some (num b)) = eqb a b
equal_of (some (num a)) (some (many bs)) = false
equal_of (some (num a)) (some (text b)) = false
equal_of (some (num a)) none = false
equal_of (some (many as_)) y = false
equal_of (some (text a)) y = false
equal_of none y = false

abbrev scaled_of : Thing → Thing → Thing → Thing → Result EvalError (Option Bool)
scaled_of (num a) (num b) (num c) (num d) = ok (some (eqb (a * b) (c * d)))
scaled_of (num a) (num b) (num c) (many d) = err other_error
scaled_of (num a) (num b) (num c) (text d) = ok none
scaled_of (num a) (num b) (many c) d = err other_error
scaled_of (num a) (num b) (text c) d = ok none
scaled_of (num a) (many b) c d = err other_error
scaled_of (num a) (text b) c d = ok none
scaled_of (many a) b c d = err other_error
scaled_of (text a) b c d = ok none

abbrev order_numbers : Operator → ℕ → ℕ → Option Bool
order_numbers less a b = some (ltb a b)
order_numbers at_most a b = some (leb a b)
order_numbers greater a b = some (ltb b a)
order_numbers at_least a b = some (leb b a)
order_numbers equals a b = none
order_numbers differs a b = none
order_numbers contains_text a b = none
order_numbers starts a b = none
order_numbers ends a b = none
order_numbers (other_operator t) a b = none

abbrev order_of : Operator → Thing → Thing → Option Bool
order_of operator (num a) (num b) = order_numbers operator a b
order_of operator (num a) (many bs) = none
order_of operator (num a) (text b) = none
order_of operator (many as_) y = none
order_of operator (text a) y = none

abbrev things : Python Thing
things = record {
  attr = attr_of;
  iterate = iterate_of;
  is_hashable = hashable_of;
  equal = equal_of;
  order = order_of;
  string_of = λ thing. none;
  text_test = λ operator l r. false;
  number = num;
  boolean = λ b. num 1;
  prepend = λ prefix t. text t;
  composite = λ prefix id kind. id;
  scaled_equal = scaled_of;
}

abbrev no_resolvers : Resolvers Thing
no_resolvers = record { timestamp = none; logical = none; kind = none }

abbrev items_relationship : Relationship
items_relationship = record { field = "items"; is_reference = false }

abbrev items_scope : Scope Thing
items_scope = child 1 (root 0 false) items_relationship unfiltered false

abbrev item_value : Value Thing
item_value = valued none (field_value items_scope (plain "value"))

abbrev above : ℕ → Predicate Thing
above n = compare item_value greater (valued none (literal (some (num n))))

abbrev below : ℕ → Predicate Thing
below n = compare item_value less (valued none (literal (some (num n))))

abbrev some_between : Predicate Thing
some_between =
    exists (child 1 (root 0 false) items_relationship (filtered_by (above 2)) false) (below 5)

abbrev three_items : Option Thing
three_items = some (many (1 ∷ 4 ∷ 9 ∷ []))

abbrev of_three : Environment Thing
of_three = bind_item 0 three_items (λ k. none)

some_between_found : evaluate things no_resolvers some_between three_items ≡ ok (some true)
unfolding evaluate eval search_root any_item keep_items compare_values compare_known same_key
    exact_key related
some_between_found = refl

-- The items of a number cannot be iterated, and a set does not take a list.
number_holds_nothing :
    related things (record { field = "value"; is_reference = false }) (some (num 1) ∷ [])
    ≡ err type_error
unfolding related
number_holds_nothing = refl

list_is_unhashable :
    eval things no_resolvers
      (is_null (valued none (distinct_count (root 0 false) (valued none (literal three_items)))))
      of_three
    ≡ err type_error
unfolding eval distinct_keys exact_key
list_is_unhashable = refl

items_followed :
    (parent : Option Thing) (found : Thing)
    → items_relationship.is_reference ≡ false
    → attr_of parent "items" ≡ some found
    → (items : List (Option Thing)) × (iterate_of found ≡ some items)
items_followed none found h e = absurd (cc e)
items_followed (some (num n)) found h e = absurd (cc e)
items_followed (some (text s)) found h e = absurd (cc e)
items_followed (some (many ns)) found h e =
    let same : many ns ≡ found = cc e in (map (λ n. some (num n)) ns, ap iterate_of (sym same))

root_scope_lem_example : root_scope some_between ≡ some (root_of some_between)
root_scope_lem_example = root_scope_lem some_between

-- The number of distinct items is three, and 2 times 6 is 3 times 4.
abbrev a_number : ℕ → Value Thing
a_number n = valued none (literal (some (num n)))

abbrev counted : Predicate Thing
counted = compare (valued none (distinct_count items_scope item_value)) equals (a_number 3)

abbrev products : Predicate Thing
products = scaled (a_number 2) (a_number 6) (a_number 3) (a_number 4)

abbrev all_three : Predicate Thing
all_three = both some_between (both counted products)

all_three_hold : evaluate things no_resolvers all_three three_items ≡ ok (some true)
unfolding evaluate eval search_root any_item keep_items compare_values compare_known same_key
    exact_key related distinct_keys
all_three_hold = refl

exists-filter_example :
    eval things no_resolvers some_between of_three
    ≡ eval things no_resolvers (exists items_scope (both (above 2) (below 5))) of_three
exists-filter_example =
    exists-filter things no_resolvers 1 (root 0 false) items_relationship (above 2) (below 5) false
      of_three (((tt, items_followed, tt), tt), tt, tt) (((tt, items_followed, tt), tt), tt, tt)
      refl

de_morgan_example :
    (eval things no_resolvers (neg (both some_between (below 3))) of_three
      ≡ eval things no_resolvers (either (neg some_between) (neg (below 3))) of_three)
    × (eval things no_resolvers (neg (either some_between (below 3))) of_three
        ≡ eval things no_resolvers (both (neg some_between) (neg (below 3))) of_three)
    × (eval things no_resolvers (neg (neg some_between)) of_three
        ≡ eval things no_resolvers some_between of_three)
de_morgan_example = de_morgan things no_resolvers some_between (below 3) of_three
