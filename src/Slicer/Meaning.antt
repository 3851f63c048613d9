-- ===== src/Slicer/Meaning.antt =====
-- What the slicer's views deliver, in terms of the records that a store holds.
use mathlib.Core.Option
use httk_store.Prelude.{
  String, ◌≡◌, refl, ap, sym, ◌∙◌, Option, none, some, List, [], ◌∷◌, map, length,
}
use httk_store.Slicer.{
  Op, eq, ne, lt, le, gt, ge, has_text, startswith, endswith, Node, cmp, both, either, neg, Search,
  compile, compile_leaf, resolve,
}

-- A condition on a null value is neither true nor false.
pub data Truth : Type 0 where
  holds fails unknown : Truth

abbrev pub truth_not : Truth → Truth
truth_not holds = fails
truth_not fails = holds
truth_not unknown = unknown

abbrev pub truth_and : Truth → Truth → Truth
truth_and fails b = fails
truth_and holds b = b
truth_and unknown fails = fails
truth_and unknown holds = unknown
truth_and unknown unknown = unknown

abbrev pub truth_or : Truth → Truth → Truth
truth_or holds b = holds
truth_or fails b = b
truth_or unknown holds = holds
truth_or unknown fails = unknown
truth_or unknown unknown = unknown

-- One of the two, where both are known.
abbrev pub truth_xor : Truth → Truth → Truth
truth_xor unknown b = unknown
truth_xor holds b = truth_not b
truth_xor fails b = b

-- The members of which a condition holds.
unfoldable pub keep_if : {A : Type 0} → Truth → A → List A → List A
keep_if holds x xs = x ∷ xs
keep_if fails x xs = xs
keep_if unknown x xs = xs

unfoldable pub where_holds : {A : Type 0} → (A → Truth) → List A → List A
unfolding keep_if
where_holds p [] = []
where_holds p (x ∷ xs) = keep_if (p x) x (where_holds p xs)

-- What the search protocol promises: a fresh searcher has every stored record, an added expression
-- keeps those of which it holds, expressions combine in three-valued logic, and records, values and
-- counts are of the records kept. A comparison or matcher, called by its name, relates the field's
-- value to the operand as the operator `compares`, and `is_in` tells whether it is among the operands.
pub record SearchLaws {V : Type 0} (s : Search V) : Type 0 where
  pub truth : s.Expr → s.Rec → Truth
  pub stored : List s.Rec
  pub kept : s.Searcher → List s.Rec
  pub field_value : s.Field → s.Rec → V
  pub compares : Op → V → V → Truth
  pub is_member : V → List V → Truth
  pub truth-method :
      (op : Op) (f : s.Field) (v : V) (r : s.Rec)
      → truth (s.method op f v) r ≡ compares op (field_value f r) v
  pub truth-is_in :
      (f : s.Field) (vs : List V) (r : s.Rec)
      → truth (s.is_in f vs) r ≡ is_member (field_value f r) vs
  pub kept-variable : kept (s.variable s.make).1 ≡ stored
  pub kept-add : (e : s.Expr) (q : s.Searcher) → kept (s.add e q) ≡ where_holds (truth e) (kept q)
  pub records-kept : (q : s.Searcher) → s.records (s.variable s.make).0 q ≡ kept q
  pub count-length : (q : s.Searcher) → s.count q ≡ length (kept q)
  pub values-map : (f : s.Field) (q : s.Searcher) → s.values f q ≡ map (field_value f) (kept q)
  pub rows-map :
      (fs : List (String × s.Field)) (q : s.Searcher)
      → s.rows fs q ≡ map (λ r. map (λ o. field_value o.1 r) fs) (kept q)
  pub truth-conjoin :
      (a b : s.Expr) (r : s.Rec) → truth (s.conjoin a b) r ≡ truth_and (truth a r) (truth b r)
  pub truth-disjoin :
      (a b : s.Expr) (r : s.Rec) → truth (s.disjoin a b) r ≡ truth_or (truth a r) (truth b r)
  pub truth-negate : (a : s.Expr) (r : s.Rec) → truth (s.negate a) r ≡ truth_not (truth a r)

-- A condition made of two, where both are defined.
abbrev pub lift2 :
    {A : Type 0}
    → (Truth → Truth → Truth)
    → Option (A → Truth)
    → Option (A → Truth)
    → Option (A → Truth)
lift2 op none q = none
lift2 op (some p) none = none
lift2 op (some p) (some q) = some (λ r. op (p r) (q r))

abbrev pub lift : {A : Type 0} → Option (A → Truth) → Option (A → Truth)
lift none = none
lift (some p) = some (λ r. truth_not (p r))

module _ {V : Type 0} (s : Search V) (laws : SearchLaws s) where
  abbrev pub variable : s.Field
  variable = (s.variable s.make).0

  -- The field that a path leads to, name by name.
  abbrev attribute : Option s.Field → String → Option s.Field
  attribute none name = none
  attribute (some f) name = s.getattr f name

  unfoldable pub follow : Option s.Field → List String → Option s.Field
  follow o [] = o
  follow o (name ∷ path) = follow (attribute o name) path

  -- What an operator with its operands says of a field; `none` where it has no operand.
  unfoldable pub says : Op → s.Field → List V → Option (s.Rec → Truth)
  says Op.is_in f vs = some (λ r. laws.is_member (laws.field_value f r) vs)
  says eq f (v ∷ vs) = some (λ r. laws.compares eq (laws.field_value f r) v)
  says eq f [] = none
  says ne f (v ∷ vs) = some (λ r. laws.compares ne (laws.field_value f r) v)
  says ne f [] = none
  says lt f (v ∷ vs) = some (λ r. laws.compares lt (laws.field_value f r) v)
  says lt f [] = none
  says le f (v ∷ vs) = some (λ r. laws.compares le (laws.field_value f r) v)
  says le f [] = none
  says gt f (v ∷ vs) = some (λ r. laws.compares gt (laws.field_value f r) v)
  says gt f [] = none
  says ge f (v ∷ vs) = some (λ r. laws.compares ge (laws.field_value f r) v)
  says ge f [] = none
  says has_text f (v ∷ vs) = some (λ r. laws.compares has_text (laws.field_value f r) v)
  says has_text f [] = none
  says startswith f (v ∷ vs) = some (λ r. laws.compares startswith (laws.field_value f r) v)
  says startswith f [] = none
  says endswith f (v ∷ vs) = some (λ r. laws.compares endswith (laws.field_value f r) v)
  says endswith f [] = none

  -- The condition that an op tree states of a record; `none` where a field does not exist or an
  -- operator has no operand.
  unfoldable pub meaning : Node V → Option (s.Rec → Truth)
  unfolding follow says
  meaning (cmp path op args) = elim (follow (some variable) path) [
    | none ↦ none
    | some f ↦ says op f args
  ]
  meaning (both left right) = lift2 truth_and (meaning left) (meaning right)
  meaning (either left right) = lift2 truth_or (meaning left) (meaning right)
  meaning (neg inner) = lift (meaning inner)

  truth-both :
      (l r : Option s.Expr)
      → Option.map laws.truth
          (elim l [ none ↦ none | some a ↦ elim r [ none ↦ none | some b ↦ some (s.conjoin a b) ] ])
        ≡ lift2 truth_and (Option.map laws.truth l) (Option.map laws.truth r)
  truth-both none r = refl
  truth-both (some a) none = refl
  truth-both (some a) (some b) = λ i. some (λ r. laws.truth-conjoin a b r i)

  truth-either :
      (l r : Option s.Expr)
      → Option.map laws.truth
          (elim l [ none ↦ none | some a ↦ elim r [ none ↦ none | some b ↦ some (s.disjoin a b) ] ])
        ≡ lift2 truth_or (Option.map laws.truth l) (Option.map laws.truth r)
  truth-either none r = refl
  truth-either (some a) none = refl
  truth-either (some a) (some b) = λ i. some (λ r. laws.truth-disjoin a b r i)

  truth-neg :
      (e : Option s.Expr)
      → Option.map laws.truth (elim e [ none ↦ none | some a ↦ some (s.negate a) ])
        ≡ lift (Option.map laws.truth e)
  truth-neg none = refl
  truth-neg (some a) = λ i. some (λ r. laws.truth-negate a r i)

  truth-leaf :
      (op : Op) (f : s.Field) (args : List V)
      → Option.map laws.truth (compile_leaf s op f args) ≡ says op f args
  unfolding compile_leaf says
  truth-leaf Op.is_in f vs = λ i. some (λ r. laws.truth-is_in f vs r i)
  truth-leaf eq f [] = refl
  truth-leaf eq f (v ∷ vs) = λ i. some (λ r. laws.truth-method eq f v r i)
  truth-leaf ne f [] = refl
  truth-leaf ne f (v ∷ vs) = λ i. some (λ r. laws.truth-method ne f v r i)
  truth-leaf lt f [] = refl
  truth-leaf lt f (v ∷ vs) = λ i. some (λ r. laws.truth-method lt f v r i)
  truth-leaf le f [] = refl
  truth-leaf le f (v ∷ vs) = λ i. some (λ r. laws.truth-method le f v r i)
  truth-leaf gt f [] = refl
  truth-leaf gt f (v ∷ vs) = λ i. some (λ r. laws.truth-method gt f v r i)
  truth-leaf ge f [] = refl
  truth-leaf ge f (v ∷ vs) = λ i. some (λ r. laws.truth-method ge f v r i)
  truth-leaf has_text f [] = refl
  truth-leaf has_text f (v ∷ vs) = λ i. some (λ r. laws.truth-method has_text f v r i)
  truth-leaf startswith f [] = refl
  truth-leaf startswith f (v ∷ vs) = λ i. some (λ r. laws.truth-method startswith f v r i)
  truth-leaf endswith f [] = refl
  truth-leaf endswith f (v ∷ vs) = λ i. some (λ r. laws.truth-method endswith f v r i)

  follow-none : (path : List String) → follow none path ≡ none
  unfolding follow
  follow-none [] = refl
  follow-none (name ∷ path) = follow-none path

  resolve-follow : (f : s.Field) (path : List String) → resolve s f path ≡ follow (some f) path
  unfolding resolve follow
  resolve-follow f [] = refl
  resolve-follow f (name ∷ path) = go (λ g. resolve-follow g path) (s.getattr f name)
    where
      go :
          ((g : s.Field) → resolve s g path ≡ follow (some g) path)
          → (o : Option s.Field)
          → (elim o [ none ↦ none | some next ↦ resolve s next path ]) ≡ follow o path
      go onward none = sym (follow-none path)
      go onward (some g) = onward g

  truth-cmp :
      (o : Option s.Field) (op : Op) (args : List V)
      → Option.map laws.truth (elim o [ none ↦ none | some f ↦ compile_leaf s op f args ])
        ≡ elim o [ none ↦ none | some f ↦ says op f args ]
  truth-cmp none op args = refl
  truth-cmp (some f) op args = truth-leaf op f args

  -- The expression that an op tree compiles to holds, fails or is unknown of every record as the tree
  -- says of the record's field values: each operator compares the value that its path leads to with
  -- its own operand, `is_in` with all of them. The compilation fails exactly where a path leads to
  -- no field or an operator has no operand.
  pub compile_lem : (n : Node V) → Option.map laws.truth (compile s n variable) ≡ meaning n
  unfolding compile meaning
  compile_lem (cmp path op args) =
      truth-cmp (resolve s variable path) op args
      ∙ ap (λ o. elim o [ none ↦ none | some f ↦ says op f args ]) (resolve-follow variable path)
  compile_lem (both l r) =
      truth-both (compile s l variable) (compile s r variable)
      ∙ ap (λ p. lift2 truth_and p (Option.map laws.truth (compile s r variable))) (compile_lem l)
      ∙ ap (lift2 truth_and (meaning l)) (compile_lem r)
  compile_lem (either l r) =
      truth-either (compile s l variable) (compile s r variable)
      ∙ ap (λ p. lift2 truth_or p (Option.map laws.truth (compile s r variable))) (compile_lem l)
      ∙ ap (lift2 truth_or (meaning l)) (compile_lem r)
  compile_lem (neg n) = truth-neg (compile s n variable) ∙ ap lift (compile_lem n)
