-- ===== src/Slicer/Tests.antt =====
-- Runs of the slicer (slicer.py) over a store of three numbers.
use mathlib.Core.Option
use httk_store.Prelude.{
  ℕ, String, ◌≡◌, ◌↔◌, ◌≢◌, refl, Bool, true, false, Option, none, some, List, [], ◌∷◌, map, length,
  ◌==◌, ◌||◌, ok, eqb, ltb, if◌then◌else◌, not,
}
use httk_store.Slicer.{Op, eq, lt, gt, both, either, neg, Search, compile, resolve}
use httk_store.Slicer.Masks.{Column, Mask, a_mask, mask_xor, compare_column}
use httk_store.Slicer.Index.{
  iter_selection, len_selection, iter_column, iter_projection, outputs, validate_names,
}
use httk_store.Slicer.Meaning.{
  Truth, holds, fails, truth_not, truth_and, truth_or, truth_xor, where_holds, SearchLaws, lift2,
  meaning, compile_lem,
}
use httk_store.Slicer.Views.{
  matches, named_row, rows_of, iter_selection_lem, iter_column_lem, iter_projection_lem,
  mask_xor_lem,
}
use httk_store.Slicer.Names.{IsDistinct, validate_names_exact}

abbrev test : Bool → Truth
test b = if b then holds else fails

abbrev toy_method : Op → ℕ → ℕ → Truth
toy_method lt v r = test (ltb r v)
toy_method gt v r = test (ltb v r)
toy_method eq v r = test (eqb r v)
toy_method op v r = test (not (eqb r v))

abbrev toy_member : ℕ → List ℕ → Bool
toy_member r [] = false
toy_member r (v ∷ vs) = eqb r v || toy_member r vs

-- Records are numbers with one field; an expression is its condition.
abbrev toy_search : Search ℕ
toy_search = record {
  Field = Bool;
  Expr = ℕ → Truth;
  Searcher = List ℕ;
  Rec = ℕ;
  getattr = λ field name. if name == "value" then some true else none;
  method = λ op field v r. toy_method op v r;
  is_in = λ field vs r. test (toy_member r vs);
  conjoin = λ a b r. truth_and (a r) (b r);
  disjoin = λ a b r. truth_or (a r) (b r);
  negate = λ a r. truth_not (a r);
  make = 1 ∷ 2 ∷ 3 ∷ [];
  variable = λ q. (false, q);
  add = λ e q. where_holds e q;
  records = λ field q. q;
  values = λ field q. map (λ r. r) q;
  rows = λ fs q. map (λ r. map (λ o. r) fs) q;
  count = λ q. length q;
}

toy_laws : SearchLaws toy_search
toy_laws = record {
  truth = λ e r. e r;
  stored = 1 ∷ 2 ∷ 3 ∷ [];
  kept = λ q. q;
  field_value = λ field r. r;
  compares = λ op r v. toy_method op v r;
  is_member = λ r vs. test (toy_member r vs);
  truth-method = λ op f v r. refl;
  truth-is_in = λ f vs r. refl;
  kept-variable = refl;
  kept-add = λ e q. refl;
  records-kept = λ q. refl;
  count-length = λ q. refl;
  values-map = λ f q. refl;
  rows-map = λ fs q. refl;
  truth-conjoin = λ a b r. refl;
  truth-disjoin = λ a b r. refl;
  truth-negate = λ a r. refl;
}

abbrev value_column : Column ℕ
value_column = record { slicer = 0; path = "value" ∷ []; ast = none }

abbrev above_one : Mask ℕ
above_one = compare_column gt value_column 1

abbrev below_three : Mask ℕ
below_three = compare_column lt value_column 3

compile_lem_example :
    Option.map toy_laws.truth (compile toy_search above_one.ast false)
    ≡ meaning toy_search toy_laws above_one.ast
compile_lem_example = compile_lem toy_search toy_laws above_one.ast

iter_selection_lem_example :
    (iter_selection toy_search above_one.ast ≡ matches toy_search toy_laws above_one.ast)
    × (len_selection toy_search above_one.ast
        ≡ Option.map length (matches toy_search toy_laws above_one.ast))
iter_selection_lem_example = iter_selection_lem toy_search toy_laws above_one.ast

above_one_runs : iter_selection toy_search above_one.ast ≡ some (2 ∷ 3 ∷ [])
unfolding iter_selection compile compare_column where_holds resolve
above_one_runs = refl

field_resolves : resolve toy_search false ("value" ∷ []) ≡ some true
unfolding resolve
field_resolves = refl

iter_column_lem_example :
    iter_column toy_search (record { slicer = 0; path = "value" ∷ []; ast = some above_one.ast })
    ≡ Option.map (map (toy_laws.field_value true)) (iter_selection toy_search above_one.ast)
iter_column_lem_example =
    iter_column_lem toy_search toy_laws 0 above_one.ast ("value" ∷ []) true field_resolves

abbrev exactly_one : Mask ℕ
exactly_one = record {
  slicer = 0;
  ast = both (either above_one.ast below_three.ast) (neg (both above_one.ast below_three.ast));
}

xor_runs : mask_xor above_one (a_mask below_three) ≡ ok exactly_one
unfolding mask_xor compare_column
xor_runs = refl

mask_xor_lem_example :
    meaning toy_search toy_laws exactly_one.ast
    ≡ lift2 truth_xor
        (meaning toy_search toy_laws above_one.ast)
        (meaning toy_search toy_laws below_three.ast)
mask_xor_lem_example = mask_xor_lem toy_search toy_laws above_one below_three exactly_one xor_runs

abbrev short : String → Bool
short name = not (name == "")

abbrev two_names : List String
two_names = "title" ∷ "value" ∷ []

abbrev given : List (Option String)
given = some "title" ∷ some "value" ∷ []

validate_names_exact_example :
    (validate_names short given ≡ ok two_names)
    ↔ ((two_names ≢ []) × IsDistinct short [] two_names × (given ≡ map some two_names))
validate_names_exact_example = validate_names_exact short given two_names

iter_projection_lem_example :
    iter_projection toy_search above_one.ast ("value" ∷ [])
    ≡ rows_of toy_search toy_laws
        (named_row toy_search toy_laws ("value" ∷ []))
        (iter_selection toy_search above_one.ast)
iter_projection_lem_example = iter_projection_lem toy_search toy_laws above_one.ast ("value" ∷ [])

rows_run : iter_projection toy_search above_one.ast ("value" ∷ []) ≡ some ((2 ∷ []) ∷ (3 ∷ []) ∷ [])
unfolding iter_projection outputs compile compare_column where_holds resolve
rows_run = refl
