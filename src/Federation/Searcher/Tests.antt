-- ===== src/Federation/Searcher/Tests.antt =====
-- A searcher over two sources of numbers, under federated_store.py.
use httk_store.Prelude.{ℕ, ◌≡◌, refl, false, none, some, List, [], ◌∷◌, ok, arith}
use httk_store.Prelude.Dict.{lookup}
use httk_store.Federation.{predicate, child_field, replay_ast, bind_child}
use httk_store.Federation.Tests.{number_store, two_stores}
use httk_store.Federation.Searcher.{
  Searcher, Variable, Prototype, shared, Expression, Heap, raised_by,
}
use httk_store.Federation.Searcher.Build.{bind_variable, bind_children, add, add_children, bound_to}
use httk_store.Federation.Searcher.Planning.{frozen, count}
use httk_store.Federation.Searcher.Steps.{Sys, binds, adds, counts, Reach, here, next, IsNew, asked}
use httk_store.Federation.Searcher.Counting.{count-asked}
use httk_store.Federation.Searcher.Effects.{AddEffect, add_effect}

abbrev new_searcher : Searcher ℕ
new_searcher = record {
  me = 7;
  store_id = 1;
  store = two_stores;
  as_of = none;
  only_latest = false;
  variable = none;
  expressions = [];
  outputs = [];
  count_cache = 0;
  limit = none;
  offset = 0;
}

abbrev new_heap : Heap
new_heap = record { caches = λ k. none; next = 1 }

abbrev new_sys : Sys ℕ
new_sys = record { searcher = new_searcher; plans = []; heap = new_heap }

abbrev children : List ℕ → List ℕ → List (Prototype ℕ)
children a b =
    record {
      name = "a";
      child = number_store (1 ∷ 7 ∷ 2 ∷ []);
      field = tt;
      searcher = record { numbers = a; outputs = 0; limit = none };
    }
    ∷ record {
      name = "b";
      child = number_store (3 ∷ 4 ∷ []);
      field = tt;
      searcher = record { numbers = b; outputs = 0; limit = none };
    }
    ∷ []

abbrev bound_variable : Variable ℕ
bound_variable = record {
  targets = ("a", 0) ∷ ("b", 0) ∷ [];
  children = children (1 ∷ 7 ∷ 2 ∷ []) (3 ∷ 4 ∷ []);
}

abbrev filtered_variable : Variable ℕ
filtered_variable = record {
  targets = ("a", 0) ∷ ("b", 0) ∷ [];
  children = children (1 ∷ 2 ∷ []) (3 ∷ []);
}

abbrev at_most_three : Expression ℕ
at_most_three = record { owner = 7; ast = predicate [] "__le__" (3 ∷ []) }

new_sys-IsNew : IsNew new_sys
new_sys-IsNew = record {
  unbound = refl;
  no_plans = refl;
  empty = λ k. refl;
  allocated = omega arith;
}

new_sys-binds : bind_variable new_searcher (shared 0) ≡ ok (bound_to new_searcher bound_variable)
unfolding bind_variable bind_children lookup bind_child
new_sys-binds = refl

abbrev bound_sys : Sys ℕ
bound_sys = record new_sys { searcher = bound_to new_searcher bound_variable }

abbrev counted_sys : Sys ℕ
counted_sys = record bound_sys { heap = (count bound_sys.searcher bound_sys.heap).1 }

abbrev filtered_sys : Sys ℕ
filtered_sys = record counted_sys {
  searcher = (add counted_sys.searcher at_most_three counted_sys.heap).1;
  heap = (add counted_sys.searcher at_most_three counted_sys.heap).2;
}

new_sys-reaches : Reach new_sys filtered_sys
new_sys-reaches =
    next
      (next (next here (binds (shared 0) (bound_to new_searcher bound_variable) new_sys-binds))
        counts)
      (adds at_most_three)

filtered_sys-variable : filtered_sys.searcher.variable ≡ some filtered_variable
unfolding add add_children replay_ast child_field
filtered_sys-variable = refl

count-asked_example :
    (count filtered_sys.searcher filtered_sys.heap).0
    ≡ raised_by (asked filtered_sys (frozen filtered_sys.searcher filtered_variable []))
count-asked_example =
    count-asked new_sys filtered_sys filtered_variable new_sys-IsNew new_sys-reaches
      filtered_sys-variable

add_effect_example :
    AddEffect at_most_three bound_sys.searcher new_heap
      (add bound_sys.searcher at_most_three new_heap)
add_effect_example = add_effect at_most_three bound_sys.searcher new_heap
