-- ===== src/Federation/Tests.antt =====
-- Two sources of numbers under federated_store.py.
use httk_store.Prelude.{
  ℕ, zero, suc, ◌≡◌, refl, Bool, false, not, ◌&&◌, ◌||◌, leb, Option, none, some, List, [], ◌∷◌,
  map, length, ok, inl, if◌then◌else◌,
}
use httk_store.Prelude.Dict.{Dict, lookup}
use httk_store.Federation.{
  predicate, Child, record_output, origin_output, Plan, child_field, replay_ast, add_all,
  bind_child,
}
use httk_store.Federation.Execute.{
  child_outputs, declare_all, declare_outputs, push_limit, child_matches, source_matches,
  effective_limit, execute_plan, width,
}
use httk_store.Federation.Count.{child_count, source_count}
use httk_store.Federation.Window.{cut}
use httk_store.Federation.Union.{Delivers, AllDeliver, union, execute_plan_lem}
use httk_store.Federation.Faults.{IsRun}
use httk_store.Federation.Faults.Runs.{execute_plan-IsRun}
use httk_store.Federation.Results.{ResultSet, iterate, len, first, one}
use httk_store.Federation.Results.Counts.{AllCount, len-iterate}
use httk_store.Federation.Results.Terminals.{head, the_only, first_and_one_lem}

abbrev pub kept_numbers : (ℕ → Bool) → List ℕ → List ℕ
kept_numbers test [] = []
kept_numbers test (n ∷ ns) =
    let others = kept_numbers test ns in if test n then n ∷ others else others

abbrev pub copies : ℕ → ℕ → List ℕ
copies zero n = []
copies (suc k) n = n ∷ copies k n

pub record NumberSearcher : Type 0 where
  pub numbers : List ℕ
  pub outputs : ℕ
  pub limit : Option ℕ

abbrev pub first_or_zero : List ℕ → ℕ
first_or_zero [] = 0
first_or_zero (n ∷ ns) = n

-- A child store of numbers, whose one comparison is with an upper bound.
abbrev pub number_store : List ℕ → Child ℕ
number_store numbers = record {
  Searcher = NumberSearcher;
  Field = Unit {0};
  Expr = ℕ → Bool;
  searcher = λ as_of only_latest. ok (record { numbers = numbers; outputs = 0; limit = none });
  variable = λ target s. ok (tt, s);
  getattr = λ field name. ok field;
  always = λ value field. ok (λ n. value);
  operation = λ field name arguments. ok (λ n. leb n (first_or_zero arguments));
  conjoin = λ l r. ok (λ n. l n && r n);
  disjoin = λ l r. ok (λ n. l n || r n);
  negate = λ e. ok (λ n. not (e n));
  add = λ e s. ok (record s { numbers = kept_numbers e s.numbers });
  output = λ field name s. ok (record s { outputs = suc s.outputs });
  set_limit = λ n s. ok (record s { limit = some n });
  matches =
      λ s. ok (record { rows = cut s.limit (map (copies s.outputs) s.numbers); fault = none });
  count = λ s. ok (length s.numbers);
}

abbrev pub two_stores : Dict (Child ℕ)
two_stores = ("a", number_store (1 ∷ 7 ∷ 2 ∷ [])) ∷ ("b", number_store (3 ∷ 4 ∷ [])) ∷ []

abbrev small_plan : Plan ℕ
small_plan = record {
  sources = ("a", 0) ∷ ("b", 0) ∷ [];
  expressions = predicate [] "__le__" (3 ∷ []) ∷ [];
  outputs = record_output "r" ∷ origin_output "o" ∷ [];
  offset = 1;
  limit = some 5;
  as_of = none;
  only_latest = false;
  count_cache = 0;
}

abbrev small_rows : List (List (List ℕ))
small_rows = ((1 ∷ []) ∷ (2 ∷ []) ∷ []) ∷ ((3 ∷ []) ∷ []) ∷ []

abbrev small_result : ResultSet ℕ
small_result = record { store = two_stores; plan = small_plan }

small-Delivers_a : Delivers two_stores small_plan "a" 0 ((1 ∷ []) ∷ (2 ∷ []) ∷ [])
unfolding source_matches child_matches lookup bind_child add_all replay_ast child_field
    child_outputs declare_outputs declare_all push_limit width
small-Delivers_a = record { cut_matches = λ limit. matched limit; widths = (refl, (refl, tt)) }
  where
    matched :
        (limit : Option ℕ)
        → source_matches two_stores small_plan "a" 0 limit
          ≡ ok (record { rows = cut limit ((1 ∷ []) ∷ (2 ∷ []) ∷ []); fault = none })
    matched none = refl
    matched (some n) = refl

small-Delivers_b : Delivers two_stores small_plan "b" 0 ((3 ∷ []) ∷ [])
unfolding source_matches child_matches lookup bind_child add_all replay_ast child_field
    child_outputs declare_outputs declare_all push_limit width
small-Delivers_b = record { cut_matches = λ limit. matched limit; widths = (refl, tt) }
  where
    matched :
        (limit : Option ℕ)
        → source_matches two_stores small_plan "b" 0 limit
          ≡ ok (record { rows = cut limit ((3 ∷ []) ∷ []); fault = none })
    matched none = refl
    matched (some n) = refl

small-AllDeliver : AllDeliver two_stores small_plan small_plan.sources small_rows
small-AllDeliver = (small-Delivers_a, (small-Delivers_b, tt))

small-AllCount : AllCount two_stores small_plan small_plan.sources small_rows
unfolding source_count child_count lookup bind_child add_all replay_ast child_field
small-AllCount = (refl, (refl, tt))

execute_plan_lem_example : execute_plan two_stores small_plan (some 4) ≡ record {
  rows =
      cut
        (effective_limit (some 5) (some 4))
        (union small_plan.outputs small_plan.sources (((2 ∷ []) ∷ []) ∷ ((3 ∷ []) ∷ []) ∷ []));
  fault = none;
}
execute_plan_lem_example =
    execute_plan_lem two_stores small_plan (some 4) small_rows small-AllDeliver

execute_plan-IsRun_example :
    IsRun small_plan.outputs
      (effective_limit (some 5) (some 2))
      0
      small_plan.sources
      (execute_plan two_stores small_plan (some 2))
execute_plan-IsRun_example = execute_plan-IsRun two_stores small_plan (some 2)

len-iterate_example : (len small_result (λ k. none)).0 ≡ ok (length (iterate small_result).rows)
len-iterate_example =
    len-iterate small_result (λ k. none) small_rows small-AllDeliver small-AllCount (inl refl)

first_and_one_lem_example :
    (first small_result ≡ ok (head (iterate small_result).rows))
    × (one small_result ≡ the_only (iterate small_result).rows)
first_and_one_lem_example = first_and_one_lem small_result small_rows small-AllDeliver
