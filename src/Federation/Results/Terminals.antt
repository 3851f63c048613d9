-- ===== src/Federation/Results/Terminals.antt =====
-- `first` and `one` of a FederatedResultSet (federated_store.py) against its iteration.
use mathlib.Core.Option
use httk_store.Prelude.{
  ℕ, ◌≡◌, refl, ap, sym, ◌∙◌, Option, none, some, List, [], ◌∷◌, take, drop, Result, ok, err, ◌>>=◌,
}
use httk_store.Federation.Execute.{Row, Run, execute_plan, effective_limit}
use httk_store.Federation.Window.{cut, take-take}
use httk_store.Federation.Union.{AllDeliver, union, execute_plan_lem}
use httk_store.Federation.Results.{
  ResultSet, ResultError, no_result, multiple_results, next_row, fst_row, one_after, first, one,
  iterate,
}

abbrev pub head {ℓ} : {A : Type ℓ} → List A → Option A
head [] = none
head (x ∷ xs) = some x

abbrev pub the_only {ℓ} : {A : Type ℓ} → List A → Result ResultError A
the_only [] = err no_result
the_only (x ∷ []) = ok x
the_only (x ∷ y ∷ ys) = err multiple_results

cut-effective {ℓ} :
    {A : Type ℓ} (limit : Option ℕ) (maximum : ℕ) (xs : List A)
    → cut (effective_limit limit (some maximum)) xs ≡ take maximum (cut limit xs)
unfolding effective_limit
cut-effective none maximum xs = refl
cut-effective (some limit) maximum xs = sym (take-take maximum limit xs)

-- The calls of `next` of the two operations, on a run that raises nothing.
firsts :
    {V : Type 0} (rows : List (Row V))
    → (do
      next ← next_row (record { rows = take 1 rows; fault = none })
      ok (Option.map fst_row next))
      ≡ ok (head rows)
firsts [] = refl
firsts (row ∷ rows) = refl

ones :
    {V : Type 0} (rows : List (Row V))
    → (do next ← next_row (record { rows = take 2 rows; fault = none }); one_after next)
      ≡ the_only rows
ones [] = refl
ones (row ∷ []) = refl
ones (row ∷ other ∷ rows) = refl

module _ {V : Type 0} (result : ResultSet V) (rs : List (List (List V))) where
  -- A maximum takes as many rows from the front.
  execute-maximum :
      (maximum : ℕ)
      → AllDeliver result.store result.plan result.plan.sources rs
      → execute_plan result.store result.plan (some maximum)
        ≡ record { rows = take maximum (iterate result).rows; fault = none }
  unfolding effective_limit
  execute-maximum maximum h =
      let u = drop result.plan.offset (union result.plan.outputs result.plan.sources rs) in
      execute_plan_lem result.store result.plan (some maximum) rs h
      ∙ ap (λ rows. record { rows = rows; fault = none })
          (cut-effective result.plan.limit maximum u
            ∙ ap (λ (r : Run V). take maximum r.rows)
                (sym (execute_plan_lem result.store result.plan none rs h)))

  -- Where the sources answer with the cut of their matches at any limit, `first` gives the first of the rows
  -- that the iteration gives, or nothing where there is none, and `one` gives the only row, or raises
  -- NoResultError where there is none and MultipleResultsError where there is more than one.
  pub first_and_one_lem :
      AllDeliver result.store result.plan result.plan.sources rs
      → (first result ≡ ok (head (iterate result).rows))
        × (one result ≡ the_only (iterate result).rows)
  unfolding first one
  first_and_one_lem h = (
    ap (λ run. do next ← next_row run; ok (Option.map fst_row next)) (execute-maximum 1 h)
        ∙ firsts (iterate result).rows,
    ap (λ run. do next ← next_row run; one_after next) (execute-maximum 2 h)
        ∙ ones (iterate result).rows,
  )
