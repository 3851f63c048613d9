-- ===== src/Federation/Execute.antt =====
-- `_execute_plan` (federated_store.py).
use httk_store.Prelude.{
  ℕ, suc, ◌+◌, String, Bool, false, Option, none, some, List, [], ◌∷◌, ◌++◌, not, map, min,
  if◌then◌else◌, ltb, leb, eqb, length, Result, ok, err, ◌>>=◌,
}
use httk_store.Prelude.Dict.{Dict, lookup}
use httk_store.Federation.{
  Exn, SourceError, source_failed, source_error, at, Matches, Child, Output, record_output,
  field_output, origin_output, output_name, Plan, child_field, add_all, bind_child,
}

-- A value of a result row: a child's, or the name of the source for an origin output.
pub data Item (V : Type 0) : Type 0 where
  child_value : V → Item V
  origin : String → Item V

-- SearchResult
pub record Row (V : Type 0) : Type 0 where
  pub values : List (Item V)
  pub names : List String

-- What an iteration of the generator gives: its rows, and the error that ends it, if one does.
pub record Run (V : Type 0) : Type 0 where
  pub rows : List (Row V)
  pub fault : Option SourceError

-- The outputs that a child declares, and the hidden one where there are none.
unfoldable pub child_outputs : List Output → List Output
child_outputs [] = []
child_outputs (origin_output name ∷ outputs) = child_outputs outputs
child_outputs (record_output name ∷ outputs) = record_output name ∷ child_outputs outputs
child_outputs (field_output name path ∷ outputs) = field_output name path ∷ child_outputs outputs

unfoldable pub width : List Output → ℕ
width [] = 1
width (o ∷ os) = length (o ∷ os)

-- The values of a row, the child's taken in their order.
unfoldable pub project : {V : Type 0} → String → List Output → List V → List (Item V)
project source [] values = []
project source (origin_output name ∷ outputs) values = origin source ∷ project source outputs values
project source (record_output name ∷ outputs) [] = []
project source (record_output name ∷ outputs) (v ∷ values) =
    child_value v ∷ project source outputs values
project source (field_output name path ∷ outputs) [] = []
project source (field_output name path ∷ outputs) (v ∷ values) =
    child_value v ∷ project source outputs values

-- `effective_limit is not None and yielded >= effective_limit`
unfoldable pub reached : Option ℕ → ℕ → Bool
reached none yielded = false
reached (some n) yielded = leb n yielded

-- How the loop over a child's results ends: the generator goes on to the next source, returns, or
-- raises; the counters stand as the loop leaves them.
pub data End : Type 0 where
  exhausted : (skipped yielded : ℕ) → End
  returned : End
  raises : SourceError → End

unfoldable pub effective_limit : Option ℕ → Option ℕ → Option ℕ
effective_limit limit none = limit
effective_limit none (some maximum) = some maximum
effective_limit (some limit) (some maximum) = some (min limit maximum)

abbrev pub pushed_limit : ℕ → Option ℕ → Option ℕ
pushed_limit offset none = none
pushed_limit offset (some n) = some (offset + n)

pub record Pass (V : Type 0) : Type 0 where
  pub rows : List (Row V)
  pub end : End

module _ {V : Type 0} where
  unfoldable pub declare_all :
      (c : Child V) → List Output → c.Field → c.Searcher → Result Exn c.Searcher
  declare_all c [] variable s = ok s
  declare_all c (origin_output name ∷ outputs) variable s = declare_all c outputs variable s
  declare_all c (record_output name ∷ outputs) variable s = do
    s' ← c.output variable name s
    declare_all c outputs variable s'
  declare_all c (field_output name path ∷ outputs) variable s = do
    field ← child_field c variable path
    s' ← c.output field name s
    declare_all c outputs variable s'

  unfoldable pub declare_outputs :
      (c : Child V) → List Output → c.Field → c.Searcher → Result Exn c.Searcher
  unfolding declare_all
  declare_outputs c [] variable s = c.output variable "__httk_federated_hidden_record__" s
  declare_outputs c (o ∷ outputs) variable s = declare_all c (o ∷ outputs) variable s

  unfoldable pub push_limit : (c : Child V) → Option ℕ → c.Searcher → Result Exn c.Searcher
  push_limit c none s = ok s
  push_limit c (some n) s = c.set_limit n s

  -- The part of `_execute_plan` that asks one source for its matches.
  unfoldable pub child_matches :
      Child V → Plan V → String → V → Option ℕ → Result SourceError (Matches V)
  unfolding declare_outputs push_limit
  child_matches c plan source target child_limit = do
    (variable, s) ←
        at source "searcher construction" (bind_child c plan.as_of plan.only_latest target)
    s₁ ← at source "expression replay" (add_all c plan.expressions variable s)
    s₂ ← at source "output declaration" (declare_outputs c (child_outputs plan.outputs) variable s₁)
    s₃ ← at source "limit pushdown" (push_limit c child_limit s₂)
    at source "iteration" (c.matches s₃)

  -- The same for a source by its name: `store._sources[source]`.
  unfoldable pub source_matches :
      Dict (Child V) → Plan V → String → V → Option ℕ → Result SourceError (Matches V)
  unfolding child_matches
  source_matches store plan source target child_limit = elim (lookup source store) [
    | none ↦ err (source_failed source "searcher construction")
    | some c ↦ child_matches c plan source target child_limit
  ]

  abbrev pub yield_row : Row V → Pass V → Pass V
  yield_row row pass = record { rows = row ∷ pass.rows; end = pass.end }

  abbrev pub result_row : String → List Output → List V → Row V
  result_row source outputs values = record {
    values = project source outputs values;
    names = map output_name outputs;
  }

  abbrev pub after_results : String → ℕ → ℕ → Option Exn → Pass V
  after_results source skipped yielded none = record { rows = []; end = exhausted skipped yielded }
  after_results source skipped yielded (some e) = record {
    rows = [];
    end = raises (source_error source "iteration" e);
  }

  -- The loop over a child's results.
  unfoldable pub emit :
      List Output → ℕ → Option ℕ → String → ℕ → ℕ → List (List V) → Option Exn → Pass V
  unfolding reached
  emit outputs offset limit source skipped yielded [] fault =
      after_results source skipped yielded fault
  emit outputs offset limit source skipped yielded (values ∷ rest) fault =
      let skip = emit outputs offset limit source (suc skipped) yielded rest fault in
      let more = emit outputs offset limit source skipped (suc yielded) rest fault in
      if not (eqb (length values) (width (child_outputs outputs)))
      then record { rows = []; end = raises (source_failed source "iteration") }
      else if ltb skipped offset
      then skip
      else if reached limit (suc yielded)
      then record { rows = result_row source outputs values ∷ []; end = returned }
      else yield_row (result_row source outputs values) more

  abbrev pub and_then : List (Row V) → Run V → Run V
  and_then rows run = record { rows = rows ++ run.rows; fault = run.fault }

  -- What follows the loop over one source; `rest` is the loop over the other sources.
  unfoldable pub continue : List (Row V) → End → (ℕ → ℕ → Run V) → Run V
  continue rows (exhausted skipped yielded) rest = and_then rows (rest skipped yielded)
  continue rows returned rest = record { rows = rows; fault = none }
  continue rows (raises e) rest = record { rows = rows; fault = some e }

  -- The loop over the sources of a plan.
  unfoldable pub run_sources :
      Dict (Child V) → Plan V → Option ℕ → Option ℕ → List (String × V) → ℕ → ℕ → Run V
  unfolding emit continue reached
  run_sources store plan limit child_limit [] skipped yielded = record { rows = []; fault = none }
  run_sources store plan limit child_limit ((source, target) ∷ sources) skipped yielded =
      if reached limit yielded
      then record { rows = []; fault = none }
      else elim (source_matches store plan source target child_limit) [
        | err e ↦ record { rows = []; fault = some e }
        | ok m ↦
            let pass = emit plan.outputs plan.offset limit source skipped yielded m.rows m.fault in
            continue pass.rows pass.end (run_sources store plan limit child_limit sources)
      ]

  -- `_execute_plan`
  unfoldable pub execute_plan : Dict (Child V) → Plan V → Option ℕ → Run V
  unfolding run_sources effective_limit
  execute_plan store plan maximum =
      let limit = effective_limit plan.limit maximum in
      if reached limit 0
      then record { rows = []; fault = none }
      else run_sources store plan limit (pushed_limit plan.offset limit) plan.sources 0 0
