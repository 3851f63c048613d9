-- ===== src/Federation/Searcher/Steps.antt =====
-- A federated searcher, the plans that are frozen from it, and their counts, one call at a time.
use httk_store.Prelude.{ℕ, ◌<◌, ◌≡◌, String, Bool, Option, none, List, [], ◌∷◌, ◌⊎◌, Result, ok}
use httk_store.Federation.{Plan, SourceError}
use httk_store.Federation.Count.{count_sources}
use httk_store.Federation.Results.{Bound, sliced, ResultSet, len}
use httk_store.Federation.Searcher.{Searcher, Target, Expression, OutputValue, Heap}
use httk_store.Federation.Searcher.Build.{bind_variable, add}
use httk_store.Federation.Searcher.Planning.{
  declare_output, set_limit, add_offset, make_plan, count,
}

-- The searcher, the plans that its calls and the slices of its results gave, and the caches.
pub record Sys (V : Type 0) : Type 1 where
  pub searcher : Searcher V
  pub plans : List (Plan V)
  pub heap : Heap

abbrev pub AmongPlans : {V : Type 0} → Plan V → List (Plan V) → Type 0
AmongPlans plan [] = ⊥
AmongPlans plan (p ∷ ps) = (plan ≡ p) ⊎ AmongPlans plan ps

abbrev pub result_of : {V : Type 0} → Sys V → Plan V → ResultSet V
result_of s plan = record { store = s.searcher.store; plan = plan }

-- One call, of the searcher or of a result set with one of the plans.
pub data Step {V : Type 0} (s : Sys V) : Sys V → Type 1 where
  binds :
      (target : Target V) (searcher : Searcher V)
      → bind_variable s.searcher target ≡ ok searcher
      → Step s (record s { searcher = searcher })
  adds :
      (e : Expression V)
      → Step s
          (record s { searcher = (add s.searcher e s.heap).1; heap = (add s.searcher e s.heap).2 })
  declares :
      (value : OutputValue) (name : String) (searcher : Searcher V)
      → declare_output s.searcher value name ≡ ok searcher
      → Step s (record s { searcher = searcher })
  limits :
      (limit : Bound) (searcher : Searcher V)
      → set_limit s.searcher limit ≡ ok searcher
      → Step s (record s { searcher = searcher })
  offsets :
      (offset : Bound) (searcher : Searcher V)
      → add_offset s.searcher offset ≡ ok searcher
      → Step s (record s { searcher = searcher })
  plans_results :
      (outputs : List (String × OutputValue)) (require_outputs : Bool) (plan : Plan V)
      → make_plan s.searcher outputs require_outputs ≡ ok plan
      → Step s (record s { plans = plan ∷ s.plans })
  slices :
      (plan : Plan V) (start : ℕ) (stop : Option ℕ)
      → AmongPlans plan s.plans
      → Step s (record s { plans = sliced plan start stop ∷ s.plans })
  counts : Step s (record s { heap = (count s.searcher s.heap).1 })
  measures :
      (plan : Plan V)
      → AmongPlans plan s.plans
      → Step s
          (record s { heap = record s.heap { caches = (len (result_of s plan) s.heap.caches).1 } })

pub data Reach {V : Type 0} (s : Sys V) : Sys V → Type 1 where
  here : Reach s s
  next : {t u : Sys V} → Reach s t → Step t u → Reach s u

-- A new searcher, with an empty cache of its own.
pub record IsNew {V : Type 0} (s : Sys V) : Type 1 where
  pub unbound : s.searcher.variable ≡ none
  pub no_plans : s.plans ≡ []
  pub empty : (k : ℕ) → s.heap.caches k ≡ none
  pub allocated : s.searcher.count_cache < s.heap.next

-- What asking every source of a plan counts.
abbrev pub asked : {V : Type 0} → Sys V → Plan V → Result SourceError ℕ
asked s plan = count_sources s.searcher.store plan plan.sources 0
