-- ===== src/Federation/Faults/Runs.antt =====
-- The loop over the sources of `_execute_plan` (federated_store.py), on any sources.
use httk_store.Prelude.{
  ℕ, ◌+◌, ◌≡◌, sym, subst, Option, none, some, List, [], ◌∷◌, ◌++◌, arith, length, length-append,
  false, String, Result, ok, err, All, Bool-cases, inl, inr, if_true, if_false,
}
use httk_store.Prelude.Dict.{Dict}
use httk_store.Federation.{SourceError, Matches, Child, Plan}
use httk_store.Federation.Execute.{
  Row, Run, End, exhausted, returned, raises, Pass, reached, emit, continue, run_sources,
  source_matches, effective_limit, pushed_limit, execute_plan,
}
use httk_store.Federation.Faults.{
  FaultAmong, IsRow, Within, IsRun, EndIs, IsPass, FailsAt, zero-Within, same-Within,
  source_matches-FailsAt, emit-IsPass,
}

module _ {V : Type 0} (store : Dict (Child V)) (plan : Plan V) (limit : Option ℕ) where
  stop-IsRun :
      (yielded : ℕ) (sources : List (String × V)) (fault : Option SourceError)
      → Within limit yielded
      → FaultAmong fault sources
      → IsRun {V = V} plan.outputs limit yielded sources (record { rows = []; fault = fault })
  stop-IsRun yielded sources fault w f = record {
    within = same-Within store plan limit yielded (yielded + 0) (omega arith) w;
    rows_ok = tt;
    fault_among = f;
  }

  FaultAmong-later :
      (source : String) (target : V) (sources : List (String × V)) (fault : Option SourceError)
      → FaultAmong fault sources
      → FaultAmong fault ((source, target) ∷ sources)
  FaultAmong-later source target sources none f = tt
  FaultAmong-later source target sources (some e) f = inr f

  All-append_rows :
      (xs ys : List (Row V))
      → All (IsRow plan.outputs) xs
      → All (IsRow plan.outputs) ys
      → All (IsRow plan.outputs) (xs ++ ys)
  All-append_rows [] ys h k = k
  All-append_rows (x ∷ xs) ys (h, hs) k = (h, All-append_rows xs ys hs k)

  continue-IsRun :
      (source : String) (target : V) (sources : List (String × V)) (yielded : ℕ) (pass : Pass V)
      (rest : ℕ → ℕ → Run V)
      → IsPass plan.outputs limit source yielded pass
      → ((s y : ℕ) → Within limit y → IsRun plan.outputs limit y sources (rest s y))
      → IsRun plan.outputs limit yielded
          ((source, target) ∷ sources)
          (continue pass.rows pass.end rest)
  unfolding continue
  continue-IsRun source target sources yielded pass rest h k = go pass.end h.end_is
    where
      go :
          (e : End)
          → EndIs limit source (yielded + length pass.rows) e
          → IsRun plan.outputs limit yielded
              ((source, target) ∷ sources)
              (continue pass.rows e rest)
      go (exhausted s y) is_y =
          let r : IsRun plan.outputs limit y sources (rest s y) =
            k s y (same-Within store plan limit _ _ (sym is_y) h.within) in
          let len : length (pass.rows ++ (rest s y).rows)
              ≡ length pass.rows + length (rest s y).rows =
            length-append pass.rows (rest s y).rows in
          record {
            within = same-Within store plan limit _ _ (omega (arith, is_y, len)) r.within;
            rows_ok = All-append_rows pass.rows (rest s y).rows h.rows_ok r.rows_ok;
            fault_among = FaultAmong-later source target sources (rest s y).fault r.fault_among;
          }
      go returned u = record { within = h.within; rows_ok = h.rows_ok; fault_among = tt }
      go (raises e) at_source = record {
        within = h.within;
        rows_ok = h.rows_ok;
        fault_among = inl at_source;
      }

  run_sources-IsRun :
      (sources : List (String × V)) (child_limit : Option ℕ) (skipped yielded : ℕ)
      → Within limit yielded
      → IsRun plan.outputs limit yielded sources
          (run_sources store plan limit child_limit sources skipped yielded)
  unfolding run_sources
  run_sources-IsRun [] child_limit skipped yielded w = stop-IsRun yielded [] none w tt
  run_sources-IsRun ((source, target) ∷ sources) child_limit skipped yielded w =
      let P : Run V → Type 0 = IsRun plan.outputs limit yielded ((source, target) ∷ sources) in
      elim (Bool-cases (reached limit yielded)) [
        | inl full ↦
            subst P (sym (if_true _ _ full))
              (stop-IsRun yielded ((source, target) ∷ sources) none w tt)
        | inr open_ ↦ subst P (sym (if_false _ _ open_)) (
            go open_ (source_matches store plan source target child_limit)
              (source_matches-FailsAt store plan limit source target child_limit)
              (λ s y. run_sources-IsRun sources child_limit s y))
      ]
    where
      go :
          reached limit yielded ≡ false
          → (m : Result SourceError (Matches V)) → FailsAt source m
          → ((s y : ℕ)
              → Within limit y
              → IsRun plan.outputs limit y sources
                  (run_sources store plan limit child_limit sources s y))
          → IsRun plan.outputs limit yielded ((source, target) ∷ sources) (elim m as (λ x. Run V) [
            | err e ↦ record { rows = []; fault = some e }
            | ok m ↦
                let pass =
                  emit plan.outputs plan.offset limit source skipped yielded m.rows m.fault in
                continue pass.rows pass.end (run_sources store plan limit child_limit sources)
          ])
      go open_ (err e) f others = stop-IsRun yielded ((source, target) ∷ sources) (some e) w (inl f)
      go open_ (ok m) f others =
          continue-IsRun source target sources yielded
            (emit plan.outputs plan.offset limit source skipped yielded m.rows m.fault)
            (run_sources store plan limit child_limit sources)
            (emit-IsPass store plan limit source skipped yielded m.rows m.fault open_) others

-- Whatever the sources answer: an iteration gives at most as many rows as the plan's limit and the given
-- maximum allow, each with the names of the plan's outputs and a value for each, and an error that ends
-- it names a source of the plan.
pub execute_plan-IsRun :
    {V : Type 0} (store : Dict (Child V)) (plan : Plan V) (maximum : Option ℕ)
    → IsRun plan.outputs
        (effective_limit plan.limit maximum)
        0
        plan.sources
        (execute_plan store plan maximum)
unfolding execute_plan
execute_plan-IsRun store plan maximum =
    let limit = effective_limit plan.limit maximum in
    elim (Bool-cases (reached limit 0)) [
      | inl full ↦
          subst (IsRun plan.outputs limit 0 plan.sources) (sym (if_true _ _ full))
            (stop-IsRun store plan limit 0 plan.sources none (zero-Within limit) tt)
      | inr open_ ↦ subst (IsRun plan.outputs limit 0 plan.sources) (sym (if_false _ _ open_)) (
          run_sources-IsRun store plan limit plan.sources (pushed_limit plan.offset limit) 0 0
            (zero-Within limit))
    ]
