-- ===== src/Federation/Faults.antt =====
-- `_execute_plan` (federated_store.py) on sources that may give anything and fail anywhere.
pub mod Runs
use httk_store.Prelude.{
  ℕ, zero, suc, ◌+◌, ◌≤◌, ◌≡◌, refl, ap, sym, ◌∙◌, subst, Option, none, some, List, [], ◌∷◌, ◌++◌,
  map, arith, length, length-append, Bool, true, false, ltb, leb, eqb, not, String, Result, ok, err,
  All, Bool-cases, inl, inr, ◌⊎◌, if_true, if_false, if◌then◌else◌, ◌>>=◌,
}
use httk_store.Prelude.Dict.{Dict, lookup}
use httk_store.Federation.{
  Exn, SourceError, source_failed, source_unsupported, source_count_unavailable, source_error, at,
  Matches, Child, Output, record_output, field_output, origin_output, output_name, Plan, bind_child,
  add_all,
}
use httk_store.Federation.Execute.{
  Row, Run, End, exhausted, returned, raises, Pass, reached, width, project, child_outputs,
  declare_outputs, push_limit, result_row, yield_row, after_results, emit, and_then, continue,
  run_sources, child_matches, source_matches, effective_limit, pushed_limit, execute_plan,
}

abbrev pub error_source : SourceError → String
error_source (source_failed source operation) = source
error_source (source_unsupported source operation) = source
error_source (source_count_unavailable source operation) = source

-- One of the sources of a plan.
abbrev pub Among : {V : Type 0} → String → List (String × V) → Type 0
Among name [] = ⊥
Among name ((source, target) ∷ sources) = (name ≡ source) ⊎ Among name sources

abbrev pub FaultAmong : {V : Type 0} → Option SourceError → List (String × V) → Type 0
FaultAmong none sources = Unit
FaultAmong (some e) sources = Among (error_source e) sources

-- A row of a plan: its names, and a value for each.
abbrev pub IsRow : {V : Type 0} → List Output → Row V → Type 0
IsRow outputs row = (row.names ≡ map output_name outputs) × (length row.values ≡ length outputs)

abbrev pub Within : Option ℕ → ℕ → Type 0
Within none n = Unit
Within (some limit) n = n ≤ limit

-- What holds of a run that starts after some rows.
pub record IsRun {V : Type 0} (outputs : List Output) (limit : Option ℕ) (yielded : ℕ)
    (sources : List (String × V)) (run : Run V) : Type 0 where
  pub within : Within limit (yielded + length run.rows)
  pub rows_ok : All (IsRow outputs) run.rows
  pub fault_among : FaultAmong run.fault sources

abbrev pub EndIs : Option ℕ → String → ℕ → End → Type 0
EndIs limit source yielded (exhausted s y) = y ≡ yielded
EndIs limit source yielded returned = Unit
EndIs limit source yielded (raises e) = error_source e ≡ source

pub record IsPass {V : Type 0} (outputs : List Output) (limit : Option ℕ) (source : String)
    (yielded : ℕ) (pass : Pass V) : Type 0 where
  pub within : Within limit (yielded + length pass.rows)
  pub rows_ok : All (IsRow outputs) pass.rows
  pub end_is : EndIs limit source (yielded + length pass.rows) pass.end

source_error_source :
    (source operation : String) (e : Exn) → error_source (source_error source operation e) ≡ source
unfolding source_error
source_error_source source operation Exn.unsupported = refl
source_error_source source operation Exn.attribute_error = refl
source_error_source source operation Exn.count_unavailable = refl
source_error_source source operation Exn.other_error = refl

-- Enough values for the outputs give one for each.
length-project :
    {V : Type 0} (source : String) (outputs : List Output) (values : List V)
    → length values ≡ length (child_outputs outputs)
    → length (project source outputs values) ≡ length outputs
unfolding project child_outputs
length-project source [] values h = refl
length-project source (origin_output name ∷ outputs) values h =
    ap suc (length-project source outputs values h)
length-project source (record_output name ∷ outputs) [] h = absurd (omega (arith, h))
length-project source (record_output name ∷ outputs) (v ∷ values) h =
    ap suc (length-project source outputs values (omega (arith, h)))
length-project source (field_output name path ∷ outputs) [] h = absurd (omega (arith, h))
length-project source (field_output name path ∷ outputs) (v ∷ values) h =
    ap suc (length-project source outputs values (omega (arith, h)))

-- The hidden output is not among the plan's.
project-only_origins :
    {V : Type 0} (source : String) (outputs : List Output) (values : List V)
    → child_outputs outputs ≡ []
    → length (project source outputs values) ≡ length outputs
unfolding project child_outputs
project-only_origins source [] values h = refl
project-only_origins source (origin_output name ∷ outputs) values h =
    ap suc (project-only_origins source outputs values h)
project-only_origins source (record_output name ∷ outputs) values h = cc
project-only_origins source (field_output name path ∷ outputs) values h = cc

result_row-IsRow :
    {V : Type 0} (source : String) (outputs : List Output) (values : List V)
    → eqb (length values) (width (child_outputs outputs)) ≡ true
    → IsRow outputs (result_row source outputs values)
unfolding width
result_row-IsRow source outputs values h = (refl, go (child_outputs outputs) refl h)
  where
    go :
        (os : List Output)
        → child_outputs outputs ≡ os
        → eqb (length values) (width os) ≡ true
        → length (project source outputs values) ≡ length outputs
    go [] e h = project-only_origins source outputs values e
    go (o ∷ os) e h = length-project source outputs values (ground (arith, h) ∙ ap length (sym e))

-- An error of a step on a source names that source.
abbrev pub FailsAt {ℓ} : {A : Type ℓ} → String → Result SourceError A → Type 0
FailsAt source (ok a) = Unit
FailsAt source (err e) = error_source e ≡ source

at-FailsAt {ℓ} :
    {A : Type ℓ} (source operation : String) (m : Result Exn A)
    → FailsAt source (at source operation m)
at-FailsAt source operation (ok a) = tt
at-FailsAt source operation (err e) = source_error_source source operation e

then-FailsAt {ℓ κ} :
    {A : Type ℓ} {B : Type κ} (source : String) (m : Result SourceError A)
    (f : A → Result SourceError B)
    → FailsAt source m
    → ((a : A) → FailsAt source (f a))
    → FailsAt source (m >>= f)
then-FailsAt source (ok a) f h k = k a
then-FailsAt source (err e) f h k = h

reached-Within :
    (limit : Option ℕ) (n : ℕ) → reached limit n ≡ false → Within limit n × Within limit (suc n)
unfolding reached
reached-Within none n h = (tt, tt)
reached-Within (some l) n h = (ground (arith, h), ground (arith, h))

pub zero-Within : (limit : Option ℕ) → Within limit 0
zero-Within none = tt
zero-Within (some l) = omega arith

module _ {V : Type 0} (store : Dict (Child V)) (plan : Plan V) (limit : Option ℕ) where
  child_matches-FailsAt :
      (c : Child V) (source : String) (target : V) (child_limit : Option ℕ)
      → FailsAt source (child_matches c plan source target child_limit)
  unfolding child_matches
  child_matches-FailsAt c source target child_limit =
      then-FailsAt source _ _
        (at-FailsAt source "searcher construction"
          (bind_child c plan.as_of plan.only_latest target))
        (λ (variable, s).
          then-FailsAt source _ _
            (at-FailsAt source "expression replay" (add_all c plan.expressions variable s))
            (λ s₁.
              then-FailsAt source _ _
                (at-FailsAt source "output declaration"
                  (declare_outputs c (child_outputs plan.outputs) variable s₁))
                (λ s₂.
                  then-FailsAt source _ _
                    (at-FailsAt source "limit pushdown" (push_limit c child_limit s₂))
                    (λ s₃. at-FailsAt source "iteration" (c.matches s₃)))))

  pub source_matches-FailsAt :
      (source : String) (target : V) (child_limit : Option ℕ)
      → FailsAt source (source_matches store plan source target child_limit)
  unfolding source_matches
  source_matches-FailsAt source target child_limit =
      elim (lookup source store)
        as (λ found. FailsAt source (elim found as (λ x. Result SourceError (Matches V)) [
          | none ↦ err (source_failed source "searcher construction")
          | some c ↦ child_matches c plan source target child_limit
        ])) [ none ↦ refl | some c ↦ child_matches-FailsAt c source target child_limit ]

  pub same-Within : (a b : ℕ) → a ≡ b → Within limit a → Within limit b
  same-Within a b e w = subst (Within limit) e w

  after_results-IsPass :
      (source : String) (skipped yielded : ℕ) (fault : Option Exn)
      → Within limit yielded
      → IsPass {V = V} plan.outputs limit source yielded
          (after_results source skipped yielded fault)
  after_results-IsPass source skipped yielded none w = record {
    within = same-Within yielded (yielded + 0) (omega arith) w;
    rows_ok = tt;
    end_is = omega arith;
  }
  after_results-IsPass source skipped yielded (some e) w = record {
    within = same-Within yielded (yielded + 0) (omega arith) w;
    rows_ok = tt;
    end_is = source_error_source source "iteration" e;
  }

  yield_row-IsPass :
      (source : String) (yielded : ℕ) (row : Row V) (pass : Pass V)
      → IsRow plan.outputs row
      → IsPass plan.outputs limit source (suc yielded) pass
      → IsPass plan.outputs limit source yielded (yield_row row pass)
  yield_row-IsPass source yielded row pass good h =
      let more : suc yielded + length pass.rows ≡ yielded + suc (length pass.rows) = omega arith in
      record {
        within = same-Within _ _ more h.within;
        rows_ok = (good, h.rows_ok);
        end_is = subst (λ n. EndIs limit source n pass.end) more h.end_is;
      }

  pub emit-IsPass :
      (source : String) (skipped yielded : ℕ) (rows : List (List V)) (fault : Option Exn)
      → reached limit yielded ≡ false
      → IsPass plan.outputs limit source yielded
          (emit plan.outputs plan.offset limit source skipped yielded rows fault)
  unfolding emit
  emit-IsPass source skipped yielded [] fault open_ =
      after_results-IsPass source skipped yielded fault (reached-Within limit yielded open_).0
  emit-IsPass source skipped yielded (values ∷ rows) fault open_ =
      let P : Pass V → Type 0 = IsPass plan.outputs limit source yielded in
      elim (Bool-cases (eqb (length values) (width (child_outputs plan.outputs)))) [
        | inr short ↦ subst P (sym (if_true _ _ (ap not short))) (record {
          within =
              same-Within yielded (yielded + 0) (omega arith)
                (reached-Within limit yielded open_).0;
          rows_ok = tt;
          end_is = refl;
        })
        | inl fits ↦
            let row : Row V = result_row source plan.outputs values in
            let good : IsRow plan.outputs row = result_row-IsRow source plan.outputs values fits in
            subst P (sym (if_false _ _ (ap not fits)))
              (elim (Bool-cases (ltb skipped plan.offset)) [
                | inl lt ↦
                    subst P (sym (if_true _ _ lt))
                      (emit-IsPass source (suc skipped) yielded rows fault open_)
                | inr ge ↦
                    subst P (sym (if_false _ _ ge))
                      (elim (Bool-cases (reached limit (suc yielded))) [
                        | inl full ↦ subst P (sym (if_true _ _ full)) (record {
                          within =
                              same-Within (suc yielded) (yielded + 1) (omega arith)
                                (reached-Within limit yielded open_).1;
                          rows_ok = (good, tt);
                          end_is = tt;
                        })
                        | inr more ↦ subst P (sym (if_false _ _ more)) (
                            yield_row-IsPass source yielded row _ good
                              (emit-IsPass source skipped (suc yielded) rows fault more))
                      ])
              ])
      ]
