-- ===== src/Federation/Union.antt =====
-- `_execute_plan` (federated_store.py) over all sources, against the union of their rows.
use httk_store.Prelude.{
  ℕ, ◌+◌, ◌-◌, ◌≡◌, ap, sym, ◌∙◌, Option, none, some, List, [], ◌∷◌, ◌++◌, arith, length, take,
  drop, true, String, Result, ok, err, All, Bool-cases, inl, inr, if_true, if_false, append-nil,
}
use httk_store.Prelude.Dict.{Dict}
use httk_store.Federation.{SourceError, Matches, Child, Output, Plan}
use httk_store.Federation.Execute.{
  Row, Run, End, exhausted, returned, raises, Pass, reached, result_row, emit, continue,
  run_sources, source_matches, effective_limit, pushed_limit, execute_plan,
}
use httk_store.Federation.Window.{
  cut, window, left, left-zero, left-left, cut-nil, drop-nil, window-append, window-pushed,
  length-pushed, map-cut, length-map, All-cut,
}
use httk_store.Federation.Paging.{EndsWell, HasWidth, rows_of, Emits, emit-Emits}

-- A source that answers: with no limit it gives all its matches, each with a value for each output,
-- and with a limit so many of them from the front.
pub record Delivers {V : Type 0} (store : Dict (Child V)) (plan : Plan V) (source : String)
    (target : V) (rs : List (List V)) : Type 0 where
  pub cut_matches :
      (limit : Option ℕ)
      → source_matches store plan source target limit
        ≡ ok (record { rows = cut limit rs; fault = none })
  pub widths : All (HasWidth plan.outputs) rs

abbrev pub AllDeliver :
    {V : Type 0} → Dict (Child V) → Plan V → List (String × V) → List (List (List V)) → Type 0
AllDeliver store plan [] [] = Unit
AllDeliver store plan [] (r ∷ rs) = ⊥
AllDeliver store plan ((source, target) ∷ sources) [] = ⊥
AllDeliver store plan ((source, target) ∷ sources) (r ∷ rs) =
    Delivers store plan source target r × AllDeliver store plan sources rs

-- The rows of the union: source by source, in their order.
abbrev pub union :
    {V : Type 0} → List Output → List (String × V) → List (List (List V)) → List (Row V)
union outputs [] rs = []
union outputs ((source, target) ∷ sources) [] = []
union outputs ((source, target) ∷ sources) (r ∷ rs) =
    rows_of outputs source r ++ union outputs sources rs

reached-left :
    {A : Type 0} (limit : Option ℕ) (yielded : ℕ) (xs : List A)
    → reached limit yielded ≡ true
    → cut (left limit yielded) xs ≡ []
unfolding reached
reached-left none yielded xs h = cc
reached-left (some n) yielded xs h =
    let e : n - yielded ≡ 0 = ground (arith, h) in ap (λ k. take k xs) e

full_at :
    (limit : Option ℕ) (yielded n : ℕ) → limit ≡ some n → n ≡ yielded → reached limit yielded ≡ true
unfolding reached
full_at limit yielded n h k = rw h (ground (arith, k))

module _ {V : Type 0} (outputs : List Output) (offset : ℕ) (limit : Option ℕ)
    (source : String) where
  -- One source and then the others.
  continue-Emits :
      (rs : List (List V)) (skipped yielded : ℕ) (pass : Pass V) (others : List (Row V))
      (rest : ℕ → ℕ → Run V)
      → Emits outputs offset limit source skipped yielded (cut (pushed_limit offset limit) rs) pass
      → ((s y : ℕ)
          → rest s y ≡ record { rows = window (offset - s) (left limit y) others; fault = none })
      → continue pass.rows pass.end rest ≡ record {
        rows = window (offset - skipped) (left limit yielded) (rows_of outputs source rs ++ others);
        fault = none;
      }
  unfolding continue
  continue-Emits rs skipped yielded pass others rest h k = go pass.end h.ends
    where
      xs : List (Row V)
      xs = rows_of outputs source rs

      emitted : pass.rows ≡ window (offset - skipped) (left limit yielded) xs
      emitted =
          h.rows
          ∙ ap (window (offset - skipped) (left limit yielded))
              (map-cut (result_row source outputs) (pushed_limit offset limit) rs)
          ∙ window-pushed offset limit skipped yielded xs

      whole :
          window (offset - skipped) (left limit yielded) (xs ++ others)
          ≡ pass.rows
            ++ window
                (offset - skipped - length xs)
                (left limit (yielded + length pass.rows))
                others
      whole =
          window-append (offset - skipped) (left limit yielded) xs others
          ∙ ap
              (λ w.
                w
                ++ window (offset - skipped - length xs) (left (left limit yielded) (length w))
                    others)
              (sym emitted)
          ∙ ap (λ l. pass.rows ++ window (offset - skipped - length xs) l others)
              (left-left limit yielded (length pass.rows))

      go :
          (e : End)
          → EndsWell offset limit skipped yielded
              (length (cut (pushed_limit offset limit) rs))
              (length pass.rows)
              e
          → continue pass.rows e rest ≡ record {
            rows = window (offset - skipped) (left limit yielded) (xs ++ others);
            fault = none;
          }
      go (exhausted s y) (a, b, c) =
          let same : offset - s ≡ offset - skipped - length xs =
            a
            ∙ length-pushed offset limit skipped rs
            ∙ ap (λ n. offset - skipped - n) (sym (length-map (result_row source outputs) rs)) in
          ap (λ (r : Run V). record { rows = pass.rows ++ r.rows; fault = r.fault }) (k s y)
          ∙ ap (λ rows. record { rows = rows; fault = none })
              (ap (λ n. pass.rows ++ window n (left limit y) others) same
                ∙ ap (λ n. pass.rows ++ window (offset - skipped - length xs) (left limit n) others)
                    b
                ∙ sym whole)
      go returned (n, is_limit, b) =
          ap (λ rows. record { rows = rows; fault = none })
            (sym (whole ∙ ap (λ t. pass.rows ++ t) nothing ∙ append-nil pass.rows))
        where
          nothing :
              window (offset - skipped - length xs) (left limit (yielded + length pass.rows)) others
              ≡ []
          nothing =
              reached-left limit (yielded + length pass.rows)
                (drop (offset - skipped - length xs) others)
                (full_at limit (yielded + length pass.rows) n is_limit b)
      go (raises e) x = absurd x

module _ {V : Type 0} (store : Dict (Child V)) (plan : Plan V) (limit : Option ℕ) where
  run_sources_lem :
      (sources : List (String × V)) (rs : List (List (List V))) (skipped yielded : ℕ)
      → AllDeliver store plan sources rs
      → run_sources store plan limit (pushed_limit plan.offset limit) sources skipped yielded
        ≡ record {
          rows =
              window (plan.offset - skipped) (left limit yielded) (union plan.outputs sources rs);
          fault = none;
        }
  unfolding run_sources
  run_sources_lem [] [] skipped yielded h =
      ap (λ rows. record { rows = rows; fault = none })
        (sym (
          ap (cut (left limit yielded)) (drop-nil (plan.offset - skipped))
          ∙ cut-nil (left limit yielded)))
  run_sources_lem [] (r ∷ rs) skipped yielded h = absurd h
  run_sources_lem ((source, target) ∷ sources) [] skipped yielded h = absurd h
  run_sources_lem ((source, target) ∷ sources) (r ∷ rs) skipped yielded (d, ds) =
      elim (Bool-cases (reached limit yielded)) [
        | inl full ↦
            if_true _ _ full
            ∙ ap (λ rows. record { rows = rows; fault = none })
                (sym (
                  reached-left limit yielded
                    (drop (plan.offset - skipped)
                      (union plan.outputs ((source, target) ∷ sources) (r ∷ rs)))
                    full))
        | inr open_ ↦
            if_false _ _ open_
            ∙ ap
                (λ (m : Result SourceError (Matches V)). elim m [
                  | err e ↦ record { rows = []; fault = some e }
                  | ok m ↦
                      let pass =
                        emit plan.outputs plan.offset limit source skipped yielded m.rows m.fault in
                      continue pass.rows pass.end
                        (run_sources store plan limit (pushed_limit plan.offset limit) sources)
                ])
                (d.cut_matches (pushed_limit plan.offset limit))
            ∙ continue-Emits plan.outputs plan.offset limit source r skipped yielded
                (emit plan.outputs plan.offset limit source skipped yielded
                  (cut (pushed_limit plan.offset limit) r) none)
                (union plan.outputs sources rs)
                (run_sources store plan limit (pushed_limit plan.offset limit) sources)
                (emit-Emits plan.outputs plan.offset limit source
                  (cut (pushed_limit plan.offset limit) r) skipped yielded
                  (All-cut (HasWidth plan.outputs) (pushed_limit plan.offset limit) r d.widths)
                  open_)
                (λ s y. run_sources_lem sources rs s y ds)
      ]

-- Iterating a result set: where each source gives all its matches when it is asked with no limit, and as
-- many of them from the front as a limit allows, the rows are the union of the sources' rows in the order of
-- the sources, without the first `offset` ones, and at most as many as the smaller of the plan's limit and
-- the given maximum; no error is raised.
pub execute_plan_lem :
    {V : Type 0} (store : Dict (Child V)) (plan : Plan V) (maximum : Option ℕ)
    (rs : List (List (List V)))
    → AllDeliver store plan plan.sources rs
    → execute_plan store plan maximum ≡ record {
      rows =
          cut
            (effective_limit plan.limit maximum)
            (drop plan.offset (union plan.outputs plan.sources rs));
      fault = none;
    }
unfolding execute_plan
execute_plan_lem store plan maximum rs h =
    let limit = effective_limit plan.limit maximum in
    let rows = union plan.outputs plan.sources rs in
    elim (Bool-cases (reached limit 0)) [
      | inl full ↦
          if_true _ _ full
          ∙ ap (λ rows. record { rows = rows; fault = none })
              (sym (
                ap (λ l. cut l (drop plan.offset rows)) (sym (left-zero limit))
                ∙ reached-left limit 0 (drop plan.offset rows) full))
      | inr open_ ↦
          if_false _ _ open_
          ∙ run_sources_lem store plan limit plan.sources rs 0 0 h
          ∙ ap (λ rows. record { rows = rows; fault = none })
              (ap (λ n. window n (left limit 0) rows)
                  (let e : plan.offset - 0 ≡ plan.offset = omega arith in e)
                ∙ ap (λ l. window plan.offset l rows) (left-zero limit))
    ]
