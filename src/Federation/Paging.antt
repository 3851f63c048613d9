-- ===== src/Federation/Paging.antt =====
-- `_execute_plan` (federated_store.py) against the union of the sources' rows.
use httk_store.Prelude.{
  ℕ, suc, ◌+◌, ◌-◌, ◌≡◌, refl, ap, sym, ◌∙◌, subst, Option, none, some, List, [], ◌∷◌, map, arith,
  length, true, false, ltb, eqb, not, String, All, Bool-cases, inl, inr, if_true, if_false,
}
use httk_store.Federation.{Output}
use httk_store.Federation.Execute.{
  Row, End, exhausted, returned, raises, Pass, reached, width, child_outputs, result_row, emit,
  yield_row,
}
use httk_store.Federation.Window.{
  cut, window, left, cut-nil, drop-nil, drop-suc, drop-none, cut-cons, cut-last,
}

-- How a loop over one source ends, when nothing fails: by going on with the counters moved, or by
-- returning with the limit reached.
abbrev pub EndsWell : ℕ → Option ℕ → ℕ → ℕ → ℕ → ℕ → End → Type 0
EndsWell offset limit skipped yielded given emitted (exhausted skipped' yielded') =
    (offset - skipped' ≡ offset - skipped - given)
    × (yielded' ≡ yielded + emitted)
    × (reached limit yielded' ≡ false)
EndsWell offset limit skipped yielded given emitted returned =
    (n : ℕ) × (limit ≡ some n) × (n ≡ yielded + emitted)
EndsWell offset limit skipped yielded given emitted (raises e) = ⊥

-- As many values as the source has to give.
abbrev pub HasWidth : {V : Type 0} → List Output → List V → Type 0
HasWidth outputs values = eqb (length values) (width (child_outputs outputs)) ≡ true

abbrev pub rows_of : {V : Type 0} → List Output → String → List (List V) → List (Row V)
rows_of outputs source rs = map (result_row source outputs) rs

reached_at :
    (limit : Option ℕ) (yielded : ℕ)
    → reached limit yielded ≡ false
    → reached limit (suc yielded) ≡ true
    → (n : ℕ) × (limit ≡ some n) × (n ≡ yielded + 1)
unfolding reached
reached_at none yielded h k = cc
reached_at (some n) yielded h k = (n, refl, ground (arith, h, k))

module _ {V : Type 0} (outputs : List Output) (offset : ℕ) (limit : Option ℕ)
    (source : String) where
  pub record Emits (skipped yielded : ℕ) (rs : List (List V)) (pass : Pass V) : Type 0 where
    pub rows :
        pass.rows ≡ window (offset - skipped) (left limit yielded) (rows_of outputs source rs)
    pub ends : EndsWell offset limit skipped yielded (length rs) (length pass.rows) pass.end

  skips :
      (v : List V) (rs : List (List V)) (skipped yielded : ℕ) (pass : Pass V)
      → ltb skipped offset ≡ true
      → Emits (suc skipped) yielded rs pass
      → Emits skipped yielded (v ∷ rs) pass
  skips v rs skipped yielded pass lt h = record {
    rows =
        h.rows
        ∙ ap (cut (left limit yielded)) (
            sym (
              drop-suc (offset - skipped) (offset - suc skipped) (result_row source outputs v)
                (rows_of outputs source rs) (ground (arith, lt))));
    ends = ends pass.end h.ends;
  }
    where
      ends :
          (e : End)
          → EndsWell offset limit (suc skipped) yielded (length rs) (length pass.rows) e
          → EndsWell offset limit skipped yielded (suc (length rs)) (length pass.rows) e
      ends (exhausted s y) (a, b, c) = (omega (arith, a), b, c)
      ends returned x = x
      ends (raises e) x = x

  yields :
      (v : List V) (rs : List (List V)) (skipped yielded : ℕ) (pass : Pass V)
      → ltb skipped offset ≡ false
      → reached limit yielded ≡ false
      → Emits skipped (suc yielded) rs pass
      → Emits skipped yielded (v ∷ rs) (yield_row (result_row source outputs v) pass)
  yields v rs skipped yielded pass ge open_ h =
      let row = result_row source outputs v in
      let none_left : offset - skipped ≡ 0 = ground (arith, ge) in
      record {
        rows =
            ap (λ t. row ∷ t)
              (h.rows
                ∙ ap (cut (left limit (suc yielded)))
                    (drop-none (offset - skipped) (rows_of outputs source rs) none_left))
            ∙ sym (
                ap (cut (left limit yielded))
                  (drop-none (offset - skipped) (row ∷ rows_of outputs source rs) none_left)
                ∙ cut-cons limit yielded row (rows_of outputs source rs) open_);
        ends = ends pass.end h.ends;
      }
    where
      ends :
          (e : End)
          → EndsWell offset limit skipped (suc yielded) (length rs) (length pass.rows) e
          → EndsWell offset limit skipped yielded (suc (length rs)) (suc (length pass.rows)) e
      ends (exhausted s y) (a, b, c) = (ground (arith, a, ge), omega (arith, b), c)
      ends returned (n, is_limit, b) = (n, is_limit, omega (arith, b))
      ends (raises e) x = x

  yields_last :
      (v : List V) (rs : List (List V)) (skipped yielded : ℕ)
      → ltb skipped offset ≡ false
      → reached limit yielded ≡ false
      → reached limit (suc yielded) ≡ true
      → Emits skipped yielded
          (v ∷ rs)
          (record { rows = result_row source outputs v ∷ []; end = returned })
  yields_last v rs skipped yielded ge open_ full =
      let row = result_row source outputs v in
      record {
        rows = sym (
            ap (cut (left limit yielded))
              (drop-none (offset - skipped) (row ∷ rows_of outputs source rs) (ground (arith, ge)))
            ∙ cut-last limit yielded row (rows_of outputs source rs) open_ full);
        ends = reached_at limit yielded open_ full;
      }

  pub emit-Emits :
      (rs : List (List V)) (skipped yielded : ℕ)
      → All (HasWidth outputs) rs
      → reached limit yielded ≡ false
      → Emits skipped yielded rs (emit outputs offset limit source skipped yielded rs none)
  unfolding emit
  emit-Emits [] skipped yielded w open_ = record {
    rows = sym (
        ap (cut (left limit yielded)) (drop-nil (offset - skipped)) ∙ cut-nil (left limit yielded));
    ends = (omega arith, omega arith, open_);
  }
  emit-Emits (v ∷ rs) skipped yielded (w, ws) open_ =
      subst (Emits skipped yielded (v ∷ rs)) (sym (if_false _ _ (ap not w)))
        (elim (Bool-cases (ltb skipped offset)) [
          | inl lt ↦
              subst (Emits skipped yielded (v ∷ rs)) (sym (if_true _ _ lt))
                (skips v rs skipped yielded _ lt (emit-Emits rs (suc skipped) yielded ws open_))
          | inr ge ↦ elim (Bool-cases (reached limit (suc yielded))) [
            | inl full ↦
                subst (Emits skipped yielded (v ∷ rs)) (sym (if_false _ _ ge ∙ if_true _ _ full))
                  (yields_last v rs skipped yielded ge open_ full)
            | inr more ↦
                subst (Emits skipped yielded (v ∷ rs)) (sym (if_false _ _ ge ∙ if_false _ _ more)) (
                  yields v rs skipped yielded _ ge open_
                    (emit-Emits rs skipped (suc yielded) ws more))
          ]
        ])
