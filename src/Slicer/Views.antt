-- ===== src/Slicer/Views.antt =====
-- What the slicer's views iterate and count (slicer.py).
use mathlib.Core.Option
use httk_store.Prelude.{
  ℕ, String, ◌≡◌, refl, ap, sym, ◌∙◌, Option, none, some, List, [], ◌∷◌, map, length, ok, eqb,
  Bool-cases, >>=-eq-ok, ok-injective, if_true, if_false, inl, inr,
}
use httk_store.Slicer.{Node, Search, compile, resolve}
use httk_store.Slicer.Masks.{Mask, a_mask, require_sibling, mask_xor, mask_invert}
use httk_store.Slicer.Index.{
  iter_selection, len_selection, column_searcher, iter_column, outputs, iter_projection,
}
use httk_store.Slicer.Meaning.{
  Truth, holds, fails, unknown, truth_not, truth_and, truth_or, truth_xor, where_holds, SearchLaws,
  lift, lift2, variable, meaning, compile_lem,
}

-- Where `_require_sibling` returns, it returns the mask that it was given.
sibling_self : {V : Type 0} (a b c : Mask V) → require_sibling a (a_mask b) ≡ ok c → c ≡ b
unfolding require_sibling
sibling_self a b c h = elim (Bool-cases (eqb b.slicer a.slicer)) [
  | inl same ↦ ok-injective (sym h ∙ if_true _ _ same)
  | inr other ↦ absurd (cc (sym h ∙ if_false _ _ other))
]

module _ {V : Type 0} (s : Search V) (laws : SearchLaws s) where
  -- The stored records of which an op tree holds.
  unfoldable pub matches : Node V → Option (List s.Rec)
  matches n = Option.map (λ p. where_holds p laws.stored) (meaning s laws n)

  kept-filter :
      (e : s.Expr)
      → laws.kept (s.add e (s.variable s.make).1) ≡ where_holds (laws.truth e) laws.stored
  kept-filter e =
      laws.kept-add e (s.variable s.make).1 ∙ ap (where_holds (laws.truth e)) laws.kept-variable

  -- A filtered view by the outcome of the compilation.
  abbrev opened : Option s.Expr → Option (s.Field × s.Searcher)
  opened o = elim o [ none ↦ none | some e ↦ some (variable s laws, s.add e (s.variable s.make).1) ]

  matches_of : Option s.Expr → Option (List s.Rec)
  matches_of o = Option.map (λ p. where_holds p laws.stored) (Option.map laws.truth o)

  matches-compile : (n : Node V) → matches_of (compile s n (variable s laws)) ≡ matches n
  unfolding matches matches_of
  matches-compile n = ap (Option.map (λ p. where_holds p laws.stored)) (compile_lem s laws n)

  records-opened :
      (o : Option s.Expr)
      → (elim (opened o) [ none ↦ none | some (v, q) ↦ some (s.records v q) ]) ≡ matches_of o
  unfolding matches_of
  records-opened none = refl
  records-opened (some e) =
      ap some (laws.records-kept (s.add e (s.variable s.make).1) ∙ kept-filter e)

  count-opened :
      (o : Option s.Expr)
      → (elim (opened o) [ none ↦ none | some (v, q) ↦ some (s.count q) ])
        ≡ Option.map length (matches_of o)
  unfolding matches_of
  count-opened none = refl
  count-opened (some e) =
      ap some (laws.count-length (s.add e (s.variable s.make).1) ∙ ap length (kept-filter e))

  values-opened :
      (o : Option s.Expr) (f : s.Field)
      → (elim (opened o) [ none ↦ none | some (v, q) ↦ some (s.values f q) ])
        ≡ Option.map (map (laws.field_value f)) (matches_of o)
  unfolding matches_of
  values-opened none f = refl
  values-opened (some e) f = ap some (
      laws.values-map f (s.add e (s.variable s.make).1)
      ∙ ap (map (laws.field_value f)) (kept-filter e))

  -- `slicer[mask]` iterates exactly the stored records of which the mask holds, in their order,
  -- and `len` of it is their number; both fail where the mask names a field that does not exist.
  pub iter_selection_lem :
      (n : Node V)
      → (iter_selection s n ≡ matches n) × (len_selection s n ≡ Option.map length (matches n))
  unfolding iter_selection len_selection
  iter_selection_lem n = (
    records-opened (compile s n (variable s laws)) ∙ matches-compile n,
    count-opened (compile s n (variable s laws)) ∙ ap (Option.map length) (matches-compile n),
  )

  -- A column of a selection whose field exists iterates that field's values over the records that
  -- the selection iterates.
  pub iter_column_lem :
      (slicer : ℕ) (n : Node V) (path : List String) (f : s.Field)
      → resolve s (variable s laws) path ≡ some f
      → iter_column s (record { slicer = slicer; path = path; ast = some n })
        ≡ Option.map (map (laws.field_value f)) (iter_selection s n)
  unfolding iter_column column_searcher
  iter_column_lem slicer n path f h =
      go (compile s n (variable s laws))
      ∙ values-opened (compile s n (variable s laws)) f
      ∙ ap (Option.map (map (laws.field_value f)))
          (matches-compile n ∙ sym (iter_selection_lem n).0)
    where
      go :
          (o : Option s.Expr)
          → (elim (opened o) [
            | none ↦ none
            | some (v, q) ↦ elim (resolve s v path) [ none ↦ none | some g ↦ some (s.values g q) ]
          ])
            ≡ (elim (opened o) [ none ↦ none | some (v, q) ↦ some (s.values f q) ])
      go none = refl
      go (some e) = rw h

  abbrev cons_row : s.Field → Option (s.Rec → List V) → Option (s.Rec → List V)
  cons_row f none = none
  cons_row f (some row) = some (λ r. laws.field_value f r ∷ row r)

  -- The row of a record: the values of the fields that the names name, in their order; `none` where
  -- a name is no field.
  unfoldable pub named_row : List String → Option (s.Rec → List V)
  named_row [] = some (λ r. [])
  named_row (name ∷ names) =
      let rest = named_row names in
      elim (s.getattr (variable s laws) name) [
        | none ↦ none
        | some f ↦ elim rest [ none ↦ none | some row ↦ some (λ r. laws.field_value f r ∷ row r) ]
      ]

  abbrev row_of : List (String × s.Field) → s.Rec → List V
  row_of fs r = map (λ (out : String × s.Field). laws.field_value out.1 r) fs

  abbrev add_output :
      String → Option (List (String × s.Field)) → Option s.Field → Option (List (String × s.Field))
  add_output name rest none = none
  add_output name none (some f) = none
  add_output name (some fs) (some f) = some ((name, f) ∷ fs)

  row-output :
      (name : String) (o : Option s.Field) (rest : Option (List (String × s.Field)))
      (row : Option (s.Rec → List V))
      → Option.map row_of rest ≡ row
      → Option.map row_of (add_output name rest o)
        ≡ (elim o [ none ↦ none | some f ↦ cons_row f row ])
  row-output name none rest row h = refl
  row-output name (some f) none row h = ap (cons_row f) h
  row-output name (some f) (some fs) row h = ap (cons_row f) h

  outputs-add :
      (name : String) (names : List String) (o : Option s.Field)
      → s.getattr (variable s laws) name ≡ o
      → outputs s (variable s laws) (name ∷ names)
        ≡ add_output name (outputs s (variable s laws) names) o
  unfolding outputs resolve
  outputs-add name names none h = rw (h, outputs, resolve) refl
  outputs-add name names (some f) h =
      rw (h, outputs, resolve) (go (outputs s (variable s laws) names))
    where
      go :
          (rest : Option (List (String × s.Field)))
          → (elim rest [ none ↦ none | some fs ↦ some ((name, f) ∷ fs) ])
            ≡ add_output name rest (some f)
      go none = refl
      go (some fs) = refl

  row-outputs :
      (names : List String)
      → Option.map row_of (outputs s (variable s laws) names) ≡ named_row names
  unfolding outputs named_row
  row-outputs [] = refl
  row-outputs (name ∷ names) =
      ap (Option.map row_of) (outputs-add name names (s.getattr (variable s laws) name) refl)
      ∙ row-output name (s.getattr (variable s laws) name) (outputs s (variable s laws) names)
          (named_row names) (row-outputs names)

  -- The rows of a selection's records, where the names are fields and the selection does not fail.
  unfoldable pub rows_of : Option (s.Rec → List V) → Option (List s.Rec) → Option (List (List V))
  rows_of none records = none
  rows_of (some row) records = Option.map (map row) records

  -- The rows of a filtered view, for what its outputs and their rows are.
  rows-opened :
      (o : Option s.Expr) (fields : Option (List (String × s.Field)))
      → (elim (opened o) [
        | none ↦ none
        | some (v, q) ↦ elim fields [ none ↦ none | some os ↦ some (s.rows os q) ]
      ])
        ≡ rows_of (Option.map row_of fields) (matches_of o)
  unfolding matches_of rows_of
  rows-opened none none = refl
  rows-opened none (some fs) = refl
  rows-opened (some e) none = refl
  rows-opened (some e) (some fs) =
      ap some
        (laws.rows-map fs (s.add e (s.variable s.make).1) ∙ ap (map (row_of fs)) (kept-filter e))

  -- A projection iterates one row for each record that the selection iterates: the values that the
  -- record has in the fields of the projected names, each name looked up on the query variable, in
  -- the order of the names. It fails exactly where the selection fails or a name is no field.
  pub iter_projection_lem :
      (n : Node V) (names : List String)
      → iter_projection s n names ≡ rows_of (named_row names) (iter_selection s n)
  unfolding iter_projection
  iter_projection_lem n names =
      outputs_here (compile s n (variable s laws))
      ∙ rows-opened (compile s n (variable s laws)) (outputs s (variable s laws) names)
      ∙ ap (λ w. rows_of w (matches_of (compile s n (variable s laws)))) (row-outputs names)
      ∙ ap (rows_of (named_row names)) (matches-compile n ∙ sym (iter_selection_lem n).0)
    where
      outputs_here :
          (o : Option s.Expr)
          → (elim (opened o) [
            | none ↦ none
            | some (v, q) ↦ elim (outputs s v names) [ none ↦ none | some os ↦ some (s.rows os q) ]
          ])
            ≡ (elim (opened o) [
              | none ↦ none
              | some (v, q) ↦ elim (outputs s (variable s laws) names) [
                | none ↦ none
                | some os ↦ some (s.rows os q)
              ]
            ])
      outputs_here none = refl
      outputs_here (some e) = refl

  meaning-xor :
      (p q : Option (s.Rec → Truth))
      → lift2 truth_and (lift2 truth_or p q) (lift (lift2 truth_and p q)) ≡ lift2 truth_xor p q
  meaning-xor none q = refl
  meaning-xor (some p) none = refl
  meaning-xor (some p) (some q) = λ i. some (λ r. xor (p r) (q r) i)
    where
      xor : (a b : Truth) → truth_and (truth_or a b) (truth_not (truth_and a b)) ≡ truth_xor a b
      xor holds holds = refl
      xor holds fails = refl
      xor holds unknown = refl
      xor fails holds = refl
      xor fails fails = refl
      xor fails unknown = refl
      xor unknown holds = refl
      xor unknown fails = refl
      xor unknown unknown = refl

  -- `a ^ b`, where Python allows it, holds of the records of which exactly one of the masks holds
  -- and the other fails; where either is unknown it is unknown.
  pub mask_xor_lem :
      (a b m : Mask V)
      → mask_xor a (a_mask b) ≡ ok m
      → meaning s laws m.ast ≡ lift2 truth_xor (meaning s laws a.ast) (meaning s laws b.ast)
  unfolding mask_xor meaning
  mask_xor_lem a b m h =
      let (c, found, made) = >>=-eq-ok (require_sibling a (a_mask b)) _ h in
      let same = sibling_self a b c found in
      ap (λ (k : Mask V). meaning s laws k.ast) (sym (ok-injective made))
      ∙ ap
          (λ (k : Mask V).
            lift2 truth_and (lift2 truth_or (meaning s laws a.ast) (meaning s laws k.ast))
              (lift (lift2 truth_and (meaning s laws a.ast) (meaning s laws k.ast))))
          same
      ∙ meaning-xor (meaning s laws a.ast) (meaning s laws b.ast)

  -- Inverting a mask twice gives a mask that holds of the same records.
  mask_invert_involutive : (a : Mask V) → matches (mask_invert (mask_invert a)).ast ≡ matches a.ast
  unfolding mask_invert matches meaning
  mask_invert_involutive a =
      ap (Option.map (λ p. where_holds p laws.stored)) (twice (meaning s laws a.ast))
    where
      not_not : (t : Truth) → truth_not (truth_not t) ≡ t
      not_not holds = refl
      not_not fails = refl
      not_not unknown = refl

      twice : (p : Option (s.Rec → Truth)) → lift (lift p) ≡ p
      twice none = refl
      twice (some p) = λ i. some (λ r. not_not (p r) i)
