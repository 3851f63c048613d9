-- ===== src/Evaluator/Logic.antt =====
-- The connectives of `_eval_predicate` (evaluator.py), and its loops over items.
use httk_store.Prelude.{
  ◌≡◌, refl, ap, sym, ◌∙◌, Bool, true, false, Option, none, some, List, [], ◌∷◌, Result, ok, err,
  ◌>>=◌, ◌||◌, >>=-step, if◌then◌else◌, Bool-cases, inl, inr, if_true, if_false,
}
use httk_store.Evaluator.{EvalError}
use httk_store.Evaluator.Eval.{and3, or3, not3, is_true, any_item, keep_items}
use httk_store.Evaluator.Total.{Returns, keep_items-Returns}

-- What `_eval_predicate` gives for each item.
abbrev pub Test : Type 0 → Type 0
Test V = Option V → Result EvalError (Option Bool)

module _ {V : Type 0} where
  abbrev pub and_test : Test V → Test V → Test V
  and_test f g item = do l ← f item; r ← g item; ok (and3 l r)

  abbrev pub or_test : Test V → Test V → Test V
  or_test f g item = do l ← f item; r ← g item; ok (or3 l r)

is_true-and3-false : (a b : Option Bool) → is_true a ≡ false → is_true (and3 a b) ≡ false
is_true-and3-false none none h = refl
is_true-and3-false none (some false) h = refl
is_true-and3-false none (some true) h = refl
is_true-and3-false (some false) b h = refl
is_true-and3-false (some true) b h = cc

is_true-and3-true : (a b : Option Bool) → is_true a ≡ true → is_true (and3 a b) ≡ is_true b
is_true-and3-true none b h = cc
is_true-and3-true (some false) b h = cc
is_true-and3-true (some true) b h = refl

is_true-or3 : (a b : Option Bool) → is_true (or3 a b) ≡ is_true a || is_true b
is_true-or3 none none = refl
is_true-or3 none (some false) = refl
is_true-or3 none (some true) = refl
is_true-or3 (some false) b = refl
is_true-or3 (some true) b = refl

pub or3-known : (x y : Bool) → or3 (some x) (some y) ≡ some (x || y)
or3-known false y = refl
or3-known true y = refl

or_swap : (a b x y : Bool) → ((a || b) || (x || y)) ≡ ((a || x) || (b || y))
or_swap true b x y = refl
or_swap false true true y = refl
or_swap false true false y = refl
or_swap false false true y = refl
or_swap false false false y = refl

if-or :
    (t : Bool) (m : Result EvalError (Option Bool)) (x : Bool)
    → m ≡ ok (some x)
    → (if t then ok (some true) else m) ≡ ok (some (t || x))
if-or true m x h = refl
if-or false m x h = h

not3-and3 : (a b : Option Bool) → not3 (and3 a b) ≡ or3 (not3 a) (not3 b)
not3-and3 (some false) b = refl
not3-and3 (some true) b = refl
not3-and3 none (some false) = refl
not3-and3 none (some true) = refl
not3-and3 none none = refl

not3-or3 : (a b : Option Bool) → not3 (or3 a b) ≡ and3 (not3 a) (not3 b)
not3-or3 (some true) b = refl
not3-or3 (some false) b = refl
not3-or3 none (some true) = refl
not3-or3 none (some false) = refl
not3-or3 none none = refl

not3-not3 : (a : Option Bool) → not3 (not3 a) ≡ a
not3-not3 none = refl
not3-not3 (some true) = refl
not3-not3 (some false) = refl

abbrev pub negate : Result EvalError (Option Bool) → Result EvalError (Option Bool)
negate m = do v ← m; ok (not3 v)

abbrev pub join3 :
    (Option Bool → Option Bool → Option Bool)
    → Result EvalError (Option Bool)
    → Result EvalError (Option Bool)
    → Result EvalError (Option Bool)
join3 op m n = do l ← m; r ← n; ok (op l r)

-- The laws of the three connectives on results.
pub negated :
    (m n : Result EvalError (Option Bool))
    → (negate (join3 and3 m n) ≡ join3 or3 (negate m) (negate n))
      × (negate (join3 or3 m n) ≡ join3 and3 (negate m) (negate n))
      × (negate (negate m) ≡ m)
negated (err e) n = (refl, refl, refl)
negated (ok a) (err e) = (refl, refl, ap ok (not3-not3 a))
negated (ok a) (ok b) = (ap ok (not3-and3 a b), ap ok (not3-or3 a b), ap ok (not3-not3 a))

module _ {V : Type 0} where
  -- One item of the loop of "exists", whose test returns.
  any_item-step :
      (test : Option V → Result EvalError (Option Bool)) (item : Option V) (items : List (Option V))
      (r : Option Bool)
      → test item ≡ ok r
      → any_item test (item ∷ items) ≡ (if is_true r then ok (some true) else any_item test items)
  unfolding any_item
  any_item-step test item items r h = >>=-step (test item) _ h refl

  -- To keep the items that pass a test and then look for one is to look for one that passes both.
  pub keep-any :
      (f g : Option V → Result EvalError (Option Bool)) (items : List (Option V))
      → ((item : Option V) → Returns (f item))
      → ((item : Option V) → Returns (g item))
      → (keep_items f items >>= any_item g) ≡ any_item (and_test f g) items
  unfolding keep_items any_item
  keep-any f g [] hf hg = refl
  keep-any f g (item ∷ items) hf hg =
      let (a, ea) = hf item in
      let (b, eb) = hg item in
      let (ks, ek) = keep_items-Returns f items hf in
      let ih : any_item g ks ≡ any_item (and_test f g) items =
        ap (λ m. m >>= any_item g) (sym ek) ∙ keep-any f g items hf hg in
      let kept : keep_items f (item ∷ items) ≡ ok (if is_true a then item ∷ ks else ks) =
        >>=-step (f item) _ ea (>>=-step (keep_items f items) _ ek refl) in
      let tested : and_test f g item ≡ ok (and3 a b) =
        >>=-step (f item) _ ea (>>=-step (g item) _ eb refl) in
      >>=-step (keep_items f (item ∷ items)) (any_item g) kept (elim (Bool-cases (is_true a)) [
        | inl yes_ ↦
            ap (any_item g) (if_true _ _ yes_)
            ∙ any_item-step g item ks b eb
            ∙ ap (λ rest. if is_true b then ok (some true) else rest) ih
            ∙ ap (λ t. if t then ok (some true) else any_item (and_test f g) items)
                (sym (is_true-and3-true a b yes_))
            ∙ sym (any_item-step (and_test f g) item items (and3 a b) tested)
        | inr no_ ↦
            ap (any_item g) (if_false _ _ no_)
            ∙ ih
            ∙ sym (if_false _ _ (is_true-and3-false a b no_))
            ∙ sym (any_item-step (and_test f g) item items (and3 a b) tested)
      ])

  -- To look for an item that passes one of two tests is to look for one that passes the first, or the second.
  pub any-or :
      (f g : Test V) (items : List (Option V))
      → ((item : Option V) → Returns (f item))
      → ((item : Option V) → Returns (g item))
      → (x : Bool) × (y : Bool) × (any_item f items ≡ ok (some x))
        × (any_item g items ≡ ok (some y))
        × (any_item (or_test f g) items ≡ ok (some (x || y)))
  unfolding any_item
  any-or f g [] hf hg = (false, false, refl, refl, refl)
  any-or f g (item ∷ items) hf hg =
      let (a, ea) = hf item in
      let (b, eb) = hg item in
      let (x, y, ef, eg, eo) = any-or f g items hf hg in
      let tested : or_test f g item ≡ ok (or3 a b) =
        >>=-step (f item) _ ea (>>=-step (g item) _ eb refl) in
      (
        is_true a || x,
        is_true b || y,
        any_item-step f item items a ea ∙ if-or (is_true a) (any_item f items) x ef,
        any_item-step g item items b eb ∙ if-or (is_true b) (any_item g items) y eg,
        any_item-step (or_test f g) item items (or3 a b) tested
            ∙ if-or (is_true (or3 a b)) (any_item (or_test f g) items) (x || y) eo
            ∙ ap (λ t. ok (some (t || (x || y)))) (is_true-or3 a b)
            ∙ ap (λ t. ok (some t)) (or_swap (is_true a) (is_true b) x y),
      )
