-- ===== src/Federation/Window.antt =====
-- An offset and a limit on a list, as paging cuts it.
use httk_store.Prelude.{
  ℕ, zero, suc, ◌+◌, ◌-◌, ◌≤◌, ◌≡◌, refl, ap, sym, ◌∙◌, Option, none, some, List, [], ◌∷◌, ◌++◌,
  map, arith, length, take, drop, All, min, true, false,
}
use httk_store.Federation.Execute.{reached, pushed_limit}

-- At most so many elements.
abbrev pub cut {ℓ} : {A : Type ℓ} → Option ℕ → List A → List A
cut none xs = xs
cut (some n) xs = take n xs

abbrev pub window {ℓ} : {A : Type ℓ} → ℕ → Option ℕ → List A → List A
window offset limit xs = cut limit (drop offset xs)

-- What is left of a limit after some elements.
abbrev pub left : Option ℕ → ℕ → Option ℕ
left none used = none
left (some n) used = some (n - used)

pub left-zero : (limit : Option ℕ) → left limit 0 ≡ limit
left-zero none = refl
left-zero (some n) = ap some (omega arith)

pub left-left : (limit : Option ℕ) (a b : ℕ) → left (left limit a) b ≡ left limit (a + b)
left-left none a b = refl
left-left (some n) a b = ap some (omega arith)

module _ {ℓ} {A : Type ℓ} where
  pub cut-nil : (limit : Option ℕ) → cut {A = A} limit [] ≡ []
  cut-nil none = refl
  cut-nil (some zero) = refl
  cut-nil (some (suc n)) = refl

  pub drop-nil : (n : ℕ) → drop {A = A} n [] ≡ []
  drop-nil zero = refl
  drop-nil (suc n) = refl

  pub drop-suc : (n k : ℕ) (x : A) (xs : List A) → n ≡ suc k → drop n (x ∷ xs) ≡ drop k xs
  drop-suc n k x xs h = rw h refl

  pub drop-none : (n : ℕ) (xs : List A) → n ≡ 0 → drop n xs ≡ xs
  drop-none n xs h = rw h refl

  -- One element enters a window whose limit is not reached.
  pub cut-cons :
      (limit : Option ℕ) (used : ℕ) (x : A) (xs : List A)
      → reached limit used ≡ false
      → cut (left limit used) (x ∷ xs) ≡ x ∷ cut (left limit (suc used)) xs
  unfolding reached
  cut-cons none used x xs h = refl
  cut-cons (some n) used x xs h =
      let e : n - used ≡ suc (n - suc used) = ground (arith, h) in ap (λ k. take k (x ∷ xs)) e

  -- It is the last one where the limit is then reached.
  pub cut-last :
      (limit : Option ℕ) (used : ℕ) (x : A) (xs : List A)
      → reached limit used ≡ false
      → reached limit (suc used) ≡ true
      → cut (left limit used) (x ∷ xs) ≡ x ∷ []
  unfolding reached
  cut-last none used x xs h k = cc
  cut-last (some n) used x xs h k =
      let e : n - used ≡ suc 0 = ground (arith, h, k) in ap (λ m. take m (x ∷ xs)) e

  take-append :
      (n : ℕ) (xs ys : List A) → take n (xs ++ ys) ≡ take n xs ++ take (n - length (take n xs)) ys
  take-append zero xs ys = refl
  take-append (suc n) [] ys = let e : suc n ≡ suc n - 0 = omega arith in ap (λ k. take k ys) e
  take-append (suc n) (x ∷ xs) ys =
      let e : n - length (take n xs) ≡ suc n - length (x ∷ take n xs) = omega arith in
      ap (λ t. x ∷ t) (take-append n xs ys ∙ ap (λ k. take n xs ++ take k ys) e)

  cut-append :
      (limit : Option ℕ) (xs ys : List A)
      → cut limit (xs ++ ys) ≡ cut limit xs ++ cut (left limit (length (cut limit xs))) ys
  cut-append none xs ys = refl
  cut-append (some n) xs ys = take-append n xs ys

  pub drop-append :
      (n : ℕ) (xs ys : List A) → drop n (xs ++ ys) ≡ drop n xs ++ drop (n - length xs) ys
  drop-append zero xs ys = let e : 0 ≡ 0 - length xs = omega arith in ap (λ k. xs ++ drop k ys) e
  drop-append (suc n) [] ys = let e : suc n ≡ suc n - 0 = omega arith in ap (λ k. drop k ys) e
  drop-append (suc n) (x ∷ xs) ys =
      let e : n - length xs ≡ suc n - length (x ∷ xs) = omega arith in
      drop-append n xs ys ∙ ap (λ k. drop n xs ++ drop k ys) e

  -- A window over two lists is one over the first, and what it leaves over the second.
  pub window-append :
      (offset : ℕ) (limit : Option ℕ) (xs ys : List A)
      → window offset limit (xs ++ ys)
        ≡ window offset limit xs
          ++ window (offset - length xs) (left limit (length (window offset limit xs))) ys
  window-append offset limit xs ys =
      ap (cut limit) (drop-append offset xs ys)
      ∙ cut-append limit (drop offset xs) (drop (offset - length xs) ys)

  take-drop-take :
      (n k m : ℕ) (xs : List A) → n + k ≤ m → take n (drop k (take m xs)) ≡ take n (drop k xs)
  take-drop-take zero k m xs h = refl
  take-drop-take (suc n) zero zero xs h = absurd (omega (arith, h))
  take-drop-take (suc n) zero (suc m) [] h = refl
  take-drop-take (suc n) zero (suc m) (x ∷ xs) h =
      ap (λ t. x ∷ t) (take-drop-take n zero m xs (omega (arith, h)))
  take-drop-take (suc n) (suc k) zero xs h = absurd (omega (arith, h))
  take-drop-take (suc n) (suc k) (suc m) [] h = refl
  take-drop-take (suc n) (suc k) (suc m) (x ∷ xs) h =
      take-drop-take (suc n) k m xs (omega (arith, h))

  pub length-take : (n : ℕ) (xs : List A) → length (take n xs) ≡ min n (length xs)
  length-take zero xs = omega arith
  length-take (suc n) [] = omega arith
  length-take (suc n) (x ∷ xs) = omega (arith, length-take n xs)

  pub length-drop : (n : ℕ) (xs : List A) → length (drop n xs) ≡ length xs - n
  length-drop zero xs = omega arith
  length-drop (suc n) [] = omega arith
  length-drop (suc n) (x ∷ xs) = omega (arith, length-drop n xs)

  pub drop-drop : (a b : ℕ) (xs : List A) → drop b (drop a xs) ≡ drop (a + b) xs
  drop-drop zero b xs = let e : b ≡ 0 + b = omega arith in ap (λ k. drop k xs) e
  drop-drop (suc a) b [] = drop-nil b ∙ sym (drop-nil (suc a + b))
  drop-drop (suc a) b (x ∷ xs) =
      drop-drop a b xs ∙ sym (drop-suc (suc a + b) (a + b) x xs (omega arith))

  pub drop-take : (a n : ℕ) (xs : List A) → drop a (take n xs) ≡ take (n - a) (drop a xs)
  drop-take zero n xs = let e : n ≡ n - 0 = omega arith in ap (λ k. take k xs) e
  drop-take (suc a) zero xs =
      let e : 0 ≡ 0 - suc a = omega arith in ap (λ k. take k (drop (suc a) xs)) e
  drop-take (suc a) (suc n) [] = sym (cut-nil (some (suc n - suc a)))
  drop-take (suc a) (suc n) (x ∷ xs) =
      let e : n - a ≡ suc n - suc a = omega arith in
      drop-take a n xs ∙ ap (λ k. take k (drop a xs)) e

  pub take-take : (m n : ℕ) (xs : List A) → take m (take n xs) ≡ take (min n m) xs
  take-take zero n xs = let e : 0 ≡ min n 0 = omega arith in ap (λ k. take k xs) e
  take-take (suc m) zero xs = let e : 0 ≡ min 0 (suc m) = omega arith in ap (λ k. take k xs) e
  take-take (suc m) (suc n) [] = sym (cut-nil (some (min (suc n) (suc m))))
  take-take (suc m) (suc n) (x ∷ xs) =
      let e : suc (min n m) ≡ min (suc n) (suc m) = omega arith in
      ap (λ t. x ∷ t) (take-take m n xs) ∙ ap (λ k. take k (x ∷ xs)) e

  pub All-cut {κ} :
      (P : A → Type κ) (limit : Option ℕ) (xs : List A) → All P xs → All P (cut limit xs)
  All-cut P none xs h = h
  All-cut P (some zero) xs h = tt
  All-cut P (some (suc n)) [] h = tt
  All-cut P (some (suc n)) (x ∷ xs) (h, hs) = (h, All-cut P (some n) xs hs)

  -- A window of a run is not changed by a limit that was pushed down to its source.
  pub window-pushed :
      (offset : ℕ) (limit : Option ℕ) (skipped used : ℕ) (xs : List A)
      → window (offset - skipped) (left limit used) (cut (pushed_limit offset limit) xs)
        ≡ window (offset - skipped) (left limit used) xs
  window-pushed offset none skipped used xs = refl
  window-pushed offset (some n) skipped used xs =
      take-drop-take (n - used) (offset - skipped) (offset + n) xs (omega arith)

  -- Nor is the number of elements that are left to skip.
  pub length-pushed :
      (offset : ℕ) (limit : Option ℕ) (skipped : ℕ) (xs : List A)
      → offset - skipped - length (cut (pushed_limit offset limit) xs)
        ≡ offset - skipped - length xs
  length-pushed offset none skipped xs = refl
  length-pushed offset (some n) skipped xs = omega (arith, length-take (offset + n) xs)

pub map-cut {ℓ κ} :
    {A : Type ℓ} {B : Type κ} (f : A → B) (limit : Option ℕ) (xs : List A)
    → map f (cut limit xs) ≡ cut limit (map f xs)
map-cut f none xs = refl
map-cut f (some zero) xs = refl
map-cut f (some (suc n)) [] = refl
map-cut f (some (suc n)) (x ∷ xs) = ap (λ t. f x ∷ t) (map-cut f (some n) xs)

pub length-map {ℓ κ} :
    {A : Type ℓ} {B : Type κ} (f : A → B) (xs : List A) → length (map f xs) ≡ length xs
length-map f [] = refl
length-map f (x ∷ xs) = ap suc (length-map f xs)
