-- ===== src/Slicer/Names.antt =====
-- The names of a projection (slicer.py): `_validate_names`.
use httk_store.Prelude.{
  String, ◌≡◌, ◌↔◌, refl, ap, Bool, true, false, Option, none, some, List, [], ◌∷◌, map, subst,
  contains, ok, >>=-eq-ok, ok-injective, Bool-cases, inl, inr, ◌≢◌,
}
use httk_store.Slicer.Index.{check_names, validate_names}

-- Identifiers, none of which is among the seen ones or stands twice.
abbrev pub IsDistinct : (String → Bool) → List String → List String → Type 0
IsDistinct isidentifier seen [] = Unit
IsDistinct isidentifier seen (n ∷ ns) =
    (isidentifier n ≡ true) × (contains n seen ≡ false) × IsDistinct isidentifier (n ∷ seen) ns

module _ (isidentifier : String → Bool) where
  check_names-ok :
      (seen ns : List String)
      → IsDistinct isidentifier seen ns
      → check_names isidentifier seen (map some ns) ≡ ok ns
  unfolding check_names
  check_names-ok seen [] d = refl
  check_names-ok seen (n ∷ ns) (i, f, d) = rw (i, f, check_names-ok (n ∷ seen) ns d)

  check_names→IsDistinct :
      (seen : List String) (names : List (Option String)) (ns : List String)
      → check_names isidentifier seen names ≡ ok ns
      → IsDistinct isidentifier seen ns × (names ≡ map some ns)
  unfolding check_names
  check_names→IsDistinct seen [] [] h = (tt, refl)
  check_names→IsDistinct seen [] (n ∷ ns) h = cc
  check_names→IsDistinct seen (none ∷ names) ns h = cc
  check_names→IsDistinct seen (some n ∷ names) ns h = elim (Bool-cases (isidentifier n)) [
    | inr bad ↦ absurd (cc (rw bad at h))
    | inl valid ↦ elim (Bool-cases (contains n seen)) [
      | inl twice ↦ absurd (cc (rw (valid, twice) at h))
      | inr fresh ↦
          let (rest, checked, whole) =
            >>=-eq-ok (check_names isidentifier (n ∷ seen) names) (λ ms. ok (n ∷ ms))
              (rw (valid, fresh) at h) in
          let (distinct, same) = check_names→IsDistinct (n ∷ seen) names rest checked in
          subst (λ ms. IsDistinct isidentifier seen ms × ((some n ∷ names) ≡ map some ms))
            (ok-injective whole) ((valid, fresh, distinct), ap (λ ms. some n ∷ ms) same)
    ]
  ]

  validate_names-ok :
      (ns : List String)
      → ns ≢ []
      → IsDistinct isidentifier [] ns
      → validate_names isidentifier (map some ns) ≡ ok ns
  unfolding validate_names
  validate_names-ok [] filled d = absurd (filled refl)
  validate_names-ok (n ∷ ns) filled d = check_names-ok [] (n ∷ ns) d

  not_empty :
      (n : Option String) (names : List (Option String)) (ns : List String)
      → (n ∷ names) ≡ map some ns
      → ns ≢ []
  not_empty n names [] e empty = cc e
  not_empty n names (m ∷ ns) e empty = cc empty

  validate_names→IsDistinct :
      (names : List (Option String)) (ns : List String)
      → validate_names isidentifier names ≡ ok ns
      → (ns ≢ []) × IsDistinct isidentifier [] ns × (names ≡ map some ns)
  unfolding validate_names
  validate_names→IsDistinct [] ns h = cc
  validate_names→IsDistinct (n ∷ names) ns h =
      let (distinct, same) = check_names→IsDistinct [] (n ∷ names) ns h in
      (not_empty n names ns same, distinct, same)

  -- A projection takes exactly the non-empty lists of identifiers without a duplicate, and takes
  -- them as they are.
  pub validate_names_exact :
      (names : List (Option String)) (ns : List String)
      → (validate_names isidentifier names ≡ ok ns)
        ↔ ((ns ≢ []) × IsDistinct isidentifier [] ns × (names ≡ map some ns))
  validate_names_exact names ns = (
    validate_names→IsDistinct names ns,
    λ (filled, distinct, same). rw same (validate_names-ok ns filled distinct),
  )
