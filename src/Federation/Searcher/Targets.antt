-- ===== src/Federation/Searcher/Targets.antt =====
-- `FederatedTarget.__post_init__` (federated_store.py).
use httk_store.Prelude.{
  ◌≡◌, refl, ap, sym, ◌∙◌, String, Bool, true, false, Option, none, some, List, [], ◌∷◌, ok, err,
  contains, ◌==◌, ◌⊎◌, Bool-cases, inl, inr, if_true, if_false, if◌then◌else◌, eq_iff,
}
use httk_store.Prelude.Dict.{Dict, lookup}
use httk_store.Federation.Searcher.{
  empty_name, no_source_targets, keys, first_unknown, place, ordered, known_targets, make_target,
}

abbrev is_some {ℓ} : {A : Type ℓ} → Option A → Bool
is_some none = false
is_some (some a) = true

abbrev only : (String → Bool) → List String → List String
only test [] = []
only test (name ∷ names) =
    let others = only test names in if test name then name ∷ others else others

lookup-place_other {ℓ} :
    {A : Type ℓ} (m : Option A) (name k : String) (entries : Dict A)
    → (name == k) ≡ false
    → lookup k (place m name entries) ≡ lookup k entries
unfolding lookup
lookup-place_other none name k entries h = refl
lookup-place_other (some a) name k entries h = if_false _ _ h

lookup-place_self {ℓ} :
    {A : Type ℓ} (m : Option A) (name k : String) (entries : Dict A)
    → (name == k) ≡ true
    → (m ≡ none → lookup k entries ≡ none)
    → lookup k (place m name entries) ≡ m
unfolding lookup
lookup-place_self none name k entries h absent = absent refl
lookup-place_self (some a) name k entries h absent = if_true _ _ h

keys-place {ℓ} :
    {A : Type ℓ} (m : Option A) (name : String) (entries : Dict A)
    → keys (place m name entries) ≡ (if is_some m then name ∷ keys entries else keys entries)
keys-place none name entries = refl
keys-place (some a) name entries = refl

module _ {ℓ} {A : Type ℓ} (targets : Dict A) where
  keys-ordered :
      (known : List String)
      → keys (ordered known targets) ≡ only (λ name. is_some (lookup name targets)) known
  unfolding ordered
  keys-ordered [] = refl
  keys-ordered (name ∷ known) =
      keys-place (lookup name targets) name (ordered known targets)
      ∙ ap (λ names. if is_some (lookup name targets) then name ∷ names else names)
          (keys-ordered known)

  ordered-none :
      (known : List String) (k : String)
      → lookup k targets ≡ none
      → lookup k (ordered known targets) ≡ none
  unfolding ordered lookup
  ordered-none [] k h = refl
  ordered-none (name ∷ known) k h = elim (Bool-cases (name == k)) [
    | inr apart ↦
        lookup-place_other (lookup name targets) name k (ordered known targets) apart
        ∙ ordered-none known k h
    | inl same ↦
        let e : name ≡ k = (eq_iff name k).0 same in
        lookup-place_self (lookup name targets) name k (ordered known targets) same
          (λ a. ordered-none known k h)
        ∙ rw e h
  ]

  ordered-contains :
      (known : List String) (k : String)
      → contains k known ≡ true
      → lookup k (ordered known targets) ≡ lookup k targets
  unfolding ordered
  ordered-contains [] k h = cc
  ordered-contains (name ∷ known) k h = elim (Bool-cases (name == k)) [
    | inr apart ↦
        lookup-place_other (lookup name targets) name k (ordered known targets) apart
        ∙ ordered-contains known k (rw apart at h)
    | inl same ↦
        let e : name ≡ k = (eq_iff name k).0 same in
        lookup-place_self (lookup name targets) name k (ordered known targets) same
          (λ a. ordered-none known k (rw e at a))
        ∙ ap (λ n. lookup n targets) e
  ]

known-lookup {ℓ} :
    {A : Type ℓ} (known : List String) (targets : Dict A) (k : String)
    → first_unknown known targets ≡ none
    → (contains k known ≡ true) ⊎ (lookup k targets ≡ none)
unfolding lookup
known-lookup known [] k h = inr refl
known-lookup known ((name, a) ∷ entries) k h = elim (Bool-cases (contains name known)) [
  | inr foreign ↦ let e : some name ≡ none = sym (if_false _ _ foreign) ∙ h in cc
  | inl is_known ↦ elim (Bool-cases (name == k)) [
    | inl same ↦ let e : name ≡ k = (eq_iff name k).0 same in inl (rw e at is_known)
    | inr apart ↦ elim (known-lookup known entries k (sym (if_true _ _ is_known) ∙ h)) [
      | inl c ↦ inl c
      | inr c ↦ inr (if_false _ _ apart ∙ c)
    ]
  ]
]

known_targets_effect {ℓ} :
    {A : Type ℓ} (known : List String) (targets accepted : Dict A) (unknown : Option String)
    → first_unknown known targets ≡ unknown
    → known_targets unknown known targets ≡ ok accepted
    → ((k : String) → lookup k accepted ≡ lookup k targets)
      × (keys accepted ≡ only (λ source. is_some (lookup source targets)) known)
known_targets_effect known targets accepted (some name) u h = cc
known_targets_effect known targets accepted none u h =
    let e : ordered known targets ≡ accepted = cc h in
    (
      λ k. ap (lookup k) (sym e) ∙ elim (known-lookup known targets k u) [
        | inl c ↦ ordered-contains targets known k c
        | inr c ↦ ordered-none targets known k c ∙ sym c
      ],
      ap keys (sym e) ∙ keys-ordered targets known,
    )

-- A target that is accepted keeps each source's target, and its sources stand in the order of the store.
make_target_effect {ℓ} :
    {A : Type ℓ} (known : List String) (name : String) (targets accepted : Dict A)
    → make_target known name targets ≡ ok accepted
    → ((k : String) → lookup k accepted ≡ lookup k targets)
      × (keys accepted ≡ only (λ source. is_some (lookup source targets)) known)
unfolding make_target
make_target_effect known name [] accepted h = elim (Bool-cases (name == "")) [
  | inl empty ↦ let e : err empty_name ≡ ok accepted = sym (if_true _ _ empty) ∙ h in cc
  | inr named ↦ let e : err no_source_targets ≡ ok accepted = sym (if_false _ _ named) ∙ h in cc
]
make_target_effect known name (t ∷ ts) accepted h = elim (Bool-cases (name == "")) [
  | inl empty ↦ let e : err empty_name ≡ ok accepted = sym (if_true _ _ empty) ∙ h in cc
  | inr named ↦
      known_targets_effect known (t ∷ ts) accepted (first_unknown known (t ∷ ts)) refl
        (sym (if_false _ _ named) ∙ h)
]
