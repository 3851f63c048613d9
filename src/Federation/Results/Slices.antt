-- ===== src/Federation/Results/Slices.antt =====
-- `FederatedResultSet.__getitem__` (federated_store.py) against the slices of a list.
use httk_store.Prelude.{ℕ, ◌-◌, Option, none, some, List, take, drop}
use httk_store.Prelude.Dict.{Dict}

-- A list's slice, with bounds that are not negative.
abbrev pub slice_of {ℓ} : {A : Type ℓ} → ℕ → Option ℕ → List A → List A
slice_of start none xs = drop start xs
slice_of start (some stop) xs = take (stop - start) (drop start xs)
