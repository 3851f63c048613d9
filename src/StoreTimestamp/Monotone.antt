-- ===== src/StoreTimestamp/Monotone.antt =====
-- The order of the timestamps that a process captures (store_timestamp.py).
use httk_store.Prelude.{
  ℕ, ◌≤◌, ◌≡◌, refl, ap, sym, Bool, false, Option, none, some, List, [], ◌∷◌, Result, ok, err,
  arith, subst,
}
use httk_store.StoreTimestamp.{
  ClockRegression, Readings, accept, retry, guarded, capture_store_timestamp, raised,
  advance_store_timestamp_mark,
}

-- A timestamp that is not below the mark, where there is one.
abbrev pub IsAbove : Option ℕ → ℕ → Type 0
IsAbove none t = Unit
IsAbove (some mark) t = mark ≤ t

-- The timestamp of a save, and the mark after it; a capture that raises leaves the mark.
abbrev pub stamp : Result ClockRegression ℕ → Option ℕ
stamp (ok t) = some t
stamp (err e) = none

unfoldable pub mark_after : Option ℕ → Result ClockRegression ℕ → Option ℕ
mark_after mark (ok t) = advance_store_timestamp_mark false mark (some t)
mark_after mark (err e) = mark

-- The saves of one process, one after another: each captures a timestamp and advances the mark.
unfoldable pub saves : Bool → ℕ → Option ℕ → List Readings → List (Option ℕ)
saves grace resolution mark [] = []
saves grace resolution mark (c ∷ cs) =
    let r = capture_store_timestamp false grace resolution mark c in
    stamp r ∷ saves grace resolution (mark_after mark r) cs

-- The timestamps never fall, whatever the clock reads.
abbrev pub IsRising : Option ℕ → List (Option ℕ) → Type 0
IsRising mark [] = Unit
IsRising mark (none ∷ ts) = IsRising mark ts
IsRising mark (some t ∷ ts) = IsAbove mark t × IsRising (some t) ts

-- A guarded capture that returns gives a timestamp that is not below the mark.
pub capture_store_timestamp-IsAbove :
    (grace : Bool) (resolution : ℕ) (mark : Option ℕ) (c : Readings) (t : ℕ)
    → capture_store_timestamp false grace resolution mark c ≡ ok t
    → IsAbove mark t
unfolding capture_store_timestamp guarded retry accept
capture_store_timestamp-IsAbove grace resolution none c t h = tt
capture_store_timestamp-IsAbove grace resolution (some mark) c t h = ground (arith, h)

raised_above : (mark : Option ℕ) (t : ℕ) → IsAbove mark t → raised mark t ≡ some t
unfolding raised
raised_above none t h = refl
raised_above (some mark) t h = ap some (omega (arith, h))

-- Over any series of saves of one process, whatever the clock reads at each, the timestamps that
-- are handed out never fall, and none is below the mark at the start.
pub saves-IsRising :
    (grace : Bool) (resolution : ℕ) (mark : Option ℕ) (cs : List Readings)
    → IsRising mark (saves grace resolution mark cs)
unfolding saves mark_after advance_store_timestamp_mark
saves-IsRising grace resolution mark [] = tt
saves-IsRising grace resolution mark (c ∷ cs) =
    go (λ m. saves-IsRising grace resolution m cs)
      (capture_store_timestamp false grace resolution mark c) refl
  where
    go :
        ((m : Option ℕ) → IsRising m (saves grace resolution m cs))
        → (r : Result ClockRegression ℕ) → capture_store_timestamp false grace resolution mark c ≡ r
        → IsRising mark (stamp r ∷ saves grace resolution (mark_after mark r) cs)
    go later (err e) h = later mark
    go later (ok t) h =
        let above = capture_store_timestamp-IsAbove grace resolution mark c t h in
        (
          above,
          subst (λ m. IsRising (some t) (saves grace resolution m cs))
              (sym (raised_above mark t above)) (later (some t)),
        )
