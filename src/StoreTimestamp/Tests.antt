-- ===== src/StoreTimestamp/Tests.antt =====
-- Saves with a clock that falls behind (store_timestamp.py).
use httk_store.Prelude.{◌≡◌, refl, true, false, none, some, [], ◌∷◌, ok}
use httk_store.StoreTimestamp.{
  Readings, capture_store_timestamp, guarded, advance_store_timestamp_mark, raised,
}
use httk_store.StoreTimestamp.Monotone.{
  IsAbove, IsRising, saves, mark_after, capture_store_timestamp-IsAbove, saves-IsRising,
}

abbrev on_time : Readings
on_time = record { first = 7000; later = 7000 }

abbrev behind : Readings
behind = record { first = 2000; later = 8000 }

abbrev lost : Readings
lost = record { first = 2000; later = 2001 }

capture_runs : capture_store_timestamp false true 1000 (some 7) behind ≡ ok 8
unfolding capture_store_timestamp guarded
capture_runs = refl

capture_store_timestamp-IsAbove_example : IsAbove (some 7) 8
capture_store_timestamp-IsAbove_example =
    capture_store_timestamp-IsAbove true 1000 (some 7) behind 8 capture_runs

saves_run : saves true 1000 none (on_time ∷ lost ∷ behind ∷ []) ≡ some 7 ∷ none ∷ some 8 ∷ []
unfolding saves mark_after capture_store_timestamp guarded advance_store_timestamp_mark raised
saves_run = refl

saves-IsRising_example : IsRising none (saves true 1000 none (on_time ∷ lost ∷ behind ∷ []))
saves-IsRising_example = saves-IsRising true 1000 none (on_time ∷ lost ∷ behind ∷ [])
