-- ===== src/Entry/Completed.antt =====
-- daily_entry_status_service.py: what the operations do to a completed row.
use daily_figures.Common.{◌≡◌, Bool, false, Option, none, some, List, [], ◌∷◌}
use daily_figures.Entry.History.{Event, reopening, reset}
use daily_figures.Entry.{EntryStatus, EntryKey, same_key}

-- The events that open an entry again.
abbrev pub undoes : EntryKey → Event → Bool
undoes k (reopening now j actor reason) = same_key k j
undoes k (reset now j actor reason) = same_key k j
undoes k _ = false

abbrev pub NoneUndoes : EntryKey → List Event → Type 0
NoneUndoes k [] = Unit
NoneUndoes k (e ∷ es) = (undoes k e ≡ false) × NoneUndoes k es

abbrev or_row : EntryStatus → Option EntryStatus → EntryStatus
or_row row none = row
or_row row (some r) = r
