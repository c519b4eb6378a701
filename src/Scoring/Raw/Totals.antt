-- ===== src/Scoring/Raw/Totals.antt =====
-- What `aggregate` holds under each criterion, against a plain description of the totals.
use league_table.Prelude.{
  String, Option, none, some, List, [], ◌∷◌, ◌===◌, if◌then◌else◌, or_default,
}
use league_table.Number.{Number}
use league_table.Model.{Entry, Slot}
use league_table.Scoring.Raw.{empty_slot, add_to_slot}

module _ {W : Type 0} ⦃num : Number W⦄ where
  -- an entry's two numbers, where it has both
  abbrev pub recorded : Option W → Option W → Option (Slot W)
  recorded (some e) (some p) = some (record { earned = e; possible = p })
  recorded none _ = none
  recorded (some e) none = none

  abbrev pub onto_recorded : Option (Slot W) → List (Slot W) → List (Slot W)
  onto_recorded none xs = xs
  onto_recorded (some x) xs = x ∷ xs

  -- The numbers that are recorded for a criterion, in the order of the entries.
  abbrev pub recorded_for : String → List (Entry W) → List (Slot W)
  recorded_for key [] = []
  recorded_for key (e ∷ es) =
      let rest = recorded_for key es in
      if e.criterion_key === key then onto_recorded (recorded e.earned e.possible) rest else rest

  -- Their totals, added up from the left; nothing where nothing is recorded.
  abbrev pub total_of : Option (Slot W) → List (Slot W) → Option (Slot W)
  total_of start [] = start
  total_of start (x ∷ xs) =
      total_of (some (add_to_slot x.earned x.possible (or_default start empty_slot))) xs
