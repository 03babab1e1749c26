-- ===== src/Tests/Statuses.antt =====
-- The theorems on the status lists at concrete inputs.
use updater.Common.{◌≡◌, refl, ◌↔◌, true, false, List, [], ◌∷◌, In, Text, codes, text_functions}
use updater.Status.{update_snapshot, next_snapshot}
use updater.Status.Order.{IsAscending}
use updater.Status.Members.{Updated, update_snapshot-In}
use updater.Status.Race.{
  Cell, System, Reach, here, onward, start, replay, update, begin, load, swap, return_early,
  loading, swapping, idle, IsActive, Reach-snapshot,
}

abbrev a : Text
a = codes "a"

abbrev two_ids : List Text
two_ids = codes "a" ∷ codes "c" ∷ []

two_ids-IsAscending : IsAscending two_ids
unfolding text_functions
two_ids-IsAscending = ((refl, tt), (tt, tt))

update_snapshot-In_example :
    In (codes "c") (update_snapshot (codes "b") true two_ids)
    ↔ Updated (codes "b") true two_ids (codes "c")
update_snapshot-In_example =
    update_snapshot-In (codes "b") true two_ids (codes "c") two_ids-IsAscending

-- Call 0 adds the ID, call 1 adds it as well, and call 2 removes it.
abbrev cell_0 : Cell
cell_0 = start.cell

abbrev cell_1 : Cell
cell_1 = record { version = 1; ids = a ∷ [] }

abbrev s1 : System
s1 = record start { calls = update start.calls 0 (loading a true) }

abbrev s2 : System
s2 = record s1 { calls = update s1.calls 0 (swapping a true cell_0 (a ∷ [])) }

abbrev s3 : System
s3 = record { cell = cell_1; calls = update s2.calls 0 idle; log = (a, true) ∷ [] }

abbrev s4 : System
s4 = record s3 { calls = update s3.calls 1 (loading a true) }

abbrev s5 : System
s5 = record s4 { calls = update s4.calls 1 idle; log = (a, true) ∷ s4.log }

abbrev s6 : System
s6 = record s5 { calls = update s5.calls 2 (loading a false) }

abbrev s7 : System
s7 = record s6 { calls = update s6.calls 2 (swapping a false cell_1 []) }

abbrev s8 : System
s8 = record {
  cell = record { version = 2; ids = [] };
  calls = update s7.calls 2 idle;
  log = (a, false) ∷ s7.log;
}

Reach-s8 : Reach start s8
unfolding next_snapshot text_functions
Reach-s8 =
    onward {t = s7}
      (onward {t = s6}
        (onward {t = s5}
          (onward {t = s4}
            (onward {t = s3}
              (onward {t = s2}
                (onward {t = s1} (onward {t = start} here (begin 0 a true refl))
                  (load 0 a true (a ∷ []) refl refl))
                (swap 0 a true cell_0 (a ∷ []) refl refl))
              (begin 1 a true refl))
            (return_early 1 a true refl refl))
          (begin 2 a false refl))
        (load 2 a false [] refl refl))
      (swap 2 a false cell_1 [] refl refl)

Reach-snapshot_example :
    (s8.cell.ids ≡ replay s8.log) × IsAscending s8.cell.ids × (In a s8.cell.ids ↔ IsActive a s8.log)
Reach-snapshot_example = Reach-snapshot s8 a Reach-s8
