-- ===== src/Modes/Render.antt =====
-- components/modes/render.cpp, the frames: from a time or a countdown value to five ring indices. A
-- frame is the list of them. The managers call the renderers with no place for the diagnostic, so a
-- renderer gives the frame alone.
use lost_swan_firmware.Common.{
  ℕ, zero, suc, ◌/◌, ◌%◌, Bool, true, false, leb, ◌==◌, if◌then◌else◌, List, [], ◌∷◌, get_elem?,
}
use lost_swan_firmware.Common.Int.{pos_part}
use lost_swan_firmware.Ring.{Role, RingSet, index_for_role}
use lost_swan_firmware.Tz.Zone.{LocalTime}

-- One column, searched forward from where it stands in `from`.
unfoldable pub at : RingSet → List ℕ → ℕ → Role → ℕ → ℕ
at ring from c r d = (index_for_role ring c r d (get_elem? from c)).0

unfoldable pub render_blank : RingSet → List ℕ → List ℕ
render_blank ring from =
    at ring from 0 Role.blank 0
    ∷ at ring from 1 Role.blank 0
    ∷ at ring from 2 Role.blank 0
    ∷ at ring from 3 Role.blank 0
    ∷ at ring from 4 Role.blank 0
    ∷ []

abbrev pub set_idx : List ℕ → ℕ → ℕ → List ℕ
set_idx [] c v = []
set_idx (x ∷ xs) zero v = v ∷ xs
set_idx (x ∷ xs) (suc c) v = x ∷ set_idx xs c v

-- The centre column is column 2.
unfoldable pub render_wifi : RingSet → List ℕ → List ℕ
unfolding render_blank
render_wifi ring from = set_idx (render_blank ring from) 2 (at ring from 2 Role.wifi 0)

unfoldable pub render_qmarks : RingSet → List ℕ → List ℕ
render_qmarks ring from =
    at ring from 0 Role.question 0
    ∷ at ring from 1 Role.question 0
    ∷ at ring from 2 Role.question 0
    ∷ at ring from 3 Role.question 0
    ∷ at ring from 4 Role.question 0
    ∷ []

-- The hour on the drums of a twelve-hour clock.
unfoldable pub hour12 : ℕ → ℕ
hour12 hour = if hour % 12 == 0 then 12 else hour % 12

unfoldable pub hour_columns : RingSet → List ℕ → ℕ → Bool → List ℕ → List ℕ
unfolding hour12
hour_columns ring from hour true rest =
    at ring from 0 Role.blank 0
    ∷ at ring from 1 Role.digit (hour / 10)
    ∷ at ring from 2 Role.digit (hour % 10)
    ∷ rest
hour_columns ring from hour false rest =
    at ring from 0 (if leb 12 hour then Role.pm else Role.am) 0
    ∷ (if leb 10 (hour12 hour) then at ring from 1 Role.digit 1 else at ring from 1 Role.blank 0)
    ∷ at ring from 2 Role.digit (hour12 hour % 10)
    ∷ rest

-- The fields of a local time are never negative.
unfoldable pub render_clock : RingSet → LocalTime → Bool → List ℕ → List ℕ
unfolding hour_columns
render_clock ring lt h24 from =
    let minute = pos_part lt.minute in
    hour_columns ring from (pos_part lt.hour) h24
      (at ring from 3 Role.digit (minute / 10) ∷ at ring from 4 Role.digit (minute % 10) ∷ [])

-- `shown_s` is never negative here.
unfoldable pub render_countdown : RingSet → ℕ → List ℕ → List ℕ
render_countdown ring shown_s from =
    let minutes = shown_s / 60 in
    let secs = shown_s % 60 in
    at ring from 0 Role.digit (minutes / 100 % 10)
    ∷ at ring from 1 Role.digit (minutes / 10 % 10)
    ∷ at ring from 2 Role.digit (minutes % 10)
    ∷ at ring from 3 Role.digit (secs / 10)
    ∷ at ring from 4 Role.digit (secs % 10)
    ∷ []
