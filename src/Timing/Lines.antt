-- ===== src/Timing/Lines.antt =====
-- How timing lines are classified and ordered. Digits and letters are those of ASCII.
use openlaps.Common.{
  ℕ, ◌+◌, ◌-◌, ◌*◌, Bool, true, false, ◌&&◌, ◌||◌, List, [], ◌∷◌, ◌++◌, leb, if◌then◌else◌, take,
  length,
}
use openlaps.Common.Text.{Text, codes, text_beq, lower}
use openlaps.Timing.{TimingLine, LineType, start_finish, sector, pit_entry, pit_exit, unknown}
use mathlib.Core.List.{reverse}

abbrev is_digit : ℕ → Bool
is_digit c = leb 48 c && leb c 57

-- The digits of the last number in a name, which is read from its end; `found` are those read so far.
unfoldable pub trailing_digits : Text → Text → Text
trailing_digits found [] = found
trailing_digits found (c ∷ cs) =
    let more = trailing_digits (c ∷ found) cs in
    let skip = trailing_digits found cs in
    if is_digit c then more else elim found [ [] ↦ skip | d ∷ ds ↦ d ∷ ds ]

abbrev int_of : ℕ → Text → ℕ
int_of n [] = n
int_of n (c ∷ cs) = int_of (10 * n + (c - 48)) cs

-- `_sector_num`: 0 if the name has no digit.
unfoldable pub sector_num : Text → ℕ
unfolding trailing_digits
sector_num name = int_of 0 (trailing_digits [] (reverse name))

-- `part in text`
unfoldable pub contains : Text → Text → Bool
contains part [] = text_beq part []
contains part (c ∷ cs) = text_beq part (take (length part) (c ∷ cs)) || contains part cs

unfoldable pub classify_line : Text → LineType
unfolding contains lower
classify_line name =
    let n = lower name in
    if contains (codes "start") n || contains (codes "finish") n
    then start_finish
    else if contains (codes "pit") n && contains (codes "entry") n
    then pit_entry
    else if contains (codes "pit") n && contains (codes "exit") n
    then pit_exit
    else if contains (codes "sector") n
    then sector
    else unknown

abbrev is_start_finish : LineType → Bool
is_start_finish start_finish = true
is_start_finish _ = false

abbrev is_sector : LineType → Bool
is_sector sector = true
is_sector _ = false

abbrev is_pit : LineType → Bool
is_pit pit_entry = true
is_pit pit_exit = true
is_pit _ = false

module _ {N : Type 0} where
  abbrev pub select : (LineType → Bool) → List (TimingLine N) → List (TimingLine N)
  select p [] = []
  select p (l ∷ ls) = let rest = select p ls in if p l.line_type then l ∷ rest else rest

  -- Python's sort is stable: a line goes before the first one with a larger number.
  abbrev pub insert_line : TimingLine N → List (TimingLine N) → List (TimingLine N)
  insert_line l [] = l ∷ []
  insert_line l (m ∷ ms) =
      if leb (sector_num l.name) (sector_num m.name) then l ∷ m ∷ ms else m ∷ insert_line l ms

  abbrev pub sort_lines : List (TimingLine N) → List (TimingLine N)
  sort_lines [] = []
  sort_lines (l ∷ ls) = insert_line l (sort_lines ls)

  -- `sf[:1] + sectors`
  unfoldable pub lap_points_of : List (TimingLine N) → List (TimingLine N)
  unfolding sector_num
  lap_points_of lines = take 1 (select is_start_finish lines) ++ sort_lines (select is_sector lines)

  unfoldable pub pit_lines_of : List (TimingLine N) → List (TimingLine N)
  pit_lines_of = select is_pit
