-- ===== src/Timing/Geometry.antt =====
-- The crossing of a GPS segment with a timing line. `cos_degrees` is `math.cos(math.radians(x))`.
use openlaps.Common.{◌^◌, Bool, ◌&&◌, Option, none, some, if◌then◌else◌}
use openlaps.Common.Number.{Number}
use openlaps.Timing.{GpsPoint, TimingLine, Sign, plus, minus}

-- What `_crossing` returns: the interpolated time, and the sign with the direction.
pub record Hit (N : Type 0) : Type 0 where
  pub ctime : N
  pub sign : Sign

module _ (number : Number) (cos_degrees : number.N → number.N) where
  open number use {N, of_ℕ, add, sub, mul, div, abs, lt_n, le_n}

  unfoldable pub to_meters : N → N → N → N → N × N
  to_meters lat lon ref_lat ref_lon = (
    mul (mul (sub lon ref_lon) (of_ℕ 111_320)) (cos_degrees ref_lat),
    mul (sub lat ref_lat) (of_ℕ 111_320),
  )

  abbrev within_one : N → Bool
  within_one t = le_n (of_ℕ 0) t && le_n t (of_ℕ 1)

  -- The fraction along the first segment and the cross product, where the segments cross.
  unfoldable pub segment_intersection : N × N → N × N → N × N → N × N → Option (N × N)
  segment_intersection (x1, y1) (x2, y2) (x3, y3) (x4, y4) =
      let denom = sub (mul (sub x2 x1) (sub y4 y3)) (mul (sub y2 y1) (sub x4 x3)) in
      let t = div (sub (mul (sub x3 x1) (sub y4 y3)) (mul (sub y3 y1) (sub x4 x3))) denom in
      let u = div (sub (mul (sub x3 x1) (sub y2 y1)) (mul (sub y3 y1) (sub x2 x1))) denom in
      let cross = sub (mul (sub x4 x3) (sub y2 y1)) (mul (sub y4 y3) (sub x2 x1)) in
      if lt_n (abs denom) (div (of_ℕ 1) (of_ℕ (10 ^ 12)))
      then none
      else if within_one t && within_one u
      then some (t, cross)
      else none

  unfoldable pub crossing : GpsPoint N → GpsPoint N → TimingLine N → Option (Hit N)
  unfolding to_meters segment_intersection
  crossing p1 p2 line =
      let rlat = line.start.lat in
      let rlon = line.start.lon in
      let hit =
        segment_intersection (to_meters p1.lat p1.lon rlat rlon) (to_meters p2.lat p2.lon rlat rlon)
          (to_meters line.start.lat line.start.lon rlat rlon)
          (to_meters line.stop.lat line.stop.lon rlat rlon) in
      elim hit [
        | none ↦ none
        | some (t, cross) ↦ some (record {
          ctime = add p1.timestamp (mul t (sub p2.timestamp p1.timestamp));
          sign = if le_n (of_ℕ 0) cross then plus else minus;
        })
      ]
