-- ===== src/Watch/Engine/Present.antt =====
-- src/pit/watch/engine.py (WatchEngine.tick): what the monitors read is there when they read it.
use openlaps.Common.{
  ◌≡◌, ◌≢◌, refl, String, Bool, true, false, ◌&&◌, Option, none, some, List, [], ◌∷◌, All,
  string_eq,
}
use openlaps.Common.Dict.{Dict, lookup}
use openlaps.Common.Json.{Json}
use openlaps.Common.Number.{Number}
use openlaps.Common.Result.{err}
use openlaps.Watch.{key_error, Reading, Maths}
use openlaps.Watch.Engine.{
  Monitor, WatchEngine, channels, is_fresh, all_fresh, is_valid, tick_monitor, tick_all, tick,
  not_after,
}
use openlaps.Watch.Engine.Keys.{
  NoKeyError, ok-NoKeyError, >>=-NoKeyError, if-NoKeyError, Present, evaluate_monitor-NoKeyError,
}

and_split : (a b : Bool) → (a && b) ≡ true → (a ≡ true) × (b ≡ true)
and_split true b h = (refl, h)
and_split false b h = absurd (cc h)

module _ (number : Number) (maths : Maths number.N) (truth : Json number.N → Bool) where
  open number use {N}

  is_fresh-Present :
      (e : WatchEngine N) (at : N) (c : String) (o : Option (Reading N))
      → lookup c e.readings ≡ o
      → is_fresh number maths truth e at o ≡ true
      → Present e.readings c
  is_fresh-Present e at c (some r) q h = (r, q)
  is_fresh-Present e at c none q h = absurd (cc h)

  all_fresh-Present :
      (e : WatchEngine N) (at : N) (cs : List String)
      → all_fresh number maths truth e at cs ≡ true
      → All (Present e.readings) cs
  unfolding all_fresh
  all_fresh-Present e at [] h = tt
  all_fresh-Present e at (c ∷ cs) h =
      let (one, rest) = and_split _ _ h in
      (is_fresh-Present e at c (lookup c e.readings) refl one, all_fresh-Present e at cs rest)

  is_valid-Present :
      (e : WatchEngine N) (at : N) (active : Bool) (cs : List String)
      → is_valid number maths truth e at active cs ≡ true
      → All (Present e.readings) cs
  unfolding is_valid
  is_valid-Present e at active cs h =
      (all_fresh-Present e at ("car.rpm" ∷ cs)
        (and_split _ _ (and_split _ _ (and_split _ _ h).0).0).1).1

  tick_monitor-NoKeyError :
      (e : WatchEngine N) (at : N) (active : Bool) (m : Monitor N) (uid : String)
      → NoKeyError (tick_monitor number maths truth e at active m uid)
  unfolding tick_monitor
  tick_monitor-NoKeyError e at active m uid =
      >>=-NoKeyError _ _
        (evaluate_monitor-NoKeyError number maths e.readings truth m at
          (is_valid number maths truth e at active (channels m)) uid
          (is_valid-Present e at active (channels m)))
        (λ p. ok-NoKeyError _)

  tick_all-NoKeyError :
      (e : WatchEngine N) (at : N) (active : Bool) (uid : String → String)
      (monitors : Dict String (Monitor N))
      → NoKeyError (tick_all number maths truth e at active uid monitors)
  unfolding tick_all
  tick_all-NoKeyError e at active uid [] = ok-NoKeyError _
  tick_all-NoKeyError e at active uid ((name, m) ∷ monitors) =
      >>=-NoKeyError (tick_monitor number maths truth e at active m (uid name)) _
        (tick_monitor-NoKeyError e at active m (uid name))
        (λ p.
          >>=-NoKeyError (tick_all number maths truth e at active uid monitors) _
            (tick_all-NoKeyError e at active uid monitors) (λ rest. ok-NoKeyError _))

  -- A tick raises no `KeyError`, whatever has been observed and whichever of these kinds the monitors are: a
  -- monitor reads the channels only when the engine has found them all.
  pub tick-NoKeyError :
      (e : WatchEngine N) (at : N) (active : Bool) (uid : String → String) (c : String)
      → tick number maths truth e at active uid ≢ err (key_error c)
  unfolding tick
  tick-NoKeyError e at active uid =
      if-NoKeyError (not_after number maths truth e.last_tick at) _ _ (ok-NoKeyError _) (
        >>=-NoKeyError _ _
          (tick_all-NoKeyError (record e { last_tick = some at }) at active uid e.monitors)
          (λ p. ok-NoKeyError _))
