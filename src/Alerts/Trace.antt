-- ===== src/Alerts/Trace.antt =====
-- What a listener to the events of one alert may conclude.
use openlaps.Common.{
  ℕ, suc, zero, ◌≡◌, ◌∙◌, refl, ap, String, Bool, true, false, Option, none, some, List, [], ◌∷◌,
  ◌++◌, drop, if◌then◌else◌, ◌==◌, string_eq, Option-cases, inl, inr,
}
use openlaps.Alerts.{Event, Kind, fired, ended, repeated, acked, tested, remember_one, remember_all}

-- An alert fires when it is off, ends and is acknowledged when it is on.
abbrev pub kind_step : Kind → Bool → Option Bool
kind_step fired on = if on then none else some true
kind_step ended on = if on then some false else none
kind_step acked on = if on then some true else none
kind_step repeated on = some on
kind_step tested on = some on

abbrev pub event_step : String → Bool → Event → Option Bool
event_step fingerprint on event =
    if event.alert.fingerprint == fingerprint then kind_step event.kind on else some on

abbrev pub after : {A B : Type 0} → Option A → (A → Option B) → Option B
after none f = none
after (some a) f = f a

-- Whether the alert is on after the events, which may come in this order.
unfoldable pub follow : String → Bool → List Event → Option Bool
follow fingerprint on [] = some on
follow fingerprint on (event ∷ events) =
    after (event_step fingerprint on event) (λ on'. follow fingerprint on' events)

pub follow-append :
    (fp : String) (on : Bool) (es fs : List Event)
    → follow fp on (es ++ fs) ≡ after (follow fp on es) (λ on'. follow fp on' fs)
unfolding follow
follow-append fp on [] fs = refl
follow-append fp on (e ∷ es) fs = elim (Option-cases (event_step fp on e)) [
  | inl h ↦ rw h
  | inr (on', h) ↦ rw h (follow-append fp on' es fs)
]

-- The events end with the alert in the state `off_or_on`, from some state at their start.
abbrev pub EndsIn : String → List Event → Bool → Type 0
EndsIn fp es on = (start : Bool) × (follow fp start es ≡ some on)

EndsIn-tail :
    (fp : String) (e : Event) (es : List Event) (on : Bool)
    → EndsIn fp (e ∷ es) on
    → EndsIn fp es on
unfolding follow
EndsIn-tail fp e es on (start, h) = elim (Option-cases (event_step fp start e)) [
  | inl q ↦ absurd (let k : none ≡ some on = rw q at h in cc k)
  | inr (start', q) ↦ (start', rw q at h)
]

EndsIn-drop :
    (fp : String) (n : ℕ) (es : List Event) (on : Bool) → EndsIn fp es on → EndsIn fp (drop n es) on
EndsIn-drop fp zero es on h = h
EndsIn-drop fp (suc n) [] on h = h
EndsIn-drop fp (suc n) (e ∷ es) on h = EndsIn-drop fp n es on (EndsIn-tail fp e es on h)

EndsIn-append :
    (fp : String) (es fs : List Event) (on on' : Bool)
    → EndsIn fp es on
    → follow fp on fs ≡ some on'
    → EndsIn fp (es ++ fs) on'
EndsIn-append fp es fs on on' (start, h) g =
    (start, follow-append fp start es fs ∙ ap (λ o. after o (λ b. follow fp b fs)) h ∙ g)

pub remember_all-EndsIn :
    (fp : String) (n : ℕ) (history es : List Event) (on on' : Bool)
    → EndsIn fp history on
    → follow fp on es ≡ some on'
    → EndsIn fp (remember_all n history es) on'
unfolding remember_all remember_one follow
remember_all-EndsIn fp n history [] on on' (start, h) g = (start, h ∙ g)
remember_all-EndsIn fp n history (e ∷ es) on on' h g = elim (Option-cases (event_step fp on e)) [
  | inl q ↦ absurd (let k : none ≡ some on' = rw q at g in cc k)
  | inr (next, q) ↦
      let g' : follow fp next es ≡ some on' = rw q at g in
      remember_all-EndsIn fp n (remember_one n history e) es next on'
        (EndsIn-drop fp _ (history ++ e ∷ []) next
          (EndsIn-append fp history (e ∷ []) on next h (rw q)))
        g'
]
