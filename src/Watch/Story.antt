-- ===== src/Watch/Story.antt =====
-- What the rows of one monitor may say of its findings, one after the other.
use openlaps.Common.{
  ◌≡◌, ◌≢◌, ◌↔◌, refl, Bool, true, false, Option, none, some, List, [], ◌∷◌, ◌⊎◌, inl, inr, String,
  Bool-cases,
}
use openlaps.Common.Number.{Number}
use openlaps.Watch.{Finding, Summary, touch, opened, transition}

module _ (number : Number) where
  open number use {N, le_n}

  -- The finding is another with a later peak and its summary, or the same.
  pub record Grows (g f : Finding N) : Type 0 where
    pub same_id : f.finding_id ≡ g.finding_id
    pub same_start : f.opened_at ≡ g.opened_at
    pub same_severity : f.severity ≡ g.severity
    pub same_end : f.closed_at ≡ g.closed_at
    pub peak : (f.peak_score ≡ g.peak_score) ⊎ (le_n g.peak_score f.peak_score ≡ true)

  -- The finding before a row, the row's, and the finding after it.
  pub data Shows : Option (Finding N) → Option (Finding N) → Option (Finding N) → Type 0 where
    silent : {f : Option (Finding N)} → Shows f none f
    opens : {f : Finding N} → f.closed_at ≡ none → Shows none (some f) (some f)
    updates : {g f : Finding N} → Grows g f → Shows (some g) (some f) (some f)
    closes :
        {f h : Finding N} (at : N)
        → h ≡ record f { closed_at = some at }
        → Shows (some f) (some h) none

  -- The rows of a run: a finding is opened only where none is, updates are of the one that is open, and it is
  -- closed once.
  pub data Story
      : Option (Finding N) → List (Option (Finding N)) → Option (Finding N) → Type 0 where
    over : {f : Option (Finding N)} → Story f [] f
    next :
        {f g h : Option (Finding N)} {shown : Option (Finding N)} {rest : List (Option (Finding N))}
        → Shows f shown g
        → Story g rest h
        → Story f (shown ∷ rest) h

  touch-Grows :
      (score : N) (summary : Summary N) (f : Finding N) → Grows f (touch number score summary f)
  touch-Grows score summary f = elim (Bool-cases (le_n f.peak_score score)) [
    | inl e ↦ rw e (record {
      same_id = refl;
      same_start = refl;
      same_severity = refl;
      same_end = refl;
      peak = inr e;
    })
    | inr e ↦ rw e (record {
      same_id = refl;
      same_start = refl;
      same_severity = refl;
      same_end = refl;
      peak = inl refl;
    })
  ]

  pub transition-Shows :
      (f : Option (Finding N)) (at : N) (open_now : Bool) (score : N) (summary : Summary N)
      (severity uid : String)
      → Shows f
          (transition number f at open_now score summary severity uid).1
          (transition number f at open_now score summary severity uid).0
  unfolding transition
  transition-Shows none at true score summary severity uid =
      opens ((touch-Grows score summary (opened number at score summary severity uid)).same_end)
  transition-Shows (some f) at true score summary severity uid =
      updates (touch-Grows score summary f)
  transition-Shows (some f) at false score summary severity uid = closes at refl
  transition-Shows none at false score summary severity uid = silent

  -- A finding is open after a second just if that second keeps it open.
  pub transition-open :
      (f : Option (Finding N)) (at : N) (open_now : Bool) (score : N) (summary : Summary N)
      (severity uid : String)
      → ((transition number f at open_now score summary severity uid).0 ≢ none) ↔ (open_now ≡ true)
  unfolding transition
  transition-open none at true score summary severity uid = ((λ h. refl), λ h e. cc e)
  transition-open (some f) at true score summary severity uid = ((λ h. refl), λ h e. cc e)
  transition-open (some f) at false score summary severity uid = ((λ h. absurd (h refl)), λ h. cc h)
  transition-open none at false score summary severity uid = ((λ h. absurd (h refl)), λ h. cc h)
