-- ===== src/Session/Step.antt =====
-- Driver changes, corrections and the end of a session keep the state valid.
use openlaps.Common.{
  ℕ, ◌+◌, ◌≤◌, ◌≡◌, refl, sym, false, not, some, none, List, [], ◌∷◌, ◌++◌, last?, length-append,
  arith, ltb, inl, inr, Option-cases, subst,
}
use openlaps.Common.Result.{ok}
use openlaps.Common.Text.{Text, strip}
use openlaps.Common.Text.Strip.{strip-strip}
use openlaps.Session.{
  SessionState, Stint, Status, no_session, active, ended, is_empty, is_active, closed_at,
  set_last_end, change_driver, amend_stint_start, end_session,
}
use openlaps.Session.Valid.{
  IsName, IsChain, IsActive, IsEnded, ValidAt, IsValid, IsChain-append, end_of-append, last?-append,
  set_last_end-IsChain,
}

not_ltb : (n m : ℕ) → ltb n m ≡ false → m ≤ n
not_ltb n m h = ground arith

pub IsName-strip : (t : Text) → is_empty (strip t) ≡ false → IsName (strip t)
IsName-strip t h = record { filled = h; stripped = strip-strip t }

-- An active state that is valid is `IsActive`.
IsActive-of_test : (s : SessionState) → not (is_active s.status) ≡ false → IsValid s → IsActive s
IsActive-of_test s h v = go s.status h v
  where
    go : (st : Status) → not (is_active st) ≡ false → ValidAt st s → IsActive s
    go no_session h v = cc
    go active h v = v
    go ended h v = cc

is_active-eq : (st : Status) → not (is_active st) ≡ false → st ≡ active
is_active-eq no_session h = cc
is_active-eq active h = refl
is_active-eq ended h = cc

-- The new state of `change_driver`.
changed : SessionState → Text → ℕ → SessionState
changed s name now = record s {
  stints = s.stints ++ closed_at s now ∷ [];
  driver = name;
  stint_number = s.stint_number + 1;
  stint_start_ms = now;
}

changed-IsActive :
    (s : SessionState) (name : Text) (now : ℕ)
    → IsActive s
    → IsName name
    → s.stint_start_ms ≤ now
    → IsActive (changed s name now)
unfolding changed
changed-IsActive s name now v named later = record {
  opened = record {
    kind = v.opened.kind;
    id = v.opened.id;
    driver = named;
    track = v.opened.track;
    car = v.opened.car;
    chain =
        IsChain-append 1 s.session_start_ms s.stints (closed_at s now) v.opened.chain
          v.opened.driver (omega (arith, v.next)) v.after later;
    started = omega (arith, v.opened.started);
  };
  next = omega (arith, v.next, length-append s.stints (closed_at s now ∷ []));
  after = omega (arith, end_of-append s.session_start_ms s.stints (closed_at s now));
}

change_driver-ok :
    (s t : SessionState) (driver : Text) (now : ℕ)
    → change_driver s driver now ≡ ok t
    → (not (is_active s.status) ≡ false)
      × (is_empty (strip driver) ≡ false)
      × (s.stint_start_ms ≤ now)
      × (changed s (strip driver) now ≡ t)
unfolding change_driver changed
change_driver-ok s t driver now h = ground arith

pub IsValid-of_active : (s t : SessionState) → s ≡ t → s.status ≡ active → IsActive s → IsValid t
IsValid-of_active s t e a v = subst IsValid e (subst (λ (st : Status). ValidAt st s) (sym a) v)

IsValid-of_ended : (s t : SessionState) → s ≡ t → s.status ≡ ended → IsEnded s → IsValid t
IsValid-of_ended s t e a v = subst IsValid e (subst (λ (st : Status). ValidAt st s) (sym a) v)

-- A driver change of a valid session, where it is accepted, leaves the session valid.
pub change_driver-IsValid :
    (s t : SessionState) (driver : Text) (now : ℕ)
    → IsValid s
    → change_driver s driver now ≡ ok t
    → IsValid t
change_driver-IsValid s t driver now v h =
    let c = change_driver-ok s t driver now h in
    IsValid-of_active (changed s (strip driver) now) t c.3
      (unfold changed in is_active-eq s.status c.0)
      (changed-IsActive s (strip driver) now (IsActive-of_test s c.0 v) (IsName-strip driver c.1)
        c.2)

amended : SessionState → ℕ → SessionState
amended s at_ms = record s { stints = set_last_end s.stints at_ms; stint_start_ms = at_ms }

amend_nothing :
    (s t : SessionState) (at_ms : ℕ) → amend_stint_start s at_ms ≡ ok t → last? s.stints ≡ none → ⊥
unfolding amend_stint_start
amend_nothing s t at_ms h e = ground arith

amend_last :
    (s t : SessionState) (at_ms : ℕ) (previous : Stint)
    → amend_stint_start s at_ms ≡ ok t
    → last? s.stints ≡ some previous
    → (not (is_active s.status) ≡ false) × (previous.start_ms ≤ at_ms) × (amended s at_ms ≡ t)
unfolding amend_stint_start amended
amend_last s t at_ms previous h e = ground arith

last-start :
    (n p : ℕ) (ts : List Stint) (t : Stint) → IsChain n p ts → last? ts ≡ some t → p ≤ t.start_ms
last-start n p [] t c e = cc
last-start n p (u ∷ []) t c e = let same : u ≡ t = cc e in rw (← same) c.2
last-start n p (u ∷ v ∷ ts) t c e =
    omega (arith, last-start (n + 1) u.end_ms (v ∷ ts) t c.4 e, c.2, c.3)

amend_stint_start-ok :
    (s t : SessionState) (at_ms : ℕ)
    → amend_stint_start s at_ms ≡ ok t
    → (previous : Stint) × (last? s.stints ≡ some previous)
      × (not (is_active s.status) ≡ false)
      × (previous.start_ms ≤ at_ms)
      × (amended s at_ms ≡ t)
amend_stint_start-ok s t at_ms h = elim (Option-cases (last? s.stints)) [
  | inl e ↦ absurd (amend_nothing s t at_ms h e)
  | inr (previous, e) ↦ let c = amend_last s t at_ms previous h e in (previous, e, c.0, c.1, c.2)
]

amended-IsActive :
    (s : SessionState) (previous : Stint) (at_ms : ℕ)
    → IsActive s
    → last? s.stints ≡ some previous
    → previous.start_ms ≤ at_ms
    → IsActive (amended s at_ms)
unfolding amended
amended-IsActive s previous at_ms v e h =
    let c = set_last_end-IsChain 1 s.session_start_ms s.stints previous at_ms v.opened.chain e h in
    record {
      opened = record {
        kind = v.opened.kind;
        id = v.opened.id;
        driver = v.opened.driver;
        track = v.opened.track;
        car = v.opened.car;
        chain = c.0;
        started = omega (arith, last-start 1 s.session_start_ms s.stints previous v.opened.chain e);
      };
      next = omega (arith, v.next, c.1);
      after = omega (arith, c.2);
    }

-- A correction of the active stint's start, where it is accepted, leaves the session valid: the
-- stint before ends where the active one now starts.
pub amend_stint_start-IsValid :
    (s t : SessionState) (at_ms : ℕ) → IsValid s → amend_stint_start s at_ms ≡ ok t → IsValid t
amend_stint_start-IsValid s t at_ms v h =
    let c = amend_stint_start-ok s t at_ms h in
    IsValid-of_active (amended s at_ms) t c.4 (unfold amended in is_active-eq s.status c.2)
      (amended-IsActive s c.0 at_ms (IsActive-of_test s c.2 v) c.1 c.3)

finished : SessionState → ℕ → SessionState
finished s now = record s { stints = s.stints ++ closed_at s now ∷ []; status = ended }

end_session-ok :
    (s t : SessionState) (now : ℕ)
    → end_session s now ≡ ok t
    → (not (is_active s.status) ≡ false) × (s.stint_start_ms ≤ now) × (finished s now ≡ t)
unfolding end_session finished
end_session-ok s t now h = ground arith

finished-IsEnded :
    (s : SessionState) (now : ℕ) → IsActive s → s.stint_start_ms ≤ now → IsEnded (finished s now)
unfolding finished
finished-IsEnded s now v later = record {
  opened = record {
    kind = v.opened.kind;
    id = v.opened.id;
    driver = v.opened.driver;
    track = v.opened.track;
    car = v.opened.car;
    chain =
        IsChain-append 1 s.session_start_ms s.stints (closed_at s now) v.opened.chain
          v.opened.driver (omega (arith, v.next)) v.after later;
    started = v.opened.started;
  };
  number = omega (arith, v.next, length-append s.stints (closed_at s now ∷ []));
  last = closed_at s now;
  is_last = last?-append s.stints (closed_at s now);
  same_driver = refl;
  same_start = refl;
}

-- Where ending a valid session is accepted, it is valid and ended.
pub end_session-IsValid :
    (s t : SessionState) (now : ℕ) → IsValid s → end_session s now ≡ ok t → IsValid t
end_session-IsValid s t now v h =
    let c = end_session-ok s t now h in
    IsValid-of_ended (finished s now) t c.2 (unfold finished in refl)
      (finished-IsEnded s now (IsActive-of_test s c.0 v) c.1)
