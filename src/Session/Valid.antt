-- ===== src/Session/Valid.antt =====
-- What holds of every session state: the closed stints are numbered from 1 and follow one another in
-- time, the one being driven comes after them, and texts are stripped.
use openlaps.Common.{
  ℕ, suc, ◌+◌, ◌≤◌, ◌≡◌, refl, ap, false, true, some, List, [], ◌∷◌, ◌++◌, length, last?, arith,
}
use openlaps.Common.Text.{Text, strip}
use openlaps.Session.{
  SessionState, Stint, Status, no_session, active, ended, initial, is_empty, is_session_type,
  set_last_end,
}

pub record IsName (t : Text) : Type 0 where
  pub filled : is_empty t ≡ false
  pub stripped : strip t ≡ t

-- Stints numbered from `n`, each of them at or after the end of the one before it.
abbrev pub IsChain : ℕ → ℕ → List Stint → Type 0
IsChain n previous_end [] = Unit
IsChain n previous_end (t ∷ ts) =
    IsName t.driver
    × (t.stint_number ≡ n)
    × (previous_end ≤ t.start_ms)
    × (t.start_ms ≤ t.end_ms)
    × IsChain (n + 1) t.end_ms ts

abbrev pub end_of : ℕ → List Stint → ℕ
end_of previous_end [] = previous_end
end_of previous_end (t ∷ ts) = end_of t.end_ms ts

pub record IsOpened (s : SessionState) : Type 0 where
  pub kind : is_session_type s.session_type ≡ true
  pub id : IsName s.session_id
  pub driver : IsName s.driver
  pub track : strip s.track_name ≡ s.track_name
  pub car : strip s.car ≡ s.car
  pub chain : IsChain 1 s.session_start_ms s.stints
  pub started : s.session_start_ms ≤ s.stint_start_ms

-- The active stint is the next one.
pub record IsActive (s : SessionState) : Type 0 where
  pub opened : IsOpened s
  pub next : s.stint_number ≡ length s.stints + 1
  pub after : end_of s.session_start_ms s.stints ≤ s.stint_start_ms

-- The last closed stint is the one that was being driven.
pub record IsEnded (s : SessionState) : Type 0 where
  pub opened : IsOpened s
  pub number : s.stint_number ≡ length s.stints
  pub last : Stint
  pub is_last : last? s.stints ≡ some last
  pub same_driver : last.driver ≡ s.driver
  pub same_start : last.start_ms ≡ s.stint_start_ms

abbrev pub ValidAt : Status → SessionState → Type 0
ValidAt no_session s = s ≡ initial
ValidAt active s = IsActive s
ValidAt ended s = IsEnded s

abbrev pub IsValid : SessionState → Type 0
IsValid s = ValidAt s.status s

pub IsChain-append :
    (n p : ℕ) (ts : List Stint) (t : Stint)
    → IsChain n p ts
    → IsName t.driver
    → t.stint_number ≡ n + length ts
    → end_of p ts ≤ t.start_ms
    → t.start_ms ≤ t.end_ms
    → IsChain n p (ts ++ t ∷ [])
IsChain-append n p [] t c name e from to = (name, omega arith, from, to, tt)
IsChain-append n p (u ∷ ts) t c name e from to =
    (c.0, c.1, c.2, c.3, IsChain-append (n + 1) u.end_ms ts t c.4 name (omega arith) from to)

pub end_of-append : (p : ℕ) (ts : List Stint) (t : Stint) → end_of p (ts ++ t ∷ []) ≡ t.end_ms
end_of-append p [] t = refl
end_of-append p (u ∷ ts) t = end_of-append u.end_ms ts t

pub last?-append : (ts : List Stint) (t : Stint) → last? (ts ++ t ∷ []) ≡ some t
last?-append [] t = refl
last?-append (u ∷ []) t = refl
last?-append (u ∷ v ∷ ts) t = last?-append (v ∷ ts) t

-- Moving the end of the last stint keeps the chain, if it stays at or after that stint's start.
pub set_last_end-IsChain :
    (n p : ℕ) (ts : List Stint) (t : Stint) (at_ms : ℕ)
    → IsChain n p ts
    → last? ts ≡ some t
    → t.start_ms ≤ at_ms
    → IsChain n p (set_last_end ts at_ms)
      × (length (set_last_end ts at_ms) ≡ length ts)
      × (end_of p (set_last_end ts at_ms) ≡ at_ms)
unfolding set_last_end
set_last_end-IsChain n p [] t at_ms c e h = cc
set_last_end-IsChain n p (u ∷ []) t at_ms c e h =
    let same : u ≡ t = cc e in ((c.0, c.1, c.2, rw same h, tt), refl, refl)
set_last_end-IsChain n p (u ∷ v ∷ ts) t at_ms c e h =
    let r = set_last_end-IsChain (n + 1) u.end_ms (v ∷ ts) t at_ms c.4 e h in
    ((c.0, c.1, c.2, c.3, r.0), ap suc r.1, r.2)
