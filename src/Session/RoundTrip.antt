-- ===== src/Session/RoundTrip.antt =====
-- A valid state survives a restart: `from_dict` reads back what `to_dict` writes.
use openlaps.Common.{
  ℕ, ◌+◌, ◌-◌, ◌≤◌, ◌≡◌, refl, sym, ap, ◌∙◌, false, true, not, ◌||◌, some, List, [], ◌∷◌, length,
  last?, arith, ltb, eqb, eqb_iff, if◌then◌else◌,
}
use openlaps.Common.Result.{Result, ok, ◌>>=◌}
use openlaps.Common.Json.{get, str}
use openlaps.Common.Text.{Text, strip, lower, text_beq, text_beq_iff}
use openlaps.Session.{
  SessionState, Stint, Status, Error, no_session, active, ended, is_empty, is_session_type, to_dict,
  stint_members, stint_items, is_active, status_text,
}
use openlaps.Session.Decode.{
  from_dict, from_status, from_members, check_stint, check_stints, check_current,
  as_required_string, as_status_text, to_status,
}
use openlaps.Session.Valid.{IsName, IsChain, end_of, IsOpened, ValidAt, IsValid}
use openlaps.Session.Start.{session_type-cases, session_type-HasNoSpace}
use openlaps.Common.Text.Strip.{strip_of_HasNoSpace}

range_ok : (n p a b : ℕ) → p ≤ a → a ≤ b → not (eqb n n) || ltb a p || ltb b a ≡ false
range_ok n p a b h k = ground arith

not_late : (a b : ℕ) → b ≤ a → ltb a b ≡ false
not_late a b h = ground arith

same_text : (t : Text) → text_beq t t ≡ true
same_text t = (text_beq_iff t t).1 refl

numbers_ok : (a b n : ℕ) → a ≤ b → 1 ≤ n → ltb b a || ltb n 1 ≡ false
numbers_ok a b n h k = ground arith

session_type-lower : (t : Text) → is_session_type t ≡ true → lower t ≡ t
unfolding lower
session_type-lower = session_type-cases (λ t. lower t ≡ t) refl refl refl refl

session_type-IsName : (t : Text) → is_session_type t ≡ true → IsName t
session_type-IsName t h = record {
  filled = session_type-cases (λ u. is_empty u ≡ false) refl refl refl refl t h;
  stripped = strip_of_HasNoSpace t (session_type-HasNoSpace t h);
}

to_status-text : (st : Status) → to_status (lower (strip (status_text st))) ≡ ok st
unfolding strip lower
to_status-text no_session = refl
to_status-text active = refl
to_status-text ended = refl

module _ (N : Type 0) where
  as_required_string-name : (t : Text) → IsName t → as_required_string {N = N} (some (str t)) ≡ ok t
  as_required_string-name t n = rw (n.stripped, n.filled)

  check_stint-members :
      (n p : ℕ) (t : Stint)
      → IsName t.driver
      → t.stint_number ≡ n
      → p ≤ t.start_ms
      → t.start_ms ≤ t.end_ms
      → check_stint n p (stint_members {N = N} t) ≡ ok t
  unfolding check_stint
  check_stint-members n p t name e h k = rw (← e) (
      rw (range_ok t.stint_number p t.start_ms t.end_ms h k, as_required_string-name t.driver name))

  check_stints-items :
      (n p : ℕ) (ts : List Stint)
      → IsChain n p ts
      → check_stints n p (stint_items {N = N} ts) ≡ ok (ts, end_of p ts)
  unfolding check_stints
  check_stints-items n p [] c = refl
  check_stints-items n p (t ∷ ts) c =
      ap
        (λ r. r >>= λ (stint : Stint).
          check_stints (n + 1) stint.end_ms (stint_items {N = N} ts) >>= λ closed.
          ok (stint ∷ closed.0, closed.1))
        (check_stint-members n p t c.0 c.1 c.2 c.3)
      ∙ ap (λ (r : Result Error (List Stint × ℕ)). r >>= λ closed. ok (t ∷ closed.0, closed.1))
          (check_stints-items (n + 1) t.end_ms ts c.4)

  from_members-opened :
      (status : Status) (s : SessionState) (now : ℕ)
      → IsOpened s
      → (if is_active status then s.stint_number - 1 else s.stint_number) ≡ length s.stints
      → 1 ≤ s.stint_number
      → check_current status s.driver s.stint_start_ms (end_of s.session_start_ms s.stints) s.stints
        ≡ ok tt
      → from_members status (to_dict {N = N} s now) ≡ ok (record s { status = status })
  unfolding from_members to_dict
  from_members-opened status s now v e pos c =
      rw (as_required_string-name s.session_type (session_type-IsName s.session_type v.kind)) (
        rw (session_type-lower s.session_type v.kind) (
          rw (v.kind) (
            rw (numbers_ok s.session_start_ms s.stint_start_ms s.stint_number v.started pos) (
              rw (check_stints-items 1 s.session_start_ms s.stints v.chain) (
                rw (e, (eqb_iff (length s.stints) _).1 refl)
                  (rw (as_required_string-name s.driver v.driver)
                    (rw c (rw (as_required_string-name s.session_id v.id, v.track, v.car)))))))))

  from_status-to_dict :
      (st : Status) (s : SessionState) (now : ℕ)
      → s.status ≡ st
      → ValidAt st s
      → from_status (to_dict {N = N} s now) st ≡ ok s
  unfolding from_status
  from_status-to_dict no_session s now e v = ap ok (sym v)
  from_status-to_dict active s now e v =
      from_members-opened active s now v.opened (omega (arith, v.next)) (omega (arith, v.next))
        (rw (not_late s.stint_start_ms _ v.after))
      ∙ ap (λ st. ok (record s { status = st })) (sym e)
  from_status-to_dict ended s now e v =
      from_members-opened ended s now v.opened v.number
        (nonempty s.stints v.last v.is_last v.number)
        (rw v.is_last (
          rw (v.same_driver, v.same_start)
            (rw (same_text s.driver, (eqb_iff s.stint_start_ms _).1 refl))))
      ∙ ap (λ st. ok (record s { status = st })) (sym e)
    where
      nonempty :
          (ts : List Stint) (t : Stint)
          → last? ts ≡ some t
          → s.stint_number ≡ length ts
          → 1 ≤ s.stint_number
      nonempty [] t h k = cc
      nonempty (u ∷ ts) t h k = omega arith

  status-to_dict :
      (s : SessionState) (now : ℕ)
      → as_status_text (get (to_dict {N = N} s now) "status")
        ≡ ok (lower (strip (status_text s.status)))
  unfolding to_dict get
  status-to_dict s now = refl

  -- Reading back what `to_dict` wrote of a valid session at any time gives the session again, closed
  -- stints included.
  pub from_dict-to_dict :
      (s : SessionState) (now : ℕ) → IsValid s → from_dict (to_dict {N = N} s now) ≡ ok s
  unfolding from_dict
  from_dict-to_dict s now v =
      rw (status-to_dict s now)
        (rw (to_status-text s.status) (from_status-to_dict s.status s now refl v))
