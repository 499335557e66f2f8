-- ===== src/Session/Start.antt =====
-- A session that starts is valid; the session types are plain words.
use openlaps.Common.{
  ℕ, ◌≡◌, refl, sym, false, true, not, [], ◌∷◌, ◌++◌, arith, ◌⊎◌, ◌||◌, ◌&&◌, inl, inr, subst, Bool,
}
use openlaps.Common.Result.{ok}
use openlaps.Common.Text.{Text, strip, codes, lower, is_space, text_beq_iff}
use openlaps.Common.Text.Strip.{strip-strip, HasNoSpace, strip_of_HasNoSpace, HasNoSpace-append}
use openlaps.Session.{SessionState, active, is_empty, is_session_type, start_session}
use openlaps.Session.Valid.{IsName, IsActive, IsValid}
use openlaps.Session.Step.{IsName-strip, IsValid-of_active}

opened_with : Text → Text → Text → Text → Text → ℕ → SessionState
opened_with kind name track_name car stamp now = record {
  session_id = stamp ++ (codes "-" ++ kind);
  session_type = kind;
  driver = name;
  track_name = strip track_name;
  car = strip car;
  stint_number = 1;
  session_start_ms = now;
  stint_start_ms = now;
  status = active;
  stints = [];
}

start_session-ok :
    (s t : SessionState) (kind driver track car stamp : Text) (now : ℕ)
    → start_session s kind driver track car stamp now ≡ ok t
    → (is_session_type (lower (strip kind)) ≡ true)
      × (is_empty (strip driver) ≡ false)
      × (opened_with (lower (strip kind)) (strip driver) track car stamp now ≡ t)
unfolding start_session opened_with
start_session-ok s t kind driver track car stamp now h = ground arith

or_true : (a b : Bool) → (a || b) ≡ true → (a ≡ true) ⊎ (b ≡ true)
or_true true b h = inl refl
or_true false b h = inr h

-- A session type is one of four words.
pub session_type-cases :
    (P : Text → Type 0)
    → P (codes "practice")
    → P (codes "qualifying")
    → P (codes "race")
    → P (codes "test")
    → (t : Text) → is_session_type t ≡ true
    → P t
unfolding is_session_type
session_type-cases P p q r e t h = elim (or_true _ _ h) [
  | inr d ↦ subst P (sym ((text_beq_iff _ _).0 d)) e
  | inl abc ↦ elim (or_true _ _ abc) [
    | inr c ↦ subst P (sym ((text_beq_iff _ _).0 c)) r
    | inl ab ↦ elim (or_true _ _ ab) [
      | inl a ↦ subst P (sym ((text_beq_iff _ _).0 a)) p
      | inr b ↦ subst P (sym ((text_beq_iff _ _).0 b)) q
    ]
  ]
]

unfoldable pub no_spaces : Text → Bool
no_spaces [] = true
no_spaces (c ∷ s) = not (is_space c) && no_spaces s

pub HasNoSpace-of : (t : Text) → no_spaces t ≡ true → HasNoSpace t
unfolding no_spaces
HasNoSpace-of [] h = tt
HasNoSpace-of (c ∷ s) h = (ground arith, HasNoSpace-of s (ground arith))

pub session_type-HasNoSpace : (t : Text) → is_session_type t ≡ true → HasNoSpace t
unfolding no_spaces is_space
session_type-HasNoSpace t h =
    session_type-cases HasNoSpace (HasNoSpace-of (codes "practice") refl)
      (HasNoSpace-of (codes "qualifying") refl) (HasNoSpace-of (codes "race") refl)
      (HasNoSpace-of (codes "test") refl) t h

-- The text of the start time and the random id: no white space, and not empty.
abbrev pub IsStamp : Text → Type 0
IsStamp t = HasNoSpace t × (is_empty t ≡ false)

is_empty-append : (a b : Text) → is_empty a ≡ false → is_empty (a ++ b) ≡ false
is_empty-append [] b h = cc
is_empty-append (c ∷ a) b h = refl

opened_with-IsActive :
    (kind name track car stamp : Text) (now : ℕ)
    → is_session_type kind ≡ true
    → IsName name
    → IsStamp stamp
    → IsActive (opened_with kind name track car stamp now)
unfolding opened_with is_space
opened_with-IsActive kind name track car stamp now k named st = record {
  opened = record {
    kind = k;
    id = record {
      filled = is_empty-append stamp (codes "-" ++ kind) st.1;
      stripped =
          strip_of_HasNoSpace (stamp ++ (codes "-" ++ kind)) (
            HasNoSpace-append stamp (codes "-" ++ kind) st.0
              (refl, session_type-HasNoSpace kind k));
    };
    driver = named;
    track = strip-strip track;
    car = strip-strip car;
    chain = tt;
    started = omega arith;
  };
  next = omega arith;
  after = omega arith;
}

-- A session that is accepted for starting is valid, where the stamp of its id is a word.
pub start_session-IsValid :
    (s t : SessionState) (kind driver track car stamp : Text) (now : ℕ)
    → IsStamp stamp
    → start_session s kind driver track car stamp now ≡ ok t
    → IsValid t
start_session-IsValid s t kind driver track car stamp now st h =
    let c = start_session-ok s t kind driver track car stamp now h in
    IsValid-of_active (opened_with (lower (strip kind)) (strip driver) track car stamp now) t c.2
      (unfold opened_with in refl)
      (opened_with-IsActive (lower (strip kind)) (strip driver) track car stamp now c.0
        (IsName-strip driver c.1) st)
