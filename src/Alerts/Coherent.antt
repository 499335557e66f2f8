-- ===== src/Alerts/Coherent.antt =====
-- The history of the book agrees with what is active.
use openlaps.Common.{
  ℕ, ◌+◌, ◌≡◌, ◌∙◌, refl, sym, ap, subst, String, Bool, true, false, Option, none, some, List, [],
  ◌∷◌, ◌==◌, string_eq, Bool-cases, inl, inr,
}
use openlaps.Common.Dict.{Dict, lookup, insert, lookup-insert, lookup-erase}
use openlaps.Alerts.{
  AlertBook, Alert, AlertStatus, firing, resolved, ActiveAlert, Event, is_heartbeat, heartbeat,
  fold_alert, receive_one, receive_all, receive, remember, new_active,
}
use openlaps.Alerts.Trace.{follow, follow-append, after, EndsIn, remember_all-EndsIn}

abbrev pub is_some : {A : Type 0} → Option A → Bool
is_some none = false
is_some (some a) = true

-- Is an alert with this fingerprint active?
abbrev pub is_on : String → AlertBook → Bool
is_on fp b = is_some (lookup fp b.active)

-- For each fingerprint, the events that are kept tell a possible story that ends in what is active.
abbrev pub IsCoherent : AlertBook → Type 0
IsCoherent b = (fp : String) → EndsIn fp b.history (is_on fp b)

pub lookup-here :
    {V : Type 0} (k fp : String) (d : Dict String V) (o : Option V)
    → lookup k d ≡ o
    → k == fp ≡ true
    → lookup fp d ≡ o
lookup-here k fp d o e h = ap (λ j. lookup j d) (sym ((string_eq.same_iff k fp).0 h)) ∙ e

-- Writing under a fingerprint that is active changes no alert's being active.
pub update-is_some :
    (k fp : String) (d : Dict String ActiveAlert) (old new : ActiveAlert)
    → lookup k d ≡ some old
    → is_some (lookup fp d) ≡ is_some (lookup fp (insert k new d))
update-is_some k fp d old new e = elim (Bool-cases (k == fp)) [
  | inl h ↦ rw (lookup-insert k fp new d, h, lookup-here k fp d (some old) e h)
  | inr h ↦ rw (lookup-insert k fp new d, h)
]

fold_alert-follow :
    (fp : String) (b : AlertBook) (alert : Alert) (now : ℕ) (status : AlertStatus)
    (o : Option ActiveAlert)
    → lookup alert.fingerprint b.active ≡ o
    → follow fp (is_on fp b) (fold_alert b alert now status o).1
      ≡ some (is_on fp (fold_alert b alert now status o).0)
unfolding follow
fold_alert-follow fp b alert now firing none e = elim (Bool-cases (alert.fingerprint == fp)) [
  | inl h ↦ rw (
    h,
    lookup-insert alert.fingerprint fp (new_active alert now) b.active,
    h,
    lookup-here alert.fingerprint fp b.active none e h,
  )
  | inr h ↦ rw (h, lookup-insert alert.fingerprint fp (new_active alert now) b.active, h)
]
fold_alert-follow fp b alert now firing (some current) e =
    ap some
      (update-is_some alert.fingerprint fp b.active current (record current { last_seen = now }) e)
fold_alert-follow fp b alert now resolved none e = refl
fold_alert-follow fp b alert now resolved (some current) e =
    elim (Bool-cases (alert.fingerprint == fp)) [
      | inl h ↦ rw (
        h,
        lookup-erase alert.fingerprint fp b.active,
        h,
        lookup-here alert.fingerprint fp b.active (some current) e h,
      )
      | inr h ↦ rw (h, lookup-erase alert.fingerprint fp b.active, h)
    ]

receive_one-follow :
    (fp : String) (b : AlertBook) (alert : Alert) (now : ℕ)
    → follow fp (is_on fp b) (receive_one b alert now).1
      ≡ some (is_on fp (receive_one b alert now).0)
unfolding receive_one follow
receive_one-follow fp b alert now = elim (Bool-cases (is_heartbeat b alert)) [
  | inl h ↦ rw h (beat alert.status)
  | inr h ↦ rw h (fold_alert-follow fp b alert now alert.status _ refl)
]
  where
    beat :
        (status : AlertStatus)
        → follow fp (is_on fp b) [] ≡ some (is_on fp (heartbeat b status now))
    beat firing = refl
    beat resolved = refl

receive_all-follow :
    (fp : String) (b : AlertBook) (alerts : List Alert) (now : ℕ)
    → follow fp (is_on fp b) (receive_all b alerts now).1
      ≡ some (is_on fp (receive_all b alerts now).0)
unfolding receive_all
receive_all-follow fp b [] now = unfold follow in refl
receive_all-follow fp b (alert ∷ alerts) now =
    let one = receive_one b alert now in
    follow-append fp (is_on fp b) one.1 (receive_all one.0 alerts now).1
    ∙ ap (λ o. after o (λ on. follow fp on (receive_all one.0 alerts now).1))
        (receive_one-follow fp b alert now)
    ∙ receive_all-follow fp one.0 alerts now

fold_alert-history :
    (b : AlertBook) (alert : Alert) (now : ℕ) (status : AlertStatus) (o : Option ActiveAlert)
    → (fold_alert b alert now status o).0.history ≡ b.history
fold_alert-history b alert now firing none = refl
fold_alert-history b alert now firing (some _) = refl
fold_alert-history b alert now resolved none = refl
fold_alert-history b alert now resolved (some _) = refl

receive_one-history :
    (b : AlertBook) (alert : Alert) (now : ℕ) → (receive_one b alert now).0.history ≡ b.history
unfolding receive_one
receive_one-history b alert now = elim (Bool-cases (is_heartbeat b alert)) [
  | inl h ↦ rw h (beat alert.status)
  | inr h ↦ rw h (fold_alert-history b alert now alert.status (lookup alert.fingerprint b.active))
]
  where
    beat : (status : AlertStatus) → (heartbeat b status now).history ≡ b.history
    beat firing = refl
    beat resolved = refl

receive_all-history :
    (b : AlertBook) (alerts : List Alert) (now : ℕ)
    → (receive_all b alerts now).0.history ≡ b.history
unfolding receive_all
receive_all-history b [] now = refl
receive_all-history b (alert ∷ alerts) now =
    receive_all-history (receive_one b alert now).0 alerts now ∙ receive_one-history b alert now

pub remember-IsCoherent :
    (fp : String) (b c : AlertBook) (events : List Event)
    → c.history ≡ b.history
    → EndsIn fp b.history (is_on fp b)
    → follow fp (is_on fp b) events ≡ some (is_on fp c)
    → EndsIn fp (remember c events).history (is_on fp c)
unfolding remember
remember-IsCoherent fp b c events same h g =
    remember_all-EndsIn fp c.max_history c.history events (is_on fp b) (is_on fp c)
      (subst (λ l. EndsIn fp l (is_on fp b)) (sym same) h) g

-- A notification, whatever alerts it has in whatever order, keeps the book coherent.
pub receive-IsCoherent :
    (b : AlertBook) (alerts : List Alert) (now : ℕ)
    → IsCoherent b
    → IsCoherent (receive b alerts now).0
unfolding receive remember
receive-IsCoherent b alerts now h fp =
    let b' = record b { notifications = b.notifications + 1 } in
    unfold remember in
    remember-IsCoherent fp b' (receive_all b' alerts now).0 (receive_all b' alerts now).1
      (receive_all-history b' alerts now) (h fp) (receive_all-follow fp b' alerts now)
