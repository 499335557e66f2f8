-- ===== src/Alerts/Keyed.antt =====
-- Each alert of the book stands under its own fingerprint.
use openlaps.Common.{
  ℕ, ◌≡◌, ◌∙◌, refl, sym, ap, String, Option, none, some, List, [], ◌∷◌, ◌==◌, string_eq,
  Bool-cases, inl, inr,
}
use openlaps.Common.Dict.{Dict, lookup, insert, erase, lookup-insert, lookup-erase}
use openlaps.Alerts.{
  AlertBook, Alert, AlertStatus, firing, resolved, ActiveAlert, is_heartbeat, heartbeat, fold_alert,
  receive_one, receive_all,
}

abbrev pub IsKeyed : Dict String ActiveAlert → Type 0
IsKeyed d = (k : String) (v : ActiveAlert) → lookup k d ≡ some v → v.alert.fingerprint ≡ k

pub insert-IsKeyed :
    (k : String) (w : ActiveAlert) (d : Dict String ActiveAlert)
    → IsKeyed d
    → w.alert.fingerprint ≡ k
    → IsKeyed (insert k w d)
insert-IsKeyed k w d h e j v q = elim (Bool-cases (k == j)) [
  | inl here ↦
      let same : k ≡ j = (string_eq.same_iff k j).0 here in
      let found : some w ≡ some v = rw (lookup-insert k j w d, here) at q in
      let found' : w ≡ v = cc found in ap (λ a. a.alert.fingerprint) (sym found') ∙ e ∙ same
  | inr there ↦ h j v (rw (lookup-insert k j w d, there) at q)
]

pub erase-IsKeyed : (k : String) (d : Dict String ActiveAlert) → IsKeyed d → IsKeyed (erase k d)
erase-IsKeyed k d h j v q = elim (Bool-cases (k == j)) [
  | inl here ↦ absurd (let found : none ≡ some v = rw (lookup-erase k j d, here) at q in cc found)
  | inr there ↦ h j v (rw (lookup-erase k j d, there) at q)
]

fold_alert-IsKeyed :
    (b : AlertBook) (alert : Alert) (now : ℕ) (status : AlertStatus) (o : Option ActiveAlert)
    → lookup alert.fingerprint b.active ≡ o
    → IsKeyed b.active
    → IsKeyed (fold_alert b alert now status o).0.active
fold_alert-IsKeyed b alert now firing none e h = insert-IsKeyed alert.fingerprint _ b.active h refl
fold_alert-IsKeyed b alert now firing (some current) e h =
    insert-IsKeyed alert.fingerprint (record current { last_seen = now }) b.active h (h _ current e)
fold_alert-IsKeyed b alert now resolved none e h = h
fold_alert-IsKeyed b alert now resolved (some current) e h =
    erase-IsKeyed alert.fingerprint b.active h

receive_one-IsKeyed :
    (b : AlertBook) (alert : Alert) (now : ℕ)
    → IsKeyed b.active
    → IsKeyed (receive_one b alert now).0.active
unfolding receive_one
receive_one-IsKeyed b alert now h = elim (Bool-cases (is_heartbeat b alert)) [
  | inl q ↦ rw q (beat alert.status)
  | inr q ↦
      rw q (fold_alert-IsKeyed b alert now alert.status (lookup alert.fingerprint b.active) refl h)
]
  where
    beat : (status : AlertStatus) → IsKeyed (heartbeat b status now).active
    beat firing = h
    beat resolved = h

pub receive_all-IsKeyed :
    (b : AlertBook) (alerts : List Alert) (now : ℕ)
    → IsKeyed b.active
    → IsKeyed (receive_all b alerts now).0.active
unfolding receive_all
receive_all-IsKeyed b [] now h = h
receive_all-IsKeyed b (alert ∷ alerts) now h =
    receive_all-IsKeyed (receive_one b alert now).0 alerts now (receive_one-IsKeyed b alert now h)
