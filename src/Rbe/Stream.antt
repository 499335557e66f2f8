-- ===== src/Rbe/Stream.antt =====
-- What the filter lets through of a whole stream of samples of one channel.
use mathlib.Core.Option
use openlaps.Common.{
  ℕ, ◌+◌, ◌≤◌, ◌<◌, ◌≡◌, ◌∙◌, refl, ap, Bool, true, false, Option, none, some, List, [], ◌∷◌,
  nat_eq, arith, Option-cases, Bool-cases, inl, inr, leb→le,
}
use openlaps.Common.Dict.{lookup}
use openlaps.Common.Number.{Number}
use openlaps.Samples.{Sample}
use openlaps.Rbe.{
  RbePolicy, SentState, RbeFilter, heartbeat_due, too_early, accept_next, accept, send_on, sent_of,
}
use openlaps.Rbe.Verdict.{Recorded, Suppressed, Verdict, accept-Verdict}

-- `parse_intervals` of `RbeConfig` refuses any other policy.
pub record IsConfigured {N : Type 0} (p : RbePolicy N) (least : ℕ) : Type 0 where
  pub min_interval : p.min_interval_ns ≡ some least
  pub ordered : (m : ℕ) → p.max_interval_ns ≡ some m → least ≤ m

-- Each time is at least `least` after the one before it, the first of them after `since`.
abbrev pub SpacedAfter : {N : Type 0} → ℕ → Option ℕ → List (Sample N) → Type 0
SpacedAfter least since [] = Unit
SpacedAfter least none (s ∷ ss) = SpacedAfter least (some s.t_mono_ns) ss
SpacedAfter least (some t) (s ∷ ss) =
    (t + least ≤ s.t_mono_ns) × SpacedAfter least (some s.t_mono_ns) ss

not_early-gap :
    (o : Option ℕ) (t now least : ℕ) → too_early o t now ≡ false → o ≡ some least → t + least ≤ now
unfolding too_early
not_early-gap o t now least h e = ground arith

due-gap :
    (o : Option ℕ) (t now least : ℕ)
    → heartbeat_due o t now ≡ true
    → ((m : ℕ) → o ≡ some m → least ≤ m)
    → t + least ≤ now
unfolding heartbeat_due
due-gap none t now least h le = cc
due-gap (some m) t now least h le = omega (arith, leb→le _ _ h, le m refl)

module _ (number : Number) where
  open number use {N}

  pub last_time : ℕ → RbeFilter N → Option ℕ
  last_time channel f = Option.map (λ e. e.t_mono_ns) (lookup channel f.state)

  module _ (channel : ℕ) (p : RbePolicy N) {least : ℕ} (configured : IsConfigured p least) where
    accept_next-gap :
        (s : Sample N) (f g : RbeFilter N) (previous : SentState N)
        → accept_next number channel s p previous f ≡ (g, some true)
        → previous.t_mono_ns + least ≤ s.t_mono_ns
    unfolding accept_next
    accept_next-gap s f g previous e =
        elim (Bool-cases (heartbeat_due p.max_interval_ns previous.t_mono_ns s.t_mono_ns)) [
          | inl due ↦ due-gap p.max_interval_ns _ _ least due configured.ordered
          | inr not_due ↦
              elim (Bool-cases (too_early p.min_interval_ns previous.t_mono_ns s.t_mono_ns)) [
                | inl early ↦ absurd (
                    let h = rw (not_due, early, accept_next) at e in
                    cc (ap (λ (r : RbeFilter N × Option Bool). r.1) h))
                | inr late ↦ not_early-gap p.min_interval_ns _ _ least late configured.min_interval
              ]
        ]

    accept-spacing :
        (s : Sample N) (ss : List (Sample N)) (f g : RbeFilter N)
        → accept number channel s (some p) f ≡ (g, some true)
        → SpacedAfter least (some s.t_mono_ns) ss
        → SpacedAfter least (last_time channel f) (s ∷ ss)
    unfolding accept last_time
    accept-spacing s ss f g e rest = elim (Option-cases (lookup channel f.state)) [
      | inl h ↦ rw h rest
      | inr (previous, h) ↦ rw h (accept_next-gap s f g previous (rw (h, accept) at e), rest)
    ]

    last_time-eq :
        (f g : RbeFilter N) → g.state ≡ f.state → last_time channel f ≡ last_time channel g
    unfolding last_time
    last_time-eq f g e = rw e

    Recorded-last :
        (s : Sample N) {f g : RbeFilter N}
        → Recorded number channel s f g
        → last_time channel g ≡ some s.t_mono_ns
    unfolding last_time
    Recorded-last s r = ap (Option.map (λ e. e.t_mono_ns)) r.last

    Spaced : RbeFilter N → List (Sample N) → Type 0
    Spaced f ss = SpacedAfter least (last_time channel f) (sent_of number channel p f ss).1

    -- One step of the stream, from what `accept` returned.
    sent_of-SpacedAfter_step :
        (s : Sample N) (ss : List (Sample N)) (f : RbeFilter N)
        → ((g : RbeFilter N) → Spaced g ss)
        → (r : RbeFilter N × Option Bool) → accept number channel s (some p) f ≡ r
        → Verdict number channel s p f r
        → SpacedAfter least
            (last_time channel f)
            (send_on number s r (λ g. sent_of number channel p g ss)).1
    unfolding Spaced
    sent_of-SpacedAfter_step s ss f ih (g, some true) e v =
        accept-spacing s _ f g e (rw (Recorded-last s v.0) at (ih g))
    sent_of-SpacedAfter_step s ss f ih (g, some false) e v = rw (last_time-eq f g v.kept) (ih g)
    sent_of-SpacedAfter_step s ss f ih (g, none) e v = rw v.0 (ih f)

    -- Of any stream of one channel, in any order of times and from any filter, the samples that are
    -- sent lie at least `min_interval` apart, the first of them after the last one sent before,
    -- where the policy's `max_interval`, if it has one, is no shorter.
    pub sent_of-SpacedAfter :
        (f : RbeFilter N) (ss : List (Sample N))
        → SpacedAfter least (last_time channel f) (sent_of number channel p f ss).1
    unfolding Spaced sent_of
    sent_of-SpacedAfter f [] = tt
    sent_of-SpacedAfter f (s ∷ ss) =
        sent_of-SpacedAfter_step s ss f (λ g. sent_of-SpacedAfter g ss) _ refl
          (accept-Verdict number channel s p f)

  -- Under a policy with a positive `max_interval`, after each sample that does not raise, the
  -- channel's last one sent is younger than `max_interval`: the values that are held back never
  -- let it grow older.
  pub accept-fresh :
      (channel : ℕ) (s : Sample N) (p : RbePolicy N) (f g : RbeFilter N) (m : ℕ) (kept : Bool)
      → p.max_interval_ns ≡ some m
      → 0 < m
      → accept number channel s (some p) f ≡ (g, some kept)
      → (e : SentState N) × (lookup channel g.state ≡ some e) × (s.t_mono_ns < e.t_mono_ns + m)
  accept-fresh channel s p f g m true bound pos e =
      let v : Verdict number channel s p f (g, some true) =
        rw e at (accept-Verdict number channel s p f) in
      (_, v.0.last, omega arith)
  accept-fresh channel s p f g m false bound pos e =
      let v : Suppressed number channel s p f g = rw e at (accept-Verdict number channel s p f) in
      (v.previous, ap (lookup channel) v.kept ∙ v.known, v.fresh m bound)
