-- ===== src/Rbe/Verdict.antt =====
-- What one call of `RbeFilter.accept` does on every branch.
use openlaps.Common.{
  ℕ, ◌+◌, ◌<◌, ◌≤◌, ◌≡◌, sym, ◌≢◌, ◌⊎◌, refl, Bool, true, false, Option, none, some, nat_eq,
  Bool-cases, ltb→lt, arith, Option-cases, inl, inr,
}
use openlaps.Common.Dict.{lookup, lookup-insert_self, lookup-insert_ne}
use openlaps.Common.Number.{Number}
use openlaps.Samples.{Sample, SampleValue, num, bool, str}
use openlaps.Rbe.{
  RbePolicy, SentState, RbeFilter, deadband_value, heartbeat_due, too_early, within_deadband,
  record_sent, accept_first, accept_next, accept,
}

module _ (number : Number) where
  open number use {N, sub, abs, le_n}

  -- The sample is now the channel's last one sent, and nothing else changed.
  pub record Recorded (channel : ℕ) (s : Sample N) (f g : RbeFilter N) : Type 0 where
    pub last : lookup channel g.state ≡ some (record { value = s.value; t_mono_ns = s.t_mono_ns })
    pub others : (c : ℕ) → c ≢ channel → lookup c g.state ≡ lookup c f.state
    pub count : g.suppressed_count ≡ f.suppressed_count

  -- Both are numbers, and how they compare with the deadband.
  pub record Compares (band : N) (v w : SampleValue N) (close : Bool) : Type 0 where
    pub now : N
    pub before : N
    pub value : v ≡ num now
    pub previous : w ≡ num before
    pub distance : le_n (abs (sub now before)) band ≡ close

  abbrev pub IsEarly : RbePolicy N → SentState N → Sample N → Type 0
  IsEarly p previous s =
      (m : ℕ) × (p.min_interval_ns ≡ some m) × (s.t_mono_ns < previous.t_mono_ns + m)

  -- The sample was recorded, since it is the channel's first one, since a heartbeat was due, or since it came when
  -- `min_interval` was over and differed from the last one sent by more than the deadband, if there is one.
  pub data Reason (channel : ℕ) (s : Sample N) (p : RbePolicy N) (f : RbeFilter N) : Type 0 where
    first : lookup channel f.state ≡ none → Reason channel s p f
    heartbeat :
        (previous : SentState N) (m : ℕ)
        → lookup channel f.state ≡ some previous
        → p.max_interval_ns ≡ some m
        → previous.t_mono_ns + m ≤ s.t_mono_ns
        → Reason channel s p f
    differs :
        (previous : SentState N)
        → lookup channel f.state ≡ some previous
        → ((m : ℕ) → p.min_interval_ns ≡ some m → previous.t_mono_ns + m ≤ s.t_mono_ns)
        → ((band : N) → p.deadband ≡ some band → Compares band s.value previous.value false)
        → Reason channel s p f

  -- The sample was counted and dropped: no heartbeat was due, and it came too early or differed from
  -- the last one sent by no more than the deadband.
  pub record Suppressed (channel : ℕ) (s : Sample N) (p : RbePolicy N) (f g : RbeFilter N)
      : Type 0 where
    pub previous : SentState N
    pub known : lookup channel f.state ≡ some previous
    pub kept : g.state ≡ f.state
    pub count : g.suppressed_count ≡ f.suppressed_count + 1
    pub fresh : (m : ℕ) → p.max_interval_ns ≡ some m → s.t_mono_ns < previous.t_mono_ns + m
    pub reason :
        IsEarly p previous s
        ⊎ ((band : N) × (p.deadband ≡ some band) × Compares band s.value previous.value true)

  abbrev pub Verdict : ℕ → Sample N → RbePolicy N → RbeFilter N → RbeFilter N × Option Bool → Type 0
  Verdict channel s p f (g, none) = (g ≡ f) × (p.deadband ≢ none)
  Verdict channel s p f (g, some true) = Recorded channel s f g × Reason channel s p f
  Verdict channel s p f (g, some false) = Suppressed channel s p f g

  record_sent-Recorded :
      (channel : ℕ) (s : Sample N) (f : RbeFilter N)
      → Recorded channel s f (record_sent number channel s f)
  unfolding record_sent
  record_sent-Recorded channel s f = record {
    last = lookup-insert_self channel _ f.state;
    others = λ c h. lookup-insert_ne channel c _ f.state h;
    count = refl;
  }

  accept_first-Verdict :
      (channel : ℕ) (s : Sample N) (p : RbePolicy N) (f : RbeFilter N)
      → lookup channel f.state ≡ none
      → Verdict channel s p f (accept_first number channel s p f)
  unfolding accept_first
  accept_first-Verdict channel s p f new = elim (Option-cases p.deadband) [
    | inl e ↦ rw (e, accept_first) (record_sent-Recorded channel s f, first new)
    | inr (b, e) ↦ elim (Option-cases (deadband_value s.value)) [
      | inl e' ↦ rw (e, e', accept_first) (refl, λ h. cc)
      | inr (v, e') ↦ rw (e, e', accept_first) (record_sent-Recorded channel s f, first new)
    ]
  ]

  not_due-fresh :
      (o : Option ℕ) (t now : ℕ)
      → heartbeat_due o t now ≡ false
      → (m : ℕ) → o ≡ some m
      → now < t + m
  unfolding heartbeat_due
  not_due-fresh o t now h m e = ground arith

  early-bound :
      (o : Option ℕ) (t now : ℕ) → too_early o t now ≡ true → (m : ℕ) × (o ≡ some m) × (now < t + m)
  unfolding too_early
  early-bound none t now h = cc
  early-bound (some m) t now h = (m, refl, ltb→lt _ _ h)

  due-bound :
      (o : Option ℕ) (t now : ℕ)
      → heartbeat_due o t now ≡ true
      → (m : ℕ) × (o ≡ some m) × (t + m ≤ now)
  unfolding heartbeat_due
  due-bound none t now h = cc
  due-bound (some m) t now h = (m, refl, ground arith)

  not_early-bound :
      (o : Option ℕ) (t now : ℕ) → too_early o t now ≡ false → (m : ℕ) → o ≡ some m → t + m ≤ now
  unfolding too_early
  not_early-bound o t now h m e = ground arith

  within-Compares :
      (o : Option N) (v w : SampleValue N) (close : Bool)
      → within_deadband number o v w ≡ some close
      → (band : N) → o ≡ some band
      → Compares band v w close
  unfolding within_deadband deadband_value
  within-Compares (some b) (num x) (num y) close h band e = record {
    now = x;
    before = y;
    value = refl;
    previous = refl;
    distance = (let same : b ≡ band = cc e in rw (sym same) (cc h));
  }
  within-Compares none v w close h band e = cc e
  within-Compares (some b) (bool x) w close h band e = cc h
  within-Compares (some b) (str x) w close h band e = cc h
  within-Compares (some b) (num x) (bool y) close h band e = cc h
  within-Compares (some b) (num x) (str y) close h band e = cc h

  within-band_there :
      (o : Option N) (v w : SampleValue N)
      → within_deadband number o v w ≡ some true
      → (band : N) × (o ≡ some band)
  unfolding within_deadband
  within-band_there none v w h = cc h
  within-band_there (some b) v w h = (b, refl)

  within-band :
      (o : Option N) (v w : SampleValue N) → within_deadband number o v w ≡ none → o ≢ none
  unfolding within_deadband
  within-band o v w h e = ground arith

  module _ (channel : ℕ) (s : Sample N) (p : RbePolicy N) (f : RbeFilter N) where
    accept_next-Verdict :
        (previous : SentState N)
        → lookup channel f.state ≡ some previous
        → Verdict channel s p f (accept_next number channel s p previous f)
    unfolding accept_next
    accept_next-Verdict previous known =
        elim (Bool-cases (heartbeat_due p.max_interval_ns previous.t_mono_ns s.t_mono_ns)) [
          | inl due ↦
              let (m, is_max, over) = due-bound p.max_interval_ns _ _ due in
              rw (due, accept_next)
                (record_sent-Recorded channel s f, heartbeat previous m known is_max over)
          | inr not_due ↦
              elim (Bool-cases (too_early p.min_interval_ns previous.t_mono_ns s.t_mono_ns)) [
                | inl early ↦
                    rw (not_due, early, accept_next)
                      (suppressed not_due (inl (early-bound p.min_interval_ns _ _ early)))
                | inr late ↦
                    elim (Option-cases (within_deadband number p.deadband s.value previous.value)) [
                      | inl e ↦
                          rw (not_due, late, e, accept_next) (refl, within-band p.deadband _ _ e)
                      | inr (true, e) ↦
                          rw (not_due, late, e, accept_next)
                            (suppressed not_due (
                              let (band, is_band) = within-band_there p.deadband _ _ e in
                              inr (
                                band,
                                is_band,
                                within-Compares p.deadband _ _ true e band is_band,
                              )))
                      | inr (false, e) ↦
                          rw (not_due, late, e, accept_next)
                            (
                              record_sent-Recorded channel s f,
                              differs previous known (not_early-bound p.min_interval_ns _ _ late)
                                  (within-Compares p.deadband _ _ false e),
                            )
                    ]
              ]
        ]
      where
        suppressed :
            heartbeat_due p.max_interval_ns previous.t_mono_ns s.t_mono_ns ≡ false
            → IsEarly p previous s
              ⊎ ((band : N) × (p.deadband ≡ some band) × Compares band s.value previous.value true)
            → Suppressed channel s p f (record f { suppressed_count = f.suppressed_count + 1 })
        suppressed not_due why = record {
          previous = previous;
          known = known;
          kept = refl;
          count = refl;
          fresh = not_due-fresh p.max_interval_ns _ _ not_due;
          reason = why;
        }

    -- With a policy, a sample that `accept` lets through becomes the channel's last one sent, every other channel and
    -- the count being as before, and it is the channel's first one, or `max_interval` is over since the last one sent,
    -- or `min_interval` is over and it differs from that by more than the deadband, if there is one. One that it holds
    -- back is counted, the states stay, and then `max_interval` is not over and it came before `min_interval` was over
    -- or within the deadband. Where `accept` raises, the filter is unchanged and the policy has a deadband.
    pub accept-Verdict : Verdict channel s p f (accept number channel s (some p) f)
    unfolding accept
    accept-Verdict = elim (Option-cases (lookup channel f.state)) [
      | inl e ↦ rw (e, accept) (accept_first-Verdict channel s p f e)
      | inr (previous, e) ↦ rw (e, accept) (accept_next-Verdict previous e)
    ]
