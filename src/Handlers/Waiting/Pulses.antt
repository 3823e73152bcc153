-- ===== src/Handlers/Waiting/Pulses.antt =====
-- How waiting for a state ends, and how often it tells of its progress (handlers/utils.py).
use staykey_ha_plugin.Prelude.{
  ℕ, ◌+◌, ◌-◌, ◌≤◌, ◌<◌, String, ◌≡◌, ◌≢◌, ◌↔◌, ◌⊎◌, inl, inr, refl, sym, Bool, true, false, Option,
  none, some, List, [], ◌∷◌, arith, eq_iff, Bool-cases, ltb, leb, ◌&&◌,
}
use staykey_ha_plugin.Handlers.Waiting.{
  Poll, Watch, pulse_interval, is_at, state_or_unknown, wait_loop, wait_for_state,
}

-- Each pulse at least the interval after the one before.
abbrev pub AreSpaced : ℕ → List (ℕ × String) → Type 0
AreSpaced last [] = Unit
AreSpaced last ((now, state) ∷ pulses) = (last + pulse_interval ≤ now) × AreSpaced now pulses

no_both : {b : Bool} → b ≡ false → b ≡ true → ⊥
no_both p q = ground arith

module _ (progress : Bool) (target : String) where
  wait_loop-AreSpaced :
      (deadline last : ℕ) (state : Option String) (polls : List Poll)
      → AreSpaced last (wait_loop progress target deadline last state polls).0
  unfolding wait_loop
  wait_loop-AreSpaced deadline last state [] = tt
  wait_loop-AreSpaced deadline last state (p ∷ polls) = ground (
    arith,
    wait_loop-AreSpaced deadline last p.state polls,
    wait_loop-AreSpaced deadline p.now p.state polls,
  )

  -- Waiting for a state tells of its progress at most every 5 seconds, the first time 5 seconds after
  -- its start.
  wait_for_state-AreSpaced :
      (timeout : ℕ) (w : Watch) → AreSpaced w.start (wait_for_state progress target timeout w).0
  unfolding wait_for_state
  wait_for_state-AreSpaced timeout w =
      ground (arith, wait_loop-AreSpaced (w.start + timeout) w.start w.initial w.polls)

  -- A pass before the deadline finds the state, with no pass after the deadline before it.
  abbrev pub Reaches : ℕ → List Poll → Type 0
  Reaches deadline [] = ⊥
  Reaches deadline (p ∷ polls) =
      (p.time < deadline) × ((p.state ≡ some target) ⊎ Reaches deadline polls)

  is_at_iff : (s : Option String) → (is_at target s ≡ true) ↔ (s ≡ some target)
  is_at_iff none = (λ e. cc, λ e. cc)
  is_at_iff (some s) = (λ e. ground (arith, eq_iff s target), λ e. ground (arith, eq_iff s target))

  is_at-state_or_unknown :
      target ≢ "unknown"
      → (s : Option String) → is_at target s ≡ false
      → state_or_unknown s ≢ target
  is_at-state_or_unknown real none e p = real (sym p)
  is_at-state_or_unknown real (some s) e p = ground (arith, eq_iff s target)

  -- the pass did not find the state, so it is for those after it to find
  found_later :
      (r : String) (deadline : ℕ) (p : Poll) (polls : List Poll)
      → ltb p.time deadline ≡ true
      → is_at target p.state ≡ false
      → (r ≡ target) ↔ Reaches deadline polls
      → (r ≡ target) ↔ Reaches deadline (p ∷ polls)
  found_later r deadline p polls early elsewhere (to, from) =
      (λ q. (ground arith, inr (to q)), λ (_, found). from_found found)
    where
      from_found : (p.state ≡ some target) ⊎ Reaches deadline polls → r ≡ target
      from_found (inl here) = absurd (no_both elsewhere ((is_at_iff p.state).1 here))
      from_found (inr later) = from later

  wait_loop-Reaches :
      target ≢ "unknown"
      → (deadline last : ℕ) (state : Option String) (polls : List Poll) → is_at target state ≡ false
      → ((wait_loop progress target deadline last state polls).1 ≡ target) ↔ Reaches deadline polls
  unfolding wait_loop
  wait_loop-Reaches real deadline last state [] e =
      (λ p. is_at-state_or_unknown real state e p, λ p. absurd p)
  wait_loop-Reaches real deadline last state (p ∷ polls) e =
      elim (Bool-cases (ltb p.time deadline)) [
        | inr late ↦
            rw late (
              λ q. absurd (is_at-state_or_unknown real state e q),
              λ (lt, _). absurd (ground arith),
            )
        | inl early ↦ rw early (elim (Bool-cases (is_at target p.state)) [
          | inl here ↦ rw here (λ _. (ground arith, inl ((is_at_iff p.state).0 here)), λ _. refl)
          | inr elsewhere ↦
              rw elsewhere (elim (Bool-cases (progress && leb pulse_interval (p.now - last))) [
                | inl due ↦ rw due (
                    found_later _ deadline p polls early elsewhere
                      (wait_loop-Reaches real deadline p.now p.state polls elsewhere))
                | inr quiet ↦ rw quiet (
                    found_later _ deadline p polls early elsewhere
                      (wait_loop-Reaches real deadline last p.state polls elsewhere))
              ])
        ])
      ]

  -- Waiting ends with the state waited for exactly if the entity showed it at the start or after a
  -- pause that began before the deadline, with no pass from the deadline on before it.
  pub wait_for_state-Reaches :
      (timeout : ℕ) (w : Watch)
      → target ≢ "unknown"
      → ((wait_for_state progress target timeout w).1 ≡ target)
        ↔ ((w.initial ≡ some target) ⊎ Reaches (w.start + timeout) w.polls)
  unfolding wait_for_state
  wait_for_state-Reaches timeout w real = elim (Bool-cases (is_at target w.initial)) [
    | inl here ↦ rw here (λ _. inl ((is_at_iff w.initial).0 here), λ _. refl)
    | inr elsewhere ↦
        let (to, from) =
          wait_loop-Reaches real (w.start + timeout) w.start w.initial w.polls elsewhere in
        rw elsewhere (λ q. inr (to q), λ found. from_found elsewhere from found)
  ]
    where
      from_found :
          {R : Type 0}
          → is_at target w.initial ≡ false
          → (Reaches (w.start + timeout) w.polls → R)
          → (w.initial ≡ some target) ⊎ Reaches (w.start + timeout) w.polls
          → R
      from_found elsewhere from (inl here) =
          absurd (no_both (elsewhere) ((is_at_iff w.initial).1 here))
      from_found elsewhere from (inr later) = from later
