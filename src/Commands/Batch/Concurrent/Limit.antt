-- ===== src/Commands/Batch/Concurrent/Limit.antt =====
-- How many commands of a batch run at once (handlers/batch.py).
use staykey_ha_plugin.Prelude.{
  ℕ, zero, suc, String, ◌+◌, ◌≤◌, ◌≡◌, refl, none, List, [], ◌∷◌, map, arith,
}
use staykey_ha_plugin.Python.Coroutine.{Resumed, suspended, ended}
use staykey_ha_plugin.Python.Value.{Value, obj, Fields}
use staykey_ha_plugin.Commands.Batch.{Item, entry_of}
use staykey_ha_plugin.Commands.Batch.Concurrent.{
  Task, waiting, running, returned, raised, task_of, gather, Turn, acquire, pause, release, Step,
  here, there, Reach, start, next, meanwhile,
}

abbrev at_work : {T : Type 0} → Task T → ℕ
at_work (running i t) = 1
at_work _ = 0

unfoldable pub running_count : {T : Type 0} → List (Task T) → ℕ
running_count [] = 0
running_count (t ∷ ts) = at_work t + running_count ts

at_work-task_of : (T : Type 0) (cmd : Value) → at_work {T = T} (task_of cmd) ≡ 0
at_work-task_of T (obj cmd) = refl
at_work-task_of T _ = refl

running_count-map : (T : Type 0) (cmds : List Value) → running_count {T = T} (map task_of cmds) ≡ 0
unfolding running_count
running_count-map T [] = refl
running_count-map T (cmd ∷ cmds) = omega (arith, at_work-task_of T cmd, running_count-map T cmds)

module _ {T S : Type 0} (command_handler : String → Value → T)
    (resume : T → S → Resumed T Value × S) where
  Turn-slots :
      {t t' : Task T} {free free' : ℕ} {s s' : S}
      → Turn command_handler resume t free s t' free' s'
      → at_work t + free ≡ at_work t' + free'
  Turn-slots (acquire i free s) = omega arith
  Turn-slots (pause i t t' free s s' e) = refl
  Turn-slots (release i t r free s s' e) = omega arith

  Step-slots :
      {ts ts' : List (Task T)} {free free' : ℕ} {s s' : S}
      → Step command_handler resume ts free s ts' free' s'
      → running_count ts + free ≡ running_count ts' + free'
  unfolding running_count
  Step-slots (here ts turn) = omega (arith, Turn-slots turn)
  Step-slots (there t step) = omega (arith, Step-slots step)

  -- However the commands of a batch take turns: those that run and the slots that are free are as many
  -- as the slots that there are, so that no more commands run at once.
  pub Reach-slots :
      {slots : ℕ} {cmds : List Value} {ts : List (Task T)} {free : ℕ} {s : S}
      → Reach command_handler resume slots cmds ts free s
      → running_count ts + free ≡ slots
  Reach-slots {cmds = cmds} (start s) = omega (arith, running_count-map T cmds)
  Reach-slots (next reach step) = omega (arith, Step-slots step, Reach-slots reach)
  Reach-slots (meanwhile s' reach) = Reach-slots reach

  -- A task that runs has a next turn.
  abbrev pub GoesOn : List (Task T) → ℕ → S → Type 0
  GoesOn ts free s =
      (ts' : List (Task T)) × (free' : ℕ) × (s' : S) × Step command_handler resume ts free s ts'
        free' s'

  GoesOn-there :
      (t : Task T) (ts : List (Task T)) (free : ℕ) (s : S)
      → GoesOn ts free s
      → GoesOn (t ∷ ts) free s
  GoesOn-there t ts free s (ts', free', s', step) = (t ∷ ts', free', s', there t step)

  running-GoesOn :
      (i : Item) (t : T) (ts : List (Task T)) (free : ℕ) (s : S) → GoesOn (running i t ∷ ts) free s
  running-GoesOn i t ts free s = by_result (resume t s) refl
    where
      by_result : (r : Resumed T Value × S) → resume t s ≡ r → GoesOn (running i t ∷ ts) free s
      by_result (suspended t', s') e =
          (running i t' ∷ ts, free, s', here ts (pause i t t' free s s' e))
      by_result (ended r, s') e =
          (returned (entry_of i r) ∷ ts, suc free, s', here ts (release i t r free s s' e))

  at_work-GoesOn : (ts : List (Task T)) (free : ℕ) (s : S) → 1 ≤ running_count ts → GoesOn ts free s
  unfolding running_count
  at_work-GoesOn [] free s h = absurd (omega (arith, h))
  at_work-GoesOn (running i t ∷ ts) free s h = running-GoesOn i t ts free s
  at_work-GoesOn (waiting i ∷ ts) free s h =
      GoesOn-there (waiting i) ts free s (at_work-GoesOn ts free s (omega (arith, h)))
  at_work-GoesOn (returned r ∷ ts) free s h =
      GoesOn-there (returned r) ts free s (at_work-GoesOn ts free s (omega (arith, h)))
  at_work-GoesOn (raised ∷ ts) free s h =
      GoesOn-there raised ts free s (at_work-GoesOn ts free s (omega (arith, h)))

  unfinished-rest :
      (r : Fields) (ts : List (Task T)) → gather (returned r ∷ ts) ≡ none → gather ts ≡ none
  unfolding gather
  unfinished-rest r ts h = ground (arith, h)

  -- While no task has raised, a batch that is not done has a task before its end.
  free-GoesOn : (ts : List (Task T)) (free : ℕ) (s : S) → gather ts ≡ none → GoesOn ts (suc free) s
  unfolding gather
  free-GoesOn [] free s h = absurd (ground (arith, h))
  free-GoesOn (waiting i ∷ ts) free s h = (_, free, s, here ts (acquire i free s))
  free-GoesOn (running i t ∷ ts) free s h = running-GoesOn i t ts (suc free) s
  free-GoesOn (raised ∷ ts) free s h = absurd (ground (arith, h))
  free-GoesOn (returned r ∷ ts) free s h =
      GoesOn-there (returned r) ts (suc free) s (free-GoesOn ts free s (unfinished-rest r ts h))

  -- However the commands of a batch with at least one slot take turns: as long as it has no results and
  -- no exception, one of them can take another turn, so that none waits for ever on the semaphore.
  pub Reach-GoesOn :
      {slots : ℕ} {cmds : List Value} {ts : List (Task T)} {free : ℕ} {s : S}
      → Reach command_handler resume slots cmds ts free s
      → 1 ≤ slots
      → gather ts ≡ none
      → GoesOn ts free s
  Reach-GoesOn {ts = ts} {free = zero} {s = s} reach some_slot unfinished =
      at_work-GoesOn ts 0 s (omega (arith, Reach-slots reach))
  Reach-GoesOn {ts = ts} {free = suc free} {s = s} reach some_slot unfinished =
      free-GoesOn ts free s unfinished
