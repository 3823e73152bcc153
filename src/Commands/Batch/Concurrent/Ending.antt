-- ===== src/Commands/Batch/Concurrent/Ending.antt =====
-- The commands of a batch come to an end (handlers/batch.py).
use staykey_ha_plugin.Prelude.{
  ℕ, suc, String, ◌+◌, ◌≤◌, ◌≡◌, ◌⊎◌, inl, inr, refl, Option, none, some, List, [], ◌∷◌, map, arith,
}
use staykey_ha_plugin.Python.Exec.{Result}
use staykey_ha_plugin.Python.Coroutine.{Resumed, suspended}
use staykey_ha_plugin.Python.Value.{Value, Fields}
use staykey_ha_plugin.Commands.Batch.Concurrent.{
  Task, waiting, running, task_of, gather, Turn, acquire, pause, release, Step, here, there, Reach,
  start, next, meanwhile,
}
use staykey_ha_plugin.Commands.Batch.Concurrent.Limit.{GoesOn, Reach-GoesOn}

module _ {T S : Type 0} (command_handler : String → Value → T)
    (resume : T → S → Resumed T Value × S) where
  -- The turns of a run.
  abbrev pub turns :
      {slots : ℕ} {cmds : List Value} {ts : List (Task T)} {free : ℕ} {s : S}
      → Reach command_handler resume slots cmds ts free s
      → ℕ
  turns (start s) = 0
  turns (next reach step) = suc (turns reach)
  turns (meanwhile s' reach) = turns reach

  module _ (left : T → ℕ) where
    -- The turns that a task has left at most, for coroutines that have at most `left` suspensions left.
    abbrev pub left_of : Task T → ℕ
    left_of (waiting i) = 2 + left (command_handler i.action i.params)
    left_of (running i t) = 1 + left t
    left_of _ = 0

    abbrev pub all_left : List (Task T) → ℕ
    all_left [] = 0
    all_left (t ∷ ts) = left_of t + all_left ts

    module _
        (suspends : (t t' : T) (s s' : S)
          → resume t s ≡ (suspended t', s')
          → suc (left t') ≤ left t) where
      Turn-left :
          {t t' : Task T} {free free' : ℕ} {s s' : S}
          → Turn command_handler resume t free s t' free' s'
          → suc (left_of t') ≤ left_of t
      Turn-left (acquire i free s) = omega arith
      Turn-left (pause i t t' free s s' e) = omega (arith, suspends t t' s s' e)
      Turn-left (release i t r free s s' e) = omega arith

      Step-left :
          {ts ts' : List (Task T)} {free free' : ℕ} {s s' : S}
          → Step command_handler resume ts free s ts' free' s'
          → suc (all_left ts') ≤ all_left ts
      Step-left (here ts turn) = omega (arith, Turn-left turn)
      Step-left (there t step) = omega (arith, Step-left step)

      Reach-left :
          {slots : ℕ} {cmds : List Value} {ts : List (Task T)} {free : ℕ} {s : S}
          (reach : Reach command_handler resume slots cmds ts free s)
          → turns reach + all_left ts ≤ all_left (map task_of cmds)
      Reach-left (start s) = omega arith
      Reach-left (next reach step) = omega (arith, Step-left step, Reach-left reach)
      Reach-left (meanwhile s' reach) = Reach-left reach

      -- A batch with at least one slot neither goes on for ever nor gets stuck, if `left` bounds how
      -- often each coroutine still suspends: the turns that are taken and those that are left come to no
      -- more than, for each command, two and the suspensions of its coroutine; and at every point the
      -- batch has its results or an exception, or some command can take its next turn.
      pub Reach-ends :
          {slots : ℕ} {cmds : List Value} {ts : List (Task T)} {free : ℕ} {s : S}
          (reach : Reach command_handler resume slots cmds ts free s)
          → 1 ≤ slots
          → (turns reach + all_left ts ≤ all_left (map task_of cmds))
            × (((r : Result (List Fields)) × (gather ts ≡ some r))
                ⊎ GoesOn command_handler resume ts free s)
      Reach-ends {ts = ts} {free = free} {s = s} reach some_slot =
          (Reach-left reach, by_gather (gather ts) refl)
        where
          by_gather :
              (g : Option (Result (List Fields)))
              → gather ts ≡ g
              → ((r : Result (List Fields)) × (gather ts ≡ some r))
                ⊎ GoesOn command_handler resume ts free s
          by_gather none e = inr (Reach-GoesOn command_handler resume reach some_slot e)
          by_gather (some r) e = inl (r, e)
