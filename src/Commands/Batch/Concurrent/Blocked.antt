-- ===== src/Commands/Batch/Concurrent/Blocked.antt =====
-- A batch whose commands may not run (handlers/batch.py).
use staykey_ha_plugin.Prelude.{
  ℕ, String, ◌≡◌, ◌≢◌, refl, sym, subst, none, some, List, [], ◌∷◌, map, All, arith,
}
use staykey_ha_plugin.Python.Exec.{ok}
use staykey_ha_plugin.Python.Int.{pos}
use staykey_ha_plugin.Python.Coroutine.{Resumed}
use staykey_ha_plugin.Python.Value.{Value, null, int, obj, Fields, get}
use staykey_ha_plugin.Commands.Batch.{run_blocked, max_concurrency}
use staykey_ha_plugin.Commands.Batch.Concurrent.{
  Task, waiting, running, returned, raised, task_of, gather, acquire, pause, release, Step, here,
  there, Reach, start, next, meanwhile,
}

-- A command that is an object.
abbrev pub IsObject : Value → Type 0
IsObject v = (d : Fields) × (v ≡ obj d)

-- A task that waits.
abbrev IsWaiting : {T : Type 0} → Task T → Type 0
IsWaiting (waiting i) = Unit
IsWaiting _ = ⊥

IsWaiting-task_of : (T : Type 0) (cmd : Value) → IsObject cmd → IsWaiting {T = T} (task_of cmd)
IsWaiting-task_of T cmd (d, is) = subst (λ v. IsWaiting {T = T} (task_of v)) (sym is) tt

IsWaiting-map :
    (T : Type 0) (cmds : List Value)
    → All IsObject cmds
    → All (IsWaiting {T = T}) (map task_of cmds)
IsWaiting-map T [] h = tt
IsWaiting-map T (cmd ∷ cmds) h = (IsWaiting-task_of T cmd h.0, IsWaiting-map T cmds h.1)

-- What the tasks of the commands have come to before any turn is what a batch without a slot answers.
run_blocked-gather :
    (T : Type 0) (cmds : List Value) → run_blocked cmds ≡ gather {T = T} (map task_of cmds)
unfolding run_blocked gather
run_blocked-gather T [] = refl
run_blocked-gather T (obj cmd ∷ cmds) = rw (run_blocked-gather T cmds) refl
run_blocked-gather T (null ∷ cmds) = refl
run_blocked-gather T (_ ∷ cmds) = refl

-- Tasks that all wait have no results.
gather-waiting :
    {T : Type 0} (t : Task T) (ts : List (Task T)) → All IsWaiting (t ∷ ts) → gather (t ∷ ts) ≡ none
unfolding gather
gather-waiting (waiting i) [] h = refl
gather-waiting (waiting i) (u ∷ ts) h = rw (gather-waiting u ts h.1) refl
gather-waiting (running i t) ts h = absurd h.0
gather-waiting (returned r) ts h = absurd h.0
gather-waiting raised ts h = absurd h.0

module _ {T S : Type 0} (command_handler : String → Value → T)
    (resume : T → S → Resumed T Value × S) where
  -- Without a slot, tasks that wait take no turn.
  Step-stuck :
      {ts ts' : List (Task T)} {free free' : ℕ} {s s' : S}
      → Step command_handler resume ts free s ts' free' s'
      → free ≡ 0
      → All IsWaiting ts
      → ⊥
  Step-stuck (here ts (acquire i free s)) no_slot h = absurd (ground (arith, no_slot))
  Step-stuck (here ts (pause i t t' free s s' e)) no_slot h = h.0
  Step-stuck (here ts (release i t r free s s' e)) no_slot h = h.0
  Step-stuck (there t step) no_slot h = Step-stuck step no_slot h.1

  Reach-stuck :
      {slots : ℕ} {cmds : List Value} {ts : List (Task T)} {free : ℕ} {s : S}
      → Reach command_handler resume slots cmds ts free s
      → slots ≡ 0
      → All IsObject cmds
      → (free ≡ 0) × (ts ≡ map task_of cmds)
  Reach-stuck (start s) no_slot objects = (no_slot, refl)
  Reach-stuck {cmds = cmds} (next reach step) no_slot objects =
      let (none_free, same) = Reach-stuck reach no_slot objects in
      absurd (
        Step-stuck step none_free (subst (All IsWaiting) (sym same) (IsWaiting-map T cmds objects)))
  Reach-stuck (meanwhile s' reach) no_slot objects = Reach-stuck reach no_slot objects

  -- With `max_concurrency` 0, a batch of at least one command, all of which are objects, never has
  -- results or an exception, and none of its commands ever runs.
  pub Reach-blocked :
      {slots : ℕ} {cmds : List Value} {ts : List (Task T)} {free : ℕ} {s : S} (params : Fields)
      → get "max_concurrency" params ≡ some (int (pos 0))
      → max_concurrency (get "max_concurrency" params) ≡ ok (pos slots)
      → cmds ≢ []
      → All IsObject cmds
      → Reach command_handler resume slots cmds ts free s
      → (gather ts ≡ none) × (ts ≡ map task_of cmds)
  Reach-blocked {slots = slots} {cmds = cmds} {ts = ts} params zero_asked is_slots some_command
        objects reach =
      let at_zero : max_concurrency (get "max_concurrency" params) ≡ ok (pos 0) =
        unfold max_concurrency in rw zero_asked refl in
      let no_slot : slots ≡ 0 = ground (arith, at_zero, is_slots) in
      let (none_free, same) = Reach-stuck reach no_slot objects in
      (subst (λ us. gather us ≡ none) (sym same) (unfinished cmds some_command objects), same)
    where
      unfinished :
          (cs : List Value) → cs ≢ [] → All IsObject cs → gather {T = T} (map task_of cs) ≡ none
      unfinished [] some_command objects = absurd (some_command refl)
      unfinished (c ∷ cs) some_command objects =
          gather-waiting (task_of c) (map task_of cs) (IsWaiting-map T (c ∷ cs) objects)
