-- ===== src/Commands/Batch/Concurrent/Results.antt =====
-- What a batch answers whose commands take turns (handlers/batch.py).
use staykey_ha_plugin.Prelude.{
  ℕ, ◌≡◌, refl, ap, sym, subst, String, Option, none, some, List, [], ◌∷◌, ◌∙◌, map, arith,
}
use staykey_ha_plugin.Python.Exec.{Result, ok, err}
use staykey_ha_plugin.Python.Exec.Words.{words_of, words_of-exception_text}
use staykey_ha_plugin.Python.Coroutine.{Resumed, suspended, ended}
use staykey_ha_plugin.Python.Value.{Value, null, str, obj, Fields, end, field, get}
use staykey_ha_plugin.Commands.Batch.{Item, item_of, entry_of}
use staykey_ha_plugin.Commands.Batch.Concurrent.{
  Task, waiting, running, returned, raised, task_of, gather, Turn, acquire, pause, release, Step,
  here, there, Reach, start, next, meanwhile,
}

-- What a command asks for: its action, its ID, which is the action where none is given, and its
-- parameters, which are empty where none are given.
abbrev pub action_in : Fields → String
action_in cmd = elim (get "action" cmd) [ some (str s) ↦ s | _ ↦ "" ]

abbrev pub id_in : Fields → Value
id_in cmd = elim (get "id" cmd) [ none ↦ str (action_in cmd) | some id ↦ id ]

abbrev pub params_in : Fields → Value
params_in cmd = elim (get "params" cmd) [ none ↦ obj end | some params ↦ params ]

-- The result of a command that came to `r`.
abbrev pub result_in : Fields → Result Value → Fields
result_in cmd (ok result) =
    field "id" (id_in cmd)
      (field "action" (str (action_in cmd)) (field "status" (str "ok") (field "data" result end)))
result_in cmd (err e) = field "id" (id_in cmd) (
    field "action" (str (action_in cmd)) (
      field "status" (str "error") (
        field "error"
          (obj (field "code" (str "command_failed") (field "message" (str (words_of e)) end)))
          end)))

entry_of-result_in : (cmd : Fields) (r : Result Value) → entry_of (item_of cmd) r ≡ result_in cmd r
unfolding item_of
entry_of-result_in cmd (ok result) = refl
entry_of-result_in cmd (err e) = rw (words_of-exception_text e) refl

gather-returned :
    {T : Type 0} (r : Fields) (ts : List (Task T)) (entries : List Fields)
    → gather (returned r ∷ ts) ≡ some (ok entries)
    → (rest : List Fields) × (gather ts ≡ some (ok rest)) × (entries ≡ r ∷ rest)
unfolding gather
gather-returned r ts entries e = by_rest (gather ts) refl
  where
    by_rest :
        (g : Option (Result (List Fields)))
        → gather ts ≡ g
        → (rest : List Fields) × (gather ts ≡ some (ok rest)) × (entries ≡ r ∷ rest)
    by_rest (some (ok rest)) f = (rest, f, ground (arith, e, f))
    by_rest (some (err x)) f = absurd (ground (arith, e, f))
    by_rest none f = absurd (ground (arith, e, f))

module _ {T S : Type 0} (command_handler : String → Value → T)
    (resume : T → S → Resumed T Value × S) where
  -- The coroutines that a coroutine becomes, in whatever states it is resumed.
  pub data Leads (t0 : T) : T → Type 0 where
    begun : Leads t0 t0
    resumed : {t t' : T} (s s' : S) → Leads t0 t → resume t s ≡ (suspended t', s') → Leads t0 t'

  -- What a command may end with: a result, or the exception it raises.
  abbrev pub ComesTo : Fields → Result Value → Type 0
  ComesTo cmd r =
      (t : T) × (s : S) × (s' : S) × Leads (command_handler (action_in cmd) (params_in cmd)) t
      × (resume t s ≡ (ended r, s'))

  -- One result for each command, in their order, which holds what the command came to.
  abbrev pub AreResults : List Value → List Fields → Type 0
  AreResults [] [] = Unit
  AreResults [] (entry ∷ entries) = ⊥
  AreResults (cmd ∷ cmds) [] = ⊥
  AreResults (cmd ∷ cmds) (entry ∷ entries) =
      ((d : Fields) × (r : Result Value) × (cmd ≡ obj d) × ComesTo d r × (entry ≡ result_in d r))
      × AreResults cmds entries

  -- A task that stands for a command: an object that is yet to run, that runs, or that has its result.
  abbrev IsFor : Value → Task T → Type 0
  IsFor cmd (waiting i) = (d : Fields) × (cmd ≡ obj d) × (i ≡ item_of d)
  IsFor cmd (running i t) =
      (d : Fields) × (cmd ≡ obj d)
      × (i ≡ item_of d)
      × Leads (command_handler (action_in d) (params_in d)) t
  IsFor cmd (returned entry) =
      (d : Fields) × (r : Result Value) × (cmd ≡ obj d) × ComesTo d r × (entry ≡ result_in d r)
  IsFor cmd raised = Unit

  abbrev AreFor : List Value → List (Task T) → Type 0
  AreFor [] [] = Unit
  AreFor [] (t ∷ ts) = ⊥
  AreFor (cmd ∷ cmds) [] = ⊥
  AreFor (cmd ∷ cmds) (t ∷ ts) = IsFor cmd t × AreFor cmds ts

  IsFor-task_of : (cmd : Value) → IsFor cmd (task_of cmd)
  IsFor-task_of (obj d) = (d, refl, refl)
  IsFor-task_of null = tt
  IsFor-task_of _ = tt

  AreFor-map : (cmds : List Value) → AreFor cmds (map task_of cmds)
  AreFor-map [] = tt
  AreFor-map (cmd ∷ cmds) = (IsFor-task_of cmd, AreFor-map cmds)

  AreResults-gather :
      (cmds : List Value) (ts : List (Task T)) (entries : List Fields)
      → AreFor cmds ts
      → gather ts ≡ some (ok entries)
      → AreResults cmds entries
  unfolding gather
  AreResults-gather [] [] [] h e = tt
  AreResults-gather [] [] (entry ∷ entries) h e = absurd (ground (arith, e))
  AreResults-gather [] (t ∷ ts) entries h e = absurd h
  AreResults-gather (cmd ∷ cmds) [] entries h e = absurd h
  AreResults-gather (cmd ∷ cmds) (returned r ∷ ts) entries h e =
      let (rest, f, is_entries) = gather-returned r ts entries e in
      subst (AreResults (cmd ∷ cmds)) (sym is_entries) (h.0, AreResults-gather cmds ts rest h.1 f)
  AreResults-gather (cmd ∷ cmds) (raised ∷ ts) entries h e = absurd (ground (arith, e))
  AreResults-gather (cmd ∷ cmds) (waiting i ∷ ts) entries h e = absurd (ground (arith, e))
  AreResults-gather (cmd ∷ cmds) (running i t ∷ ts) entries h e = absurd (ground (arith, e))

  begun-item_of :
      (d : Fields) (i : Item)
      → i ≡ item_of d
      → Leads (command_handler (action_in d) (params_in d)) (command_handler i.action i.params)
  begun-item_of d i is_i =
      subst
        (λ j.
          Leads (command_handler (action_in d) (params_in d)) (command_handler j.action j.params))
        (sym is_i) (unfold item_of in begun)

  Turn-IsFor :
      {t t' : Task T} {free free' : ℕ} {s s' : S} (cmd : Value)
      → Turn command_handler resume t free s t' free' s'
      → IsFor cmd t
      → IsFor cmd t'
  Turn-IsFor cmd (acquire i free s) (d, is_d, is_i) = (d, is_d, is_i, begun-item_of d i is_i)
  Turn-IsFor cmd (pause i t t' free s s' e) (d, is_d, is_i, leads) =
      (d, is_d, is_i, resumed s s' leads e)
  Turn-IsFor cmd (release i t r free s s' e) (d, is_d, is_i, leads) =
      (d, r, is_d, (t, s, s', leads, e), ap (λ j. entry_of j r) is_i ∙ entry_of-result_in d r)

  Step-AreFor :
      {ts ts' : List (Task T)} {free free' : ℕ} {s s' : S}
      → Step command_handler resume ts free s ts' free' s'
      → (cmds : List Value) → AreFor cmds ts
      → AreFor cmds ts'
  Step-AreFor (here ts turn) [] h = absurd h
  Step-AreFor (there t step) [] h = absurd h
  Step-AreFor (here ts turn) (cmd ∷ cmds) h = (Turn-IsFor cmd turn h.0, h.1)
  Step-AreFor (there t step) (cmd ∷ cmds) h = (h.0, Step-AreFor step cmds h.1)

  Reach-AreFor :
      {slots : ℕ} {cmds : List Value} {ts : List (Task T)} {free : ℕ} {s : S}
      → Reach command_handler resume slots cmds ts free s
      → AreFor cmds ts
  Reach-AreFor {cmds = cmds} (start s) = AreFor-map cmds
  Reach-AreFor {cmds = cmds} (next reach step) = Step-AreFor step cmds (Reach-AreFor reach)
  Reach-AreFor (meanwhile s' reach) = Reach-AreFor reach

  -- However the commands of a batch take turns, and in whatever order they end: if the batch has
  -- results, they are one for each command, in the order of the commands, with the ID and the action
  -- that the command gives. The data are what the coroutine of that command, made of its action and
  -- parameters, returned at its end; if it raised, the entry is an error with the text of the exception.
  pub Reach-AreResults :
      {slots : ℕ} {cmds : List Value} {ts : List (Task T)} {free : ℕ} {s : S}
      {entries : List Fields}
      → Reach command_handler resume slots cmds ts free s
      → gather ts ≡ some (ok entries)
      → AreResults cmds entries
  Reach-AreResults {cmds = cmds} {ts = ts} {entries = entries} reach =
      AreResults-gather cmds ts entries (Reach-AreFor reach)
