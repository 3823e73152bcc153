-- ===== src/Commands/Batch/Concurrent/InOrder.antt =====
-- The commands of a batch one after the other, as one of the ways that they take turns
-- (handlers/batch.py).
use staykey_ha_plugin.Prelude.{
  ℕ, suc, ◌≡◌, refl, ap, sym, subst, String, Option, none, some, List, [], ◌∷◌, map, arith,
}
use staykey_ha_plugin.Python.Exec.{Result, ok, err}
use staykey_ha_plugin.Python.Coroutine.{Resumed, suspended, ended}
use staykey_ha_plugin.Python.Value.{Value, obj, Fields}
use staykey_ha_plugin.Commands.Batch.{Run, Item, item_of, entry_of, prepend, then_rest, run_items}
use staykey_ha_plugin.Commands.Batch.Concurrent.{
  Task, running, returned, task_of, acquire, pause, release, Step, here, there,
}

prepend-ok :
    {S : Type 0} (entry : Fields) (p : Option (Result (List Fields)) × S) (entries : List Fields)
    (s' : S)
    → prepend entry p ≡ (some (ok entries), s')
    → (es : List Fields) × (p ≡ (some (ok es), s')) × (entries ≡ entry ∷ es)
prepend-ok entry (some (ok es), s) entries s' e = (es, ground (arith, e), ground (arith, e))
prepend-ok entry (some (err x), s) entries s' e = absurd (ground (arith, e))
prepend-ok entry (none, s) entries s' e = absurd (ground (arith, e))

-- A command and the rest of the batch that give results.
then_rest-ok :
    {S : Type 0} (i : Item) (o : Option (Result Value))
    (rest : S → Option (Result (List Fields)) × S) (s : S) (entries : List Fields) (s' : S)
    → then_rest i o rest s ≡ (some (ok entries), s')
    → (r : Result Value) × (es : List Fields) × (o ≡ some r)
      × (rest s ≡ (some (ok es), s'))
      × (entries ≡ entry_of i r ∷ es)
then_rest-ok i none rest s entries s' e = absurd (ground (arith, e))
then_rest-ok i (some r) rest s entries s' e =
    let (es, is_rest, is_entries) = prepend-ok (entry_of i r) (rest s) entries s' e in
    (r, es, refl, is_rest, is_entries)

module _ {T S : Type 0} (command_handler : String → Value → T)
    (resume : T → S → Resumed T Value × S) where
  -- A coroutine that nothing comes in between ends so.
  pub data Ends : T → S → Result Value → S → Type 0 where
    at_once :
        (t : T) (s : S) (r : Result Value) (s' : S) → resume t s ≡ (ended r, s') → Ends t s r s'
    later :
        (t t' : T) (s s' : S) (r : Result Value) (s'' : S)
        → resume t s ≡ (suspended t', s')
        → Ends t' s' r s''
        → Ends t s r s''

  -- Turns, one after the other.
  pub data Steps : List (Task T) → ℕ → S → List (Task T) → ℕ → S → Type 0 where
    no_more : (ts : List (Task T)) (free : ℕ) (s : S) → Steps ts free s ts free s
    step_and :
        {ts us vs : List (Task T)} {free free' free'' : ℕ} {s s' s'' : S}
        → Step command_handler resume ts free s us free' s'
        → Steps us free' s' vs free'' s''
        → Steps ts free s vs free'' s''

  Steps-there :
      {ts us : List (Task T)} {free free' : ℕ} {s s' : S} (t : Task T)
      → Steps ts free s us free' s'
      → Steps (t ∷ ts) free s (t ∷ us) free' s'
  Steps-there t (no_more ts free s) = no_more (t ∷ ts) free s
  Steps-there t (step_and step steps) = step_and (there t step) (Steps-there t steps)

  -- A coroutine that runs to its end, and the steps after it.
  Ends-Steps :
      {t : T} {s : S} {r : Result Value} {s' : S} (i : Item) (free : ℕ) (ts us : List (Task T))
      (free' : ℕ) (s'' : S)
      → Ends t s r s'
      → Steps (returned (entry_of i r) ∷ ts) (suc free) s' us free' s''
      → Steps (running i t ∷ ts) free s us free' s''
  Ends-Steps i free ts us free' s'' (at_once t s r s' e) steps =
      step_and (here ts (release i t r free s s' e)) steps
  Ends-Steps i free ts us free' s'' (later t t' s s' r s1 e ends) steps =
      step_and (here ts (pause i t t' free s s' e)) (Ends-Steps i free ts us free' s'' ends steps)

  module _ (handle : String → Value → Run S Value)
      (performs : (action : String) (params : Value) (s : S) (r : Result Value) (s' : S)
        → handle action params s ≡ (some r, s')
        → Ends (command_handler action params) s r s') where
    -- If each command, left alone, does what the handler of the sequential batch does: the commands run
    -- in their order, one to its end before the next begins, is a way that they may take turns, with
    -- any number of slots but 0. It ends with the results of the sequential batch and with its state.
    pub run_items-Steps :
        (cmds : List Value) (n : ℕ) (s : S) (entries : List Fields) (s' : S)
        → run_items handle cmds s ≡ (some (ok entries), s')
        → Steps (map task_of cmds) (suc n) s (map returned entries) (suc n) s'
    unfolding run_items
    run_items-Steps [] n s entries s' e =
        let is_entries : entries ≡ [] = ground (arith, e) in
        let is_state : s' ≡ s = ground (arith, e) in
        subst (λ u. Steps [] (suc n) s (map returned entries) (suc n) u) (sym is_state)
          (subst (λ es. Steps [] (suc n) s (map returned es) (suc n) s) (sym is_entries)
            (no_more [] (suc n) s))
    run_items-Steps (obj cmd ∷ cmds) n s entries s' e =
        let i = item_of cmd in
        let (o, s1) = handle i.action i.params s in
        let (r, es, is_r, rest, is_entries) =
          then_rest-ok i o (run_items handle cmds) s1 entries s' e in
        let alone = performs i.action i.params s r s1 (ap (λ x. (x, s1)) is_r) in
        let others = Steps-there (returned (entry_of i r)) (run_items-Steps cmds n s1 es s' rest) in
        subst (λ xs. Steps (map task_of (obj cmd ∷ cmds)) (suc n) s (map returned xs) (suc n) s')
          (sym is_entries)
          (step_and (here (map task_of cmds) (acquire i n s)) (
            Ends-Steps i n (map task_of cmds) (map returned (entry_of i r ∷ es)) (suc n) s' alone
              others))
    run_items-Steps (_ ∷ cmds) n s entries s' e = absurd (ground (arith, e))
