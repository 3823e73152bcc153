-- ===== src/Commands/Batch/Counts.antt =====
-- What a batch answers (handlers/batch.py).
use staykey_ha_plugin.Prelude.{
  ℕ, suc, ◌+◌, String, ◌≡◌, refl, ap, ◌∙◌, Option, none, some, List, [], ◌∷◌, arith, length,
  Bool-cases, inl, inr, eqb,
}
use staykey_ha_plugin.Python.Exec.{Result, ok, err}
use staykey_ha_plugin.Python.Int.{ℤ, pos, negsuc}
use staykey_ha_plugin.Python.Value.{Value, null, obj, Fields, get}
use staykey_ha_plugin.Commands.Batch.{
  Run, Item, item_of, entry_of, count_status, summary, prepend, then_rest, summed, commands_of,
  given_params, run_items, run_blocked, run_with, run_if_any, handle_batch, max_concurrency,
}

-- Every result is an "ok" or an "error", and none is both.
count-entry_of :
    (i : Item) (r : Result Value) (rs : List Fields)
    → count_status "ok" (entry_of i r ∷ rs) + count_status "error" (entry_of i r ∷ rs)
      ≡ suc (count_status "ok" rs + count_status "error" rs)
unfolding count_status get
count-entry_of i (ok v) rs = omega arith
count-entry_of i (err e) rs = omega arith

-- The results of a batch of so many commands: one for each, each a success or a failure.
abbrev pub AreCounted : ℕ → List Fields → Type 0
AreCounted n rs = (length rs ≡ n) × (count_status "ok" rs + count_status "error" rs ≡ n)

abbrev EndsCounted : {S : Type 0} → ℕ → Option (Result (List Fields)) × S → Type 0
EndsCounted n (some (ok rs), s) = AreCounted n rs
EndsCounted n _ = Unit

EndsCounted-prepend :
    {S : Type 0} (n : ℕ) (i : Item) (r : Result Value) (p : Option (Result (List Fields)) × S)
    → EndsCounted n p
    → EndsCounted (suc n) (prepend (entry_of i r) p)
EndsCounted-prepend n i r (some (ok rs), s') h = (ap suc h.0, count-entry_of i r rs ∙ ap suc h.1)
EndsCounted-prepend n i r (some (err e), s') h = tt
EndsCounted-prepend n i r (none, s') h = tt

EndsCounted-then_rest :
    {S : Type 0} (n : ℕ) (i : Item) (r : Option (Result Value))
    (rest : S → Option (Result (List Fields)) × S) (s : S)
    → EndsCounted n (rest s)
    → EndsCounted (suc n) (then_rest i r rest s)
EndsCounted-then_rest n i none rest s h = tt
EndsCounted-then_rest n i (some r) rest s h = EndsCounted-prepend n i r (rest s) h

-- What a batch answers: the summary of its counted results.
abbrev pub AnswersCounted : {S : Type 0} → ℕ → Option (Result Value) × S → Type 0
AnswersCounted n (some (ok v), s) = (rs : List Fields) × (v ≡ summary rs) × AreCounted n rs
AnswersCounted n _ = Unit

AnswersCounted-summed :
    {S : Type 0} (n : ℕ) (p : Option (Result (List Fields)) × S)
    → EndsCounted n p
    → AnswersCounted n (summed p)
AnswersCounted-summed n (some (ok rs), s) h = (rs, refl, h)
AnswersCounted-summed n (some (err e), s) h = tt
AnswersCounted-summed n (none, s) h = tt

blocked-EndsCounted :
    {S : Type 0} (cmds : List Value) (s : S) → EndsCounted (length cmds) (run_blocked cmds, s)
unfolding run_blocked
blocked-EndsCounted [] s = unfold count_status in (refl, omega arith)
blocked-EndsCounted {S = S} (obj cmd ∷ cmds) s = by_rest (run_blocked cmds)
  where
    by_rest :
        (r : Option (Result (List Fields)))
        → EndsCounted {S = S}
            (suc (length cmds))
            (elim r [ some (err e) ↦ some (err e) | _ ↦ none ], s)
    by_rest none = tt
    by_rest (some (ok rs)) = tt
    by_rest (some (err e)) = tt
blocked-EndsCounted (null ∷ cmds) s = tt
blocked-EndsCounted (_ ∷ cmds) s = tt

module _ {S : Type 0} (command_handler : String → Value → Run S Value) where
  run_items-EndsCounted :
      (cmds : List Value) (s : S) → EndsCounted (length cmds) (run_items command_handler cmds s)
  unfolding run_items
  run_items-EndsCounted [] s = unfold count_status in (refl, omega arith)
  run_items-EndsCounted (obj cmd ∷ cmds) s =
      let i = item_of cmd in
      let (r, s') = command_handler i.action i.params s in
      EndsCounted-then_rest (length cmds) i r (run_items command_handler cmds) s'
        (run_items-EndsCounted cmds s')
  run_items-EndsCounted (null ∷ cmds) s = tt
  run_items-EndsCounted (_ ∷ cmds) s = tt

  run_with-AnswersCounted :
      (n : ℤ) (cmds : List Value) (s : S)
      → AnswersCounted (length cmds) (run_with command_handler n cmds s)
  unfolding run_with
  run_with-AnswersCounted (negsuc n) cmds s = tt
  run_with-AnswersCounted (pos n) cmds s = elim (Bool-cases (eqb n 0)) [
    | inl none_at_once ↦
        rw (none_at_once, run_with)
          (AnswersCounted-summed (length cmds) (run_blocked cmds, s) (blocked-EndsCounted cmds s))
    | inr some_at_once ↦
        rw (some_at_once, run_with)
          (AnswersCounted-summed (length cmds) (run_items command_handler cmds s)
            (run_items-EndsCounted cmds s))
  ]

  run_if_any-AnswersCounted :
      (cmds : List Value) (params : Fields) (s : S)
      → AnswersCounted (length cmds) (run_if_any command_handler cmds params s)
  run_if_any-AnswersCounted [] params s = tt
  run_if_any-AnswersCounted (c ∷ cs) params s =
      at_slots (max_concurrency (get "max_concurrency" params)) refl
    where
      at_slots :
          (m : Result ℤ)
          → max_concurrency (get "max_concurrency" params) ≡ m
          → AnswersCounted (length (c ∷ cs)) (run_if_any command_handler (c ∷ cs) params s)
      at_slots (ok n) e = rw (e, run_if_any) (run_with-AnswersCounted n (c ∷ cs) s)
      at_slots (err x) e = rw (e, run_if_any) tt

  -- A batch that returns a result returns the summary of one result for each of its commands, each a
  -- success or a failure, so `succeeded` and `failed` add up to `total`.
  handle_batch-AnswersCounted :
      (params : Value) (s : S)
      → AnswersCounted
          (length (commands_of (get "commands" (given_params params))))
          (handle_batch command_handler params s)
  unfolding handle_batch
  handle_batch-AnswersCounted params s =
      run_if_any-AnswersCounted (commands_of (get "commands" (given_params params)))
        (given_params params) s
