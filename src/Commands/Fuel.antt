-- ===== src/Commands/Fuel.antt =====
-- The bound on how deep batches stand in batches (services/ha_bridge.py): it is no limit
-- once it exceeds the depth of the parameters.
use staykey_ha_plugin.Prelude.{
  ℕ, zero, suc, ◌<◌, ◌≤◌, String, ◌≡◌, refl, ap, Bool, false, Option, none, some, List, [], ◌∷◌,
  arith, All, Bool-cases, inl, inr, ltb, if◌then◌else◌, ◌==◌,
}
use staykey_ha_plugin.Python.Exec.{Exec, Result, ok, err}
use staykey_ha_plugin.Python.Int.{ℤ, pos, negsuc}
use staykey_ha_plugin.Python.Value.{
  Value, null, arr, obj, Items, nil, cons, Fields, end, field, items, get, truthy,
}
use staykey_ha_plugin.Commands.Batch.{
  Run, Item, item_of, entry_of, prepend, then_rest, commands_of, run_items, run_with, run_if_any,
  handle_batch, max_concurrency,
}
use staykey_ha_plugin.Commands.{Call, Route, to_handler, to_batch, unknown, route, handle_command}

unfoldable pub max_ℕ : ℕ → ℕ → ℕ
max_ℕ m n = if ltb m n then n else m

max_ℕ-bounds : (m n : ℕ) → (m ≤ max_ℕ m n) × (n ≤ max_ℕ m n)
unfolding max_ℕ
max_ℕ-bounds m n = (ground arith, ground arith)

-- How deep lists and objects stand in each other.
unfoldable mutual
  pub depth : Value → ℕ
  depth (arr vs) = suc (items_depth vs)
  depth (obj d) = suc (fields_depth d)
  depth _ = 0

  pub items_depth : Items → ℕ
  items_depth nil = 0
  items_depth (cons v vs) = max_ℕ (depth v) (items_depth vs)

  pub fields_depth : Fields → ℕ
  fields_depth end = 0
  fields_depth (field k v d) = max_ℕ (depth v) (fields_depth d)

All-items_depth :
    (vs : Items) (n : ℕ) → items_depth vs ≤ n → All (λ v. suc (depth v) ≤ suc n) (items vs)
unfolding items_depth
All-items_depth nil n h = tt
All-items_depth (cons v vs) n h =
    let (first, rest) = max_ℕ-bounds (depth v) (items_depth vs) in
    (omega arith, All-items_depth vs n (omega arith))

abbrev IsShallow : ℕ → Option Value → Type 0
IsShallow n none = Unit
IsShallow n (some v) = depth v ≤ n

IsShallow-weaken : (v : Option Value) (m n : ℕ) → m ≤ n → IsShallow m v → IsShallow n v
IsShallow-weaken none m n le h = tt
IsShallow-weaken (some v) m n le h = omega arith

IsShallow-get : (k : String) (d : Fields) → IsShallow (fields_depth d) (get k d)
unfolding get fields_depth
IsShallow-get k end = tt
IsShallow-get k (field j w d) = elim (Bool-cases (j == k)) [
  | inl here ↦ rw (here, get) (max_ℕ-bounds (depth w) (fields_depth d)).0
  | inr there ↦
      rw (there, get)
        (IsShallow-weaken (get k d) (fields_depth d) (fields_depth (field j w d))
          (max_ℕ-bounds (depth w) (fields_depth d)).1 (IsShallow-get k d))
]

-- A command's parameters are at most as deep as the command.
depth-params : (cmd : Fields) → depth (item_of cmd).params ≤ suc (fields_depth cmd)
unfolding item_of depth
depth-params cmd = from_get (get "params" cmd) (IsShallow-get "params" cmd)
  where
    from_get :
        (v : Option Value)
        → IsShallow (fields_depth cmd) v
        → depth (elim v [ none ↦ obj end | some w ↦ w ]) ≤ suc (fields_depth cmd)
    from_get none h = ground arith
    from_get (some w) h = ground arith

abbrev IsBelow : ℕ → Value → Type 0
IsBelow n v = suc (depth v) ≤ n

-- The commands of a batch are less deep than its parameters.
All-commands_of : (d : Fields) → All (IsBelow (depth (obj d))) (commands_of (get "commands" d))
unfolding depth
All-commands_of d = from_get (get "commands" d) (IsShallow-get "commands" d)
  where
    of_no_list : (v : Value) → All (IsBelow (depth (obj d))) (if truthy v then null ∷ [] else [])
    of_no_list v = elim (Bool-cases (truthy v)) [
      | inl full ↦ rw full (omega arith, tt)
      | inr empty ↦ rw empty tt
    ]

    from_get :
        (v : Option Value)
        → IsShallow (fields_depth d) v
        → All (IsBelow (depth (obj d))) (commands_of v)
    from_get none h = tt
    from_get (some (arr vs)) h = All-items_depth vs (fields_depth d) (omega arith)
    from_get (some v) h = of_no_list v

params-IsBelow : (cmd : Fields) (n : ℕ) → IsBelow n (obj cmd) → depth (item_of cmd).params < n
unfolding depth
params-IsBelow cmd n h = omega (arith, depth-params cmd)

abbrev Ends : Type 0 → Type 0
Ends S = Option (Result (List Fields)) × S

then_rest-eq :
    {S : Type 0} (i : Item) (r : Option (Result Value)) (f g : S → Ends S) (s : S)
    → f s ≡ g s
    → then_rest i r f s ≡ then_rest i r g s
then_rest-eq i none f g s e = refl
then_rest-eq i (some r) f g s e = ap (prepend (entry_of i r)) e

-- Two ways to run a command that agree on parameters that are less deep than a bound.
abbrev Agree :
    {S : Type 0} → (String → Value → Run S Value) → (String → Value → Run S Value) → ℕ → Type 0
Agree {S} f g n =
    (action : String) (params : Value) (s : S)
    → depth params < n
    → f action params s ≡ g action params s

module _ {S : Type 0} (f g : String → Value → Run S Value) (n : ℕ) (agree : Agree f g n) where
  run_items-Agree :
      (cmds : List Value) (s : S) → All (IsBelow n) cmds → run_items f cmds s ≡ run_items g cmds s
  unfolding run_items
  run_items-Agree [] s h = refl
  run_items-Agree (obj cmd ∷ cmds) s (p, h) =
      let i = item_of cmd in
      rw (agree i.action i.params s (params-IsBelow cmd n p)) (
        then_rest-eq i (g i.action i.params s).0 (run_items f cmds) (run_items g cmds)
          (g i.action i.params s).1 (run_items-Agree cmds (g i.action i.params s).1 h))
  run_items-Agree (null ∷ cmds) s h = refl
  run_items-Agree (_ ∷ cmds) s h = refl

  run_with-Agree :
      (m : ℤ) (cmds : List Value) (s : S)
      → All (IsBelow n) cmds
      → run_with f m cmds s ≡ run_with g m cmds s
  unfolding run_with
  run_with-Agree (negsuc m) cmds s h = refl
  run_with-Agree (pos m) cmds s h = rw (run_items-Agree cmds s h) refl

  run_if_any-Agree :
      (cmds : List Value) (d : Fields) (s : S)
      → All (IsBelow n) cmds
      → run_if_any f cmds d s ≡ run_if_any g cmds d s
  run_if_any-Agree [] d s h = refl
  run_if_any-Agree (c ∷ cs) d s h = at_slots (max_concurrency (get "max_concurrency" d)) refl
    where
      at_slots :
          (m : Result ℤ)
          → max_concurrency (get "max_concurrency" d) ≡ m
          → run_if_any f (c ∷ cs) d s ≡ run_if_any g (c ∷ cs) d s
      at_slots (ok m) e = rw (e, run_if_any) (run_with-Agree m (c ∷ cs) s h)
      at_slots (err x) e = rw (e, run_if_any) refl

  handle_batch-Agree :
      (params : Value) (s : S)
      → depth params ≤ n
      → handle_batch f params s ≡ handle_batch g params s
  unfolding handle_batch
  handle_batch-Agree (obj d) s h =
      run_if_any-Agree (commands_of (get "commands" d)) d s
        (All-weaken (commands_of (get "commands" d)) (All-commands_of d))
    where
      All-weaken : (vs : List Value) → All (IsBelow (depth (obj d))) vs → All (IsBelow n) vs
      All-weaken [] all = tt
      All-weaken (v ∷ vs) (p, all) = (omega arith, All-weaken vs all)
  handle_batch-Agree null s h = unfold get in refl
  handle_batch-Agree (_) s h = unfold get in refl

module _ {S : Type 0} (run : Call → Exec S Value) (allow : Bool) where
  routed-Agree :
      (n m : ℕ) (progress : Bool) (action : String) (params : Value) (s : S) (r : Route)
      → Agree (handle_command run allow n false) (handle_command run allow m false) (depth params)
      → route action ≡ r
      → handle_command run allow (suc n) progress action params s
        ≡ handle_command run allow (suc m) progress action params s
  unfolding handle_command
  routed-Agree n m progress action params s (to_handler h) agree e = rw (e, handle_command) refl
  routed-Agree n m progress action params s to_batch agree e =
      rw (e, handle_command)
        (rw
          (handle_batch-Agree (handle_command run allow n false) (handle_command run allow m false)
            (depth params) agree params s (omega arith))
          refl)
  routed-Agree n m progress action params s unknown agree e = rw (e, handle_command) refl

  -- The bound on the nesting of batches makes no difference above the depth of the parameters.
  handle_command-enough :
      (n m : ℕ) (progress : Bool) (action : String) (params : Value) (s : S)
      → depth params < n
      → depth params < m
      → handle_command run allow n progress action params s
        ≡ handle_command run allow m progress action params s
  handle_command-enough zero m progress action params s h k = absurd (omega (arith, h))
  handle_command-enough (suc n) zero progress action params s h k = absurd (omega (arith, k))
  handle_command-enough (suc n) (suc m) progress action params s h k =
      routed-Agree n m progress action params s (route action)
        (λ a p t below. handle_command-enough n m false a p t (omega arith) (omega arith)) refl
