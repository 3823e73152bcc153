-- ===== src/Commands/Support.antt =====
-- What the "Allow support access" option keeps out (services/ha_bridge.py).
use staykey_ha_plugin.Prelude.{
  ℕ, zero, suc, ◌∙◌, ◌&&◌, String, ◌≡◌, refl, subst, Bool, true, false, some, List, [], ◌∷◌, ◌==◌,
  eq_iff, arith, All, inl, inr, Bool-cases, Option-cases,
}
use staykey_ha_plugin.Python.Exec.{support_action_disabled, Exec, err}
use staykey_ha_plugin.Python.Value.{Value}
use staykey_ha_plugin.Commands.{
  Handler, handle_read_codes, handle_ha_service_call, handle_tap_events, handle_discover_devices,
  Call, action_table, find_action, is_one_of, support_actions, progress_actions, Route, to_handler,
  to_batch, unknown, other_route, route, handle_command,
}

-- The handlers that only a support action reaches: they read the codes on a lock, call any service,
-- watch the event bus, or report all devices.
abbrev pub is_support_handler : Handler → Bool
is_support_handler handle_read_codes = true
is_support_handler handle_ha_service_call = true
is_support_handler handle_tap_events = true
is_support_handler handle_discover_devices = true
is_support_handler _ = false

module _ (P : String → Handler → Type 0) where
  find_action-All :
      (action : String) (h : Handler) (table : List (String × Handler))
      → All (λ (e : String × Handler). P e.0 e.1) table
      → find_action action table ≡ some h
      → P action h
  unfolding find_action
  find_action-All action h [] all e = cc
  find_action-All action h ((name, g) ∷ table) (p, all) e = elim (Bool-cases (name == action)) [
    | inl same ↦
        let found : g ≡ h = cc (rw (same, find_action) at e) in
        subst (λ n. P n h) ((eq_iff name action).0 same) (subst (P name) found p)
    | inr other ↦ find_action-All action h table all (rw (other, find_action) at e)
  ]

abbrev IsGated : String → Handler → Type 0
IsGated name h = is_support_handler h ≡ true → is_one_of name support_actions ≡ true

action_table-IsGated : All (λ (e : String × Handler). IsGated e.0 e.1) action_table
unfolding is_one_of
action_table-IsGated = ground arith

other_route-IsGated :
    (action : String) (h : Handler) → other_route action ≡ to_handler h → IsGated action h
unfolding is_one_of
other_route-IsGated action h e g = ground (arith, eq_iff action "discover_devices")

route-IsGated : (action : String) (h : Handler) → route action ≡ to_handler h → IsGated action h
unfolding route
route-IsGated action h e = elim (Option-cases (find_action action action_table)) [
  | inl none_found ↦ other_route-IsGated action h (rw (none_found, route) at e)
  | inr (g, found) ↦
      find_action-All IsGated action h action_table action_table-IsGated (found ∙ ground arith)
]

-- A batch is a support action.
route-batch : (action : String) → route action ≡ to_batch → is_one_of action support_actions ≡ true
unfolding route is_one_of
route-batch action e = elim (Option-cases (find_action action action_table)) [
  | inl none_found ↦
      let other : other_route action ≡ to_batch = rw (none_found, route) at e in
      ground (arith, eq_iff action "batch")
  | inr (g, found) ↦ cc (rw (found, route) at e)
]

module _ {S : Type 0} (run : Call → Exec S Value) where
  -- With support access off, a support action is refused with nothing done, a batch and all that it
  -- carries included.
  handle_command-refuses :
      (n : ℕ) (progress : Bool) (action : String) (params : Value) (s : S)
      → is_one_of action support_actions ≡ true
      → handle_command run false (suc n) progress action params s
        ≡ (some (err (support_action_disabled action)), s)
  unfolding handle_command
  handle_command-refuses n progress action params s support = rw support

  module _ (Q : S → Type 0)
      (keeps : (c : Call) (s : S)
        → is_support_handler c.handler ≡ false
        → Q s
        → Q (run c s).1) where
    routed-keeps :
        (n : ℕ) (progress : Bool) (action : String) (params : Value) (s : S) (r : Route)
        → is_one_of action support_actions ≡ false
        → route action ≡ r
        → Q s
        → Q (handle_command run false (suc n) progress action params s).1
    unfolding handle_command
    routed-keeps n progress action params s (to_handler h) free e q =
        elim (Bool-cases (is_support_handler h)) [
          | inl private ↦ cc (route-IsGated action h e private)
          | inr plain ↦
              rw (free, e, handle_command)
                (keeps
                  (record {
                    handler = h;
                    params = params;
                    progress = progress && is_one_of action progress_actions;
                  })
                  s plain q)
        ]
    routed-keeps n progress action params s to_batch free e q = cc (route-batch action e)
    routed-keeps n progress action params s unknown free e q = rw (free, e, handle_command) q

  -- With support access off, whatever the other handlers keep stays true, whatever the command: no
  -- command reaches a handler that reads codes, calls any service, watches events or reports all
  -- devices.
  pub handle_command-keeps :
      (Q : S → Type 0)
      → ((c : Call) (s : S) → is_support_handler c.handler ≡ false → Q s → Q (run c s).1)
      → (n : ℕ) (progress : Bool) (action : String) (params : Value) (s : S) → Q s
      → Q (handle_command run false n progress action params s).1
  handle_command-keeps Q keeps zero progress action params s q = unfold handle_command in q
  handle_command-keeps Q keeps (suc n) progress action params s q =
      elim (Bool-cases (is_one_of action support_actions)) [
        | inl support ↦ rw (handle_command-refuses n progress action params s support) q
        | inr free ↦ routed-keeps Q keeps n progress action params s (route action) free refl q
      ]
