-- ===== src/ConfigFlow/Apart/Reauth.antt =====
-- The form of config_flow.py that replaces a token keeps the entries apart.
use staykey_ha_plugin.Prelude.{
  String, ◌≡◌, ◌≢◌, inl, inr, refl, sym, ap, ◌∙◌, subst, false, Option, none, some, List, map, ◌==◌,
  eq_iff, Bool-cases, Option-cases,
}
use staykey_ha_plugin.Python.Text.{strip}
use staykey_ha_plugin.Python.Value.{str, Fields, end, field, get, put, get-put}
use staykey_ha_plugin.Gateway.Auth.{
  Outcome, auth_ok, auth_invalid, auth_integration_disabled, auth_cannot_connect,
}
use staykey_ha_plugin.ConfigFlow.Entries.{
  ConfigEntry, url_key, default_url, token_key, chosen, current_token, token_in_use_elsewhere,
}
use staykey_ha_plugin.ConfigFlow.{
  FlowResult, replaced_options, checked_reauth, typed_token, with_token, step_reauth_confirm,
}
use staykey_ha_plugin.ConfigFlow.Changes.{changed, with_updates, Saved}
use staykey_ha_plugin.ConfigFlow.Apart.{
  AreApart, changed-AreApart, owns-changed, current_token-saved,
}
use staykey_ha_plugin.ConfigFlow.Apart.Checked.{current_token-set_up, strip-typed_token}

abbrev reauthorised : String → ConfigEntry → ConfigEntry → ConfigEntry
reauthorised new entry =
    with_updates (some new) (field token_key (str new) end)
      (some (replaced_options new entry.options))

current_token-reauthorised :
    (new : String) (entry e : ConfigEntry)
    → new ≢ ""
    → strip new ≡ new
    → current_token (reauthorised new entry e) ≡ new
current_token-reauthorised new entry e filled clean =
    let set_up : get token_key (put token_key (str new) e.setup) ≡ some (str new) =
      get-put token_key token_key (str new) e.setup in
    elim (Option-cases (get token_key entry.options)) [
      | inl missing ↦
          let kept : replaced_options new entry.options ≡ entry.options =
            rw (missing, replaced_options) in
          current_token-set_up (reauthorised new entry e) new (ap (get token_key) kept ∙ missing)
            set_up filled
          ∙ clean
      | inr (old, found) ↦
          let put_in : replaced_options new entry.options ≡ with_token new entry.options =
            rw (found, replaced_options) in
          current_token-saved (reauthorised new entry e) new
            (ap (get token_key) put_in ∙ get-put token_key token_key (str new) entry.options) filled
          ∙ clean
    ]

module _ (before : List ConfigEntry) (stops : String → Option String)
    (answer : String → String → Outcome) (entry : ConfigEntry) where
  -- The step for a new token, while no other flow changes the entries.
  abbrev pub reauth_result : Option Fields → FlowResult
  reauth_result input =
      (step_reauth_confirm {S = Unit {0}} (λ _. before) (λ t s. (stops t, s))
        (λ u t s. (answer u t, s)) entry input tt).0

  abbrev reauth_checked : Fields → FlowResult
  reauth_checked input =
      (checked_reauth {S = Unit {0}} (λ _. before) (λ t s. (stops t, s)) (λ u t s. (answer u t, s))
        entry input (typed_token input) tt).0

module _ (before after : List ConfigEntry) (stops : String → Option String)
    (answer : String → String → Outcome) (entry : ConfigEntry) where
  unchanged : after ≡ before → AreApart before → AreApart after
  unchanged same a = subst AreApart (sym same) a

  abbrev replaced : Fields → List ConfigEntry
  replaced input = map (changed entry.entry_id (reauthorised (typed_token input) entry)) before

  replaced-AreApart :
      (input : Fields)
      → typed_token input ≢ ""
      → token_in_use_elsewhere before (typed_token input) (some entry.entry_id) ≡ false
      → after ≡ replaced input
      → AreApart before
      → AreApart after
  replaced-AreApart input filled free e a =
      let new = typed_token input in
      let f = reauthorised new entry in
      subst AreApart (sym e) (
        changed-AreApart entry.entry_id new f (λ e. refl)
          (λ token e _ other h.
            owns-changed token new e (f e)
              (current_token-reauthorised new entry e filled (strip-typed_token input)) (inr refl)
              other h)
          before (λ _. free) a)

  checked_reauth-AreApart :
      (input : Fields) (o : Outcome)
      → answer (chosen url_key default_url entry.options entry.setup) (typed_token input) ≡ o
      → typed_token input ≢ ""
      → token_in_use_elsewhere before (typed_token input) (some entry.entry_id) ≡ false
      → Saved (reauth_checked before stops answer entry input) before after
      → AreApart before
      → AreApart after
  unfolding checked_reauth
  checked_reauth-AreApart input auth_ok e filled free saved a =
      replaced-AreApart input filled free (rw (e, checked_reauth, Saved) at saved) a
  checked_reauth-AreApart input auth_invalid e filled free saved a =
      unchanged (rw (e, checked_reauth, Saved) at saved) a
  checked_reauth-AreApart input auth_integration_disabled e filled free saved a =
      unchanged (rw (e, checked_reauth, Saved) at saved) a
  checked_reauth-AreApart input auth_cannot_connect e filled free saved a =
      unchanged (rw (e, checked_reauth, Saved) at saved) a

  pub step_reauth_confirm-AreApart :
      (input : Option Fields)
      → Saved (reauth_result before stops answer entry input) before after
      → AreApart before
      → AreApart after
  unfolding step_reauth_confirm
  step_reauth_confirm-AreApart none saved a = unchanged saved a
  step_reauth_confirm-AreApart (some input) saved a =
      let new = typed_token input in
      elim (Bool-cases (new == "")) [
        | inl blank ↦ unchanged (rw (blank, step_reauth_confirm, reauth_result, Saved) at saved) a
        | inr text ↦ elim (Bool-cases (new == current_token entry)) [
          | inl same ↦
              let e : after ≡ map (changed entry.entry_id (with_updates none end none)) before =
                rw (text, same, step_reauth_confirm, reauth_result, Saved) at saved in
              subst AreApart (sym e) (
                changed-AreApart entry.entry_id "" (with_updates none end none) (λ e. refl)
                  (λ token e _ _ h. h) before (λ h. absurd (h refl)) a)
          | inr other ↦
              elim (Bool-cases (token_in_use_elsewhere before new (some entry.entry_id))) [
                | inl taken ↦
                    unchanged
                      (rw (text, other, taken, step_reauth_confirm, reauth_result, Saved) at saved)
                      a
                | inr free ↦
                    checked_reauth-AreApart input
                      (answer (chosen url_key default_url entry.options entry.setup) new) refl
                      (λ e. cc ((eq_iff new "").1 e)) free
                      (rw (text, other, free, step_reauth_confirm, reauth_result, Saved) at saved) a
              ]
        ]
      ]
