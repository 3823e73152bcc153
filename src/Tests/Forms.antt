-- ===== src/Tests/Forms.antt =====
-- Config entries set up through the forms (config_flow.py).
use staykey_ha_plugin.Prelude.{
  ℕ, ◌+◌, ◌≤◌, String, ◌≡◌, ◌≢◌, ◌⊎◌, refl, Option, none, some, List, [], ◌∷◌, All,
}
use staykey_ha_plugin.Python.Text.{strip, lstrip, rstrip}
use staykey_ha_plugin.Python.Value.{str, Fields, end, field, get, put, truthy}
use staykey_ha_plugin.Gateway.Auth.{Outcome, auth_ok, auth_invalid}
use staykey_ha_plugin.ConfigFlow.Entries.{ConfigEntry, current_token, token_in_use_elsewhere}
use staykey_ha_plugin.ConfigFlow.{step_init, create_entry, step_user, typed_token, checked_user}
use staykey_ha_plugin.ConfigFlow.Changes.{with_options}
use staykey_ha_plugin.ConfigFlow.Apart.Reachable.{Reach, start, next, set_up, users, Reach-users_le}
use staykey_ha_plugin.Python.Dict.{Dict}
use staykey_ha_plugin.Python.Exec.{Exception, other_error, ok, err}
use staykey_ha_plugin.Integration.Setup.{
  Listener, Settings, Runtime, settings_of, setup_entry, unload_entry, token_required,
}
use staykey_ha_plugin.Integration.Lifecycle.{IsUnloaded, unload_entry-setup_entry, step_init-blank}
use staykey_ha_plugin.ConfigFlow.Checks.{step_user-keeps}

-- the form with the token " t1 "
abbrev form : Fields
form = field "gateway_token" (str " t1 ") end

abbrev entry : ConfigEntry
entry = record {
  entry_id = "e1";
  unique_id = some "t1";
  setup = field "gateway_token" (str "t1") end;
  options = end;
}

one_entry : Reach (entry ∷ [])
unfolding step_user checked_user typed_token strip lstrip rstrip get put truthy
    token_in_use_elsewhere
one_entry = next start (set_up (λ t. none) (λ u t. auth_ok) (some form) ("e1", refl, refl))

Reach-users_le_example : users "t1" (entry ∷ []) ≤ 1
Reach-users_le_example = Reach-users_le one_entry "t1" (λ e. cc)

-- The tokens that were checked.
abbrev Log : Type 0
Log = List String

abbrev entries : Log → List ConfigEntry
entries log = entry ∷ []

abbrev probe : String → String → Log → Outcome × Log
probe url token log = (auth_invalid, token ∷ log)

abbrev set_unique_id : String → Log → Option String × Log
set_unique_id token log = (none, log)

abbrev Spares : Log → Type 0
Spares log = All (λ token. current_token entry ≢ token) log

step_user-keeps_example :
    Spares
      (step_user entries set_unique_id probe (some (field "gateway_token" (str "t2") end)) []).1
step_user-keeps_example =
    step_user-keeps entries set_unique_id probe Spares (λ url token log filled free q. (free.0, q))
      (λ token log q. q) (some (field "gateway_token" (str "t2") end)) [] tt

abbrev settings : ConfigEntry → Settings
settings = settings_of "2026.4" (some "1.0.0") "i1"

-- Ending a listener is counted, and raises.
abbrev unsub : Listener → ℕ → Option Exception × ℕ
unsub l n = (some (other_error "gone"), n + 1)

unload_entry-setup_entry_example :
    ((current_token entry ≡ "")
      × (setup_entry {W = Unit {0}} settings "Staykey" entry [] ≡ err token_required))
    ⊎ ((current_token entry ≢ "")
        × ((after : Dict (Runtime (Unit {0}))) × (setup_entry settings "Staykey" entry []
              ≡ ok after)
            × IsUnloaded unsub entry.entry_id [] 0 (unload_entry unsub entry.entry_id after 0)))
unload_entry-setup_entry_example = unload_entry-setup_entry unsub settings "Staykey" entry [] 0

abbrev blank_form : Fields
blank_form = field "gateway_token" (str "  ") end

step_init-blank_example :
    (step_init (entry ∷ []) entry (some blank_form) ≡ (none, create_entry none "" blank_form))
    × (setup_entry {W = Unit {0}} settings "Staykey" (with_options none blank_form entry) []
        ≡ err token_required)
unfolding get strip lstrip rstrip
step_init-blank_example =
    step_init-blank {W = Unit {0}} settings "Staykey" (entry ∷ []) entry blank_form "  " [] refl
      (λ e. cc) refl
