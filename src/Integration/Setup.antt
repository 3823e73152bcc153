-- ===== src/Integration/Setup.antt =====
-- __init__.py: setting up, unloading and migrating a config entry. What `hass.data` holds for the
-- domain is a dictionary by entry ID.
use staykey_ha_plugin.Prelude.{
  ℕ, String, Bool, true, false, Option, none, some, List, [], ◌∷◌, ◌==◌, eqb, if◌then◌else◌,
}
use staykey_ha_plugin.Python.Dict.{Dict, lookup, insert, erase}
use staykey_ha_plugin.Python.Exec.{Exception, Result, ok, err, other_error}
use staykey_ha_plugin.Python.Value.{Value, Fields, get, truthy}
use staykey_ha_plugin.Gateway.Client.{Client, new_client, stop}
use staykey_ha_plugin.Gateway.Client.Connect.{Config, start}
use staykey_ha_plugin.ConfigFlow.Entries.{
  ConfigEntry, url_key, support_key, default_url, chosen, current_token,
}

-- What a config entry listens to: one constructor for each `async_listen`.
pub data Listener : Type 0 where
  state_changed entity_registry_updated homeassistant_started : Listener
  zwave_js_notification zwave_js_value_notification : Listener

-- What the client and the command handler are made with.
pub record Settings : Type 0 where
  pub gateway_url : String
  pub config : Config
  pub allow_support_actions : Bool

-- What is stored for an entry. The device map is in the client.
pub record Runtime (W : Type 0) : Type 0 where
  pub unsub : List Listener
  pub gateway_client : Client W
  pub settings : Settings

abbrev or_version : Option String → String
or_version none = "0.0.0"
or_version (some v) = if v == "" then "0.0.0" else v

abbrev truthy_or_false : Option Value → Bool
truthy_or_false none = false
truthy_or_false (some v) = truthy v

-- Home Assistant's version and its installation's ID are arguments, and so is the version that the
-- integration's manifest gives.
unfoldable pub settings_of : String → Option String → String → ConfigEntry → Settings
unfolding truthy
settings_of ha_version version instance_id entry = record {
  gateway_url = chosen url_key default_url entry.options entry.setup;
  config = record {
    gateway_token = current_token entry;
    agent_version = or_version version;
    ha_version = ha_version;
    instance_id = some instance_id;
    has_entry = true;
  };
  allow_support_actions = truthy_or_false (get support_key entry.options);
}

abbrev pub listeners : List Listener
listeners =
    state_changed ∷ entity_registry_updated ∷ homeassistant_started ∷ zwave_js_notification
    ∷ zwave_js_value_notification ∷ []

-- `ConfigEntryError`, by its key
abbrev pub token_required : Exception
token_required = other_error "gateway_token_required"

-- An exception of a call that ends a listener is suppressed.
unfoldable pub unsubscribe :
    {S : Type 0} → (Listener → S → Option Exception × S) → List Listener → S → S
unsubscribe unsub [] s = s
unsubscribe unsub (l ∷ ls) s = unsubscribe unsub ls (unsub l s).1

module _ {W : Type 0} where
  -- `async_setup_entry`; `title` is the title of the entry
  unfoldable pub setup_entry :
      (ConfigEntry → Settings) → String → ConfigEntry → Dict (Runtime W) → Result (Dict (Runtime W))
  unfolding new_client start
  setup_entry settings title entry store =
      if current_token entry == ""
      then err token_required
      else ok (
          insert entry.entry_id
            (record {
              unsub = listeners;
              gateway_client = start (new_client title);
              settings = settings entry;
            })
            store)

  -- `async_unload_entry`: the store, the client that was stopped, if there was one, and the state on
  -- which the listeners act
  unfoldable pub unload_entry :
      {S : Type 0}
      → (Listener → S → Option Exception × S)
      → String
      → Dict (Runtime W)
      → S
      → Dict (Runtime W) × Option (Client W) × S
  unfolding unsubscribe
  unload_entry unsub entry_id store s = elim (lookup entry_id store) [
    | none ↦ (erase entry_id store, none, s)
    | some runtime ↦ (
      erase entry_id store,
      some (stop runtime.gateway_client),
      unsubscribe unsub runtime.unsub s,
    )
  ]

-- `async_migrate_entry`: the version and the data of the entry afterwards
unfoldable pub migrate_entry : ℕ → Fields → ℕ × Fields
migrate_entry version setup = if eqb version 1 then (2, setup) else (version, setup)
