-- ===== src/Integration/Lifecycle.antt =====
-- A config entry from the form to its unloading (config_flow.py, __init__.py).
use staykey_ha_plugin.Prelude.{
  String, ◌≡◌, ◌≢◌, ◌⊎◌, refl, ◌∙◌, false, Option, none, some, List, ◌==◌, eq_iff, eq_refl, arith,
  Bool-cases, inl, inr, if◌then◌else◌,
}
use staykey_ha_plugin.Python.Dict.{Dict, lookup, insert, lookup-insert, lookup-erase}
use staykey_ha_plugin.Python.Exec.{Exception, ok, err}
use staykey_ha_plugin.Gateway.Client.{Client, new_client, close_ws, stop}
use staykey_ha_plugin.Gateway.Client.Connect.{start}
use staykey_ha_plugin.Python.Text.{strip}
use staykey_ha_plugin.Python.Value.{str, Fields, get}
use staykey_ha_plugin.ConfigFlow.Entries.{ConfigEntry, token_key, current_token}
use staykey_ha_plugin.ConfigFlow.{create_entry, typed_token, step_init}
use staykey_ha_plugin.ConfigFlow.Changes.{with_options}
use staykey_ha_plugin.ConfigFlow.Apart.{current_token-saved, typed_token-strip}
use staykey_ha_plugin.Integration.Setup.{
  Listener, state_changed, entity_registry_updated, homeassistant_started, zwave_js_notification,
  zwave_js_value_notification, Settings, Runtime, listeners, setup_entry, unsubscribe, unload_entry,
  token_required,
}

-- Every listener is ended, the exception of one of them or not.
abbrev pub all_ended : {S : Type 0} → (Listener → S → Option Exception × S) → S → S
all_ended unsub s =
    let s1 = (unsub state_changed s).1 in
    let s2 = (unsub entity_registry_updated s1).1 in
    let s3 = (unsub homeassistant_started s2).1 in
    let s4 = (unsub zwave_js_notification s3).1 in (unsub zwave_js_value_notification s4).1

-- What unloading leaves: the other entries' runtimes as they were and none for this one, the client
-- stopped, and every listener that setup added ended once, in their order.
pub record IsUnloaded {W S : Type 0} (unsub : Listener → S → Option Exception × S)
    (entry_id : String) (store : Dict (Runtime W)) (s : S)
    (result : Dict (Runtime W) × Option (Client W) × S) : Type 0 where
  pub stored : (k : String) → lookup k result.0 ≡ (if entry_id == k then none else lookup k store)
  pub stopped : (c : Client W) × (result.1 ≡ some c) × (c.running ≡ false) × (c.ws ≡ none)
  pub ended : result.2 ≡ all_ended unsub s

module _ {W S : Type 0} (unsub : Listener → S → Option Exception × S)
    (settings : ConfigEntry → Settings) (title : String) where
  -- An entry that has no token is not set up. Any other entry is, and unloading it afterwards ends
  -- each of the five listeners, whatever exceptions that raises, stops the client, and keeps the other
  -- entries.
  pub unload_entry-setup_entry :
      (entry : ConfigEntry) (store : Dict (Runtime W)) (s : S)
      → ((current_token entry ≡ "") × (setup_entry settings title entry store ≡ err token_required))
        ⊎ ((current_token entry ≢ "")
            × ((after : Dict (Runtime W)) × (setup_entry settings title entry store ≡ ok after)
                × IsUnloaded unsub entry.entry_id store s
                    (unload_entry unsub entry.entry_id after s)))
  unfolding setup_entry unload_entry unsubscribe stop close_ws
  unload_entry-setup_entry entry store s = elim (Bool-cases (current_token entry == "")) [
    | inl blank ↦ inl ((eq_iff (current_token entry) "").0 blank, rw blank)
    | inr filled ↦
        let runtime : Runtime W = record {
          unsub = listeners;
          gateway_client = start (new_client title);
          settings = settings entry;
        } in
        let after = insert entry.entry_id runtime store in
        let found : lookup entry.entry_id after ≡ some runtime = rw (lookup-insert, eq_refl) in
        inr (
          λ e. cc ((eq_iff (current_token entry) "").1 e),
          (
            after,
            rw filled,
            rw (found, unload_entry)
                (record {
                  stored = λ k.
                      lookup-erase entry.entry_id k after
                      ∙ ground (arith, lookup-insert entry.entry_id k runtime store);
                  stopped = (stop runtime.gateway_client, refl, refl, refl);
                  ended = refl;
                }),
          ),
        )
  ]

-- A text of blanks is saved as the token of an entry although it is none: the options form reports no
-- error, and the entry is not set up any more.
pub step_init-blank :
    {W : Type 0} (settings : ConfigEntry → Settings) (title : String) (entries : List ConfigEntry)
    (entry : ConfigEntry) (input : Fields) (t : String) (store : Dict (Runtime W))
    → get token_key input ≡ some (str t)
    → t ≢ ""
    → strip t ≡ ""
    → (step_init entries entry (some input) ≡ (none, create_entry none "" input))
      × (setup_entry settings title (with_options none input entry) store ≡ err token_required)
unfolding step_init setup_entry
step_init-blank settings title entries entry input t store typed filled blank =
    let saved = with_options none input entry in
    let none_typed : typed_token input ≡ "" = typed_token-strip input t typed ∙ blank in
    let no_token : current_token saved ≡ "" = current_token-saved saved t typed filled ∙ blank in
    (rw none_typed, rw no_token)
