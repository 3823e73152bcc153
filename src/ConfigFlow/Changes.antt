-- ===== src/ConfigFlow/Changes.antt =====
-- How the steps of config_flow.py change the config entries. What Home Assistant does with the result
-- of a step is described by the relation `Saved`, after its documentation: an entry that is created
-- comes last, with an ID of its own and no options; the options flow saves what it is given as the
-- options; and an update changes the one entry that it names.
use staykey_ha_plugin.Prelude.{
  ℕ, ◌+◌, String, ◌≡◌, Bool, Option, none, some, List, [], ◌∷◌, ◌++◌, map, ◌==◌, if◌then◌else◌,
}
use staykey_ha_plugin.Python.Value.{Fields, end, field, put}
use staykey_ha_plugin.ConfigFlow.Entries.{ConfigEntry, owns}
use staykey_ha_plugin.ConfigFlow.{FlowResult, show_form, create_entry, update_and_abort, abort}

-- how many entries satisfy a test
abbrev pub tally : (ConfigEntry → Bool) → List ConfigEntry → ℕ
tally p [] = 0
tally p (e ∷ es) = (if p e then 1 else 0) + tally p es

abbrev pub owners : String → List ConfigEntry → ℕ
owners token = tally (owns token)

abbrev pub has_id : String → ConfigEntry → Bool
has_id id e = e.entry_id == id

abbrev pub named : String → List ConfigEntry → ℕ
named id = tally (has_id id)

abbrev pub changed : String → (ConfigEntry → ConfigEntry) → ConfigEntry → ConfigEntry
changed id f e = if e.entry_id == id then f e else e

abbrev pub or_kept {ℓ} : {A : Type ℓ} → Option A → A → A
or_kept none a = a
or_kept (some b) a = b

abbrev pub or_kept_id : Option String → Option String → Option String
or_kept_id none a = a
or_kept_id (some b) a = some b

-- `{**d, **updates}`
abbrev pub merged : Fields → Fields → Fields
merged end d = d
merged (field k v updates) d = merged updates (put k v d)

abbrev pub with_options : Option String → Fields → ConfigEntry → ConfigEntry
with_options id d e = record e { options = d; unique_id = or_kept_id id e.unique_id }

abbrev pub with_updates : Option String → Fields → Option Fields → ConfigEntry → ConfigEntry
with_updates id updates options e = record e {
  unique_id = or_kept_id id e.unique_id;
  setup = merged updates e.setup;
  options = or_kept options e.options;
}

-- The entries before and after Home Assistant takes the result of a step of `StaykeyConfigFlow`.
abbrev pub Saved : FlowResult → List ConfigEntry → List ConfigEntry → Type 0
Saved (create_entry id title d) before after =
    (new_id : String) × (named new_id before ≡ 0)
    × (after
        ≡ before ++ record { entry_id = new_id; unique_id = id; setup = d; options = end } ∷ [])
Saved (update_and_abort entry id updates options reason) before after =
    after ≡ map (changed entry.entry_id (with_updates id updates options)) before
Saved (show_form step form typed error) before after = after ≡ before
Saved (abort reason) before after = after ≡ before

-- The same for the options flow of an entry, with the unique ID that it asked for.
abbrev pub SavedOptions :
    ConfigEntry → Option String → FlowResult → List ConfigEntry → List ConfigEntry → Type 0
SavedOptions entry id (create_entry _ title d) before after =
    after ≡ map (changed entry.entry_id (with_options id d)) before
SavedOptions entry id result before after = after ≡ before
