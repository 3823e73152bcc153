-- ===== src/ConfigFlow.antt =====
-- config_flow.py: the forms that set up a config entry, change its options and replace its token.
-- The entries of the domain, Home Assistant's test of a unique ID and the check of a token with the
-- gateway are arguments. A step returns what it asks of Home Assistant.
pub mod Entries
pub mod Changes
pub mod Tallies
pub mod Apart
pub mod Checks
use staykey_ha_plugin.Prelude.{
  String, Bool, true, false, not, ◌&&◌, Option, none, some, List, [], ◌∷◌, ◌==◌, if◌then◌else◌,
}
use staykey_ha_plugin.Python.Text.{strip}
use staykey_ha_plugin.Python.Value.{
  Value, null, bool, str, Fields, end, field, get, put, or_else, truthy,
}
use staykey_ha_plugin.Gateway.Auth.{
  Outcome, auth_ok, auth_invalid, auth_integration_disabled, auth_cannot_connect,
}
use staykey_ha_plugin.ConfigFlow.Entries.{
  ConfigEntry, token_key, url_key, support_key, default_url, text_of, chosen, current_token,
  token_in_use_elsewhere,
}

-- A line of a form: `vol.Required` or `vol.Optional`, with the default or the value suggested.
pub data FormField : Type 0 where
  required : String → Option Value → FormField
  optional : String → Value → FormField

-- What a step asks for. The values with which a form is shown again are those that were typed.
pub data FlowResult : Type 0 where
  -- the step, its form, what was typed, and `errors["base"]`
  show_form : String → List FormField → Option Fields → Option String → FlowResult
  -- `async_create_entry`, with the unique ID of the flow if it has set one
  create_entry : Option String → String → Fields → FlowResult
  -- `async_update_reload_and_abort`, with the unique ID, the updates of the data, the options and the
  -- reason, where they are given
  update_and_abort :
      ConfigEntry → Option String → Fields → Option Fields → Option String → FlowResult
  abort : String → FlowResult

-- The outcomes of a check double as the keys of errors.
abbrev pub outcome_key : Outcome → String
outcome_key auth_ok = "ok"
outcome_key auth_invalid = "invalid_auth"
outcome_key auth_integration_disabled = "integration_disabled"
outcome_key auth_cannot_connect = "cannot_connect"

-- the token that was typed, without the blanks around it
unfoldable pub typed_token : Fields → String
unfolding strip truthy
typed_token input = strip (text_of (or_else (get token_key input) (str "")))

-- `d.get(key, default)`
abbrev get_or : String → Value → Fields → Value
get_or key default d = elim (get key d) [ none ↦ default | some v ↦ v ]

-- `{**d, CONF_GATEWAY_TOKEN: token}`
abbrev pub with_token : String → Fields → Fields
with_token token d = put token_key (str token) d

-- The schema of the options: the token that is saved is suggested, and no text where there is none.
unfoldable pub options_schema : ConfigEntry → List FormField
unfolding truthy
options_schema entry =
    let saved = get_or token_key (get_or token_key null entry.setup) entry.options in
    let address = get_or url_key (get_or url_key (str default_url) entry.setup) entry.options in
    required token_key (some (or_else (some saved) null))
    ∷ optional url_key address
    ∷ optional support_key (get_or support_key (bool false) entry.options)
    ∷ []

abbrev user_schema : List FormField
user_schema = required token_key none ∷ optional url_key (str default_url) ∷ []

abbrev reauth_schema : List FormField
reauth_schema = required token_key none ∷ []

-- The new unique ID that `async_update_entry` is given before the step ends.
abbrev moved_id : ConfigEntry → String → Option String
moved_id entry new_token =
    if not (new_token == "") && not (new_token == current_token entry) then some new_token else none

-- `StaykeyOptionsFlowHandler.async_step_init`
unfoldable pub step_init :
    List ConfigEntry → ConfigEntry → Option Fields → Option String × FlowResult
unfolding options_schema typed_token
step_init entries entry none = (none, show_form "init" (options_schema entry) none none)
step_init entries entry (some input) =
    let new_token = typed_token input in
    if not (new_token == "") && token_in_use_elsewhere entries new_token (some entry.entry_id)
    then (none, show_form "init" (options_schema entry) (some input) (some "token_in_use"))
    else (
      moved_id entry new_token,
      create_entry none "" (if new_token == "" then input else with_token new_token input),
    )

abbrev pub user_url : Fields → String
user_url input = text_of (or_else (get url_key input) (str default_url))

-- A token that is saved in the options is replaced too.
abbrev pub replaced_options : String → Fields → Fields
replaced_options token options = elim (get token_key options) [
  | none ↦ options
  | some _ ↦ with_token token options
]

-- `set_unique_id` stands for `async_set_unique_id` and `_abort_if_unique_id_configured`: the reason
-- why they end the flow, if they do. `probe` is `probe_token`, for an address and a token.
module _ {S : Type 0} (entries : S → List ConfigEntry)
    (set_unique_id : String → S → Option String × S)
    (probe : String → String → S → Outcome × S) where
  abbrev user_form : Option Fields → Option String → FlowResult
  user_form input error = show_form "user" user_schema input error

  -- the check of the token, and the entry that is made once the gateway accepts it
  unfoldable pub checked_user : Fields → String → S → FlowResult × S
  checked_user input gateway_token s =
      let (outcome, s') = probe (user_url input) gateway_token s in
      elim outcome [
        | auth_ok ↦
            (create_entry (some gateway_token) "Staykey" (with_token gateway_token input), s')
        | refused ↦ (user_form (some input) (some (outcome_key refused)), s')
      ]

  -- `StaykeyConfigFlow.async_step_user`, and `async_step_import`, which calls it
  unfoldable pub step_user : Option Fields → S → FlowResult × S
  unfolding typed_token
  step_user none s = (user_form none none, s)
  step_user (some input) s =
      let gateway_token = typed_token input in
      let (stopped, s') = set_unique_id gateway_token s in
      if gateway_token == ""
      then (user_form (some input) (some "gateway_token_required"), s)
      else elim stopped [
        | some reason ↦ (abort reason, s')
        | none ↦
            if token_in_use_elsewhere (entries s') gateway_token none
            then (user_form (some input) (some "token_in_use"), s')
            else checked_user input gateway_token s'
      ]

  abbrev reauth_form : Option Fields → Option String → FlowResult
  reauth_form input error = show_form "reauth_confirm" reauth_schema input error

  unfoldable pub checked_reauth : ConfigEntry → Fields → String → S → FlowResult × S
  unfolding truthy
  checked_reauth entry input gateway_token s =
      let (outcome, s') =
        probe (chosen url_key default_url entry.options entry.setup) gateway_token s in
      elim outcome [
        | auth_ok ↦ (
          update_and_abort entry (some gateway_token) (field token_key (str gateway_token) end)
              (some (replaced_options gateway_token entry.options)) none,
          s',
        )
        | refused ↦ (reauth_form (some input) (some (outcome_key refused)), s')
      ]

  -- `StaykeyConfigFlow.async_step_reauth_confirm`, for the entry of the flow
  unfoldable pub step_reauth_confirm : ConfigEntry → Option Fields → S → FlowResult × S
  unfolding typed_token
  step_reauth_confirm entry none s = (reauth_form none none, s)
  step_reauth_confirm entry (some input) s =
      let gateway_token = typed_token input in
      if gateway_token == ""
      then (reauth_form (some input) (some "gateway_token_required"), s)
      else if gateway_token == current_token entry
      then (update_and_abort entry none end none (some "reauth_retry"), s)
      else if token_in_use_elsewhere (entries s) gateway_token (some entry.entry_id)
      then (reauth_form (some input) (some "token_in_use"), s)
      else checked_reauth entry input gateway_token s

  -- `StaykeyConfigFlow.async_step_reauth`
  unfoldable pub step_reauth : ConfigEntry → S → FlowResult × S
  step_reauth entry s = step_reauth_confirm entry none s
