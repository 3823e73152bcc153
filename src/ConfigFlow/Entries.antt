-- ===== src/ConfigFlow/Entries.antt =====
-- config_flow.py: what the forms read of the config entries, `_current_token` and
-- `_token_in_use_elsewhere`. A value that an entry holds for its token or its address is a text, as
-- the schemas of the forms demand, or is missing.
use staykey_ha_plugin.Prelude.{
  String, Bool, false, ◌||◌, Option, none, some, List, [], ◌∷◌, ◌==◌, if◌then◌else◌,
}
use staykey_ha_plugin.Python.Text.{strip}
use staykey_ha_plugin.Python.Value.{Value, str, Fields, get, or_else, truthy}

abbrev pub token_key : String
token_key = "gateway_token"

abbrev pub url_key : String
url_key = "gateway_url"

abbrev pub support_key : String
support_key = "allow_support_actions"

abbrev pub default_url : String
default_url = "wss://api.staykey.co/orion/gateway/websocket"

-- A `ConfigEntry` of Home Assistant: what the integration reads of it. `setup` is its `data`.
pub record ConfigEntry : Type 0 where
  pub entry_id : String
  pub unique_id : Option String
  pub setup : Fields
  pub options : Fields

abbrev pub text_of : Value → String
text_of (str s) = s
text_of _ = ""

-- `options.get(key) or data.get(key) or default`
abbrev pub chosen : String → String → Fields → Fields → String
chosen key default options setup =
    text_of (or_else (get key options) (or_else (get key setup) (str default)))

unfoldable pub current_token : ConfigEntry → String
unfolding strip truthy
current_token entry = strip (chosen token_key "" entry.options entry.setup)

abbrev pub is_id : Option String → String → Bool
is_id none t = false
is_id (some s) t = s == t

-- `token in (_current_token(entry), entry.unique_id)`
unfoldable pub owns : String → ConfigEntry → Bool
owns token entry = current_token entry == token || is_id entry.unique_id token

-- `entry_id` is the entry that does not count, where there is one.
unfoldable pub token_in_use_elsewhere : List ConfigEntry → String → Option String → Bool
unfolding owns
token_in_use_elsewhere [] token entry_id = false
token_in_use_elsewhere (entry ∷ entries) token entry_id =
    let rest = token_in_use_elsewhere entries token entry_id in
    if is_id entry_id entry.entry_id then rest else owns token entry || rest
