-- ===== src/Providers/Select.antt =====
-- services/providers/__init__.py: which provider serves a lock. The registries of Home Assistant are
-- an argument: the identifiers of an entity's device, or none where the entity has no device.
use staykey_ha_plugin.Prelude.{
  ℕ, String, Bool, ◌&&◌, Option, none, some, List, [], ◌∷◌, if◌then◌else◌,
}
use staykey_ha_plugin.Python.Exec.{Result, ok, err, Exec, unsupported_protocol, ◌<>◌}
use staykey_ha_plugin.Python.Value.{Fields}
use staykey_ha_plugin.Providers.{Services, LockProvider}
use staykey_ha_plugin.Providers.Zwave
use staykey_ha_plugin.Providers.Matter.Codes
use staykey_ha_plugin.Providers.Matter.Errors.{lower_codes, starts_with}

-- The keys of `_DOMAIN_TO_PROVIDER`.
pub data Protocol : Type 0 where
  zwave_js matter : Protocol

abbrev pub Registry : Type 0
Registry = String → Option (List (List String))

-- two texts as their characters
abbrev same_codes : List ℕ → List ℕ → Bool
same_codes a b = starts_with a b && starts_with b a

-- `str(…).lower()` looked up in `_DOMAIN_TO_PROVIDER`
unfoldable pub protocol_of : String → Option Protocol
unfolding lower_codes starts_with
protocol_of domain =
    if same_codes (lower_codes domain) (lower_codes "zwave_js")
    then some zwave_js
    else if same_codes (lower_codes domain) (lower_codes "matter")
    then some matter
    else none

-- the loop over `device.identifiers`, in the order in which they come
unfoldable pub first_protocol : List (List String) → Option Protocol
first_protocol [] = none
first_protocol ([] ∷ idents) = first_protocol idents
first_protocol ((domain ∷ _) ∷ idents) =
    let rest = first_protocol idents in elim (protocol_of domain) [ some p ↦ some p | none ↦ rest ]

unfoldable pub infer_integration : Registry → String → Option Protocol
infer_integration registry entity_id = elim (registry entity_id) [
  | none ↦ none
  | some idents ↦ first_protocol idents
]

-- A call that does not raise.
abbrev sure : {S A : Type 0} → (S → A × S) → Exec S A
sure f s = let (a, s') = f s in (ok a, s')

-- `node_info` is `get_node_info` of services/providers/zwave.py.
module _ {S : Type 0} (call : Services S) (node_info : String → Option Fields) where
  unfoldable pub provider_of : Protocol → LockProvider S
  provider_of zwave_js = record {
    name = "zwave";
    set_code = λ e slot code. sure (Zwave.set_code call e slot code);
    clear_code = Zwave.clear_code call;
    read_codes = λ e n. sure (Zwave.read_codes call e n);
    get_capabilities = λ e. sure (Zwave.get_capabilities call node_info e);
  }
  provider_of matter = record {
    name = "matter";
    set_code = λ e slot code. sure (Codes.set_code call e slot code);
    clear_code = Codes.clear_code call;
    read_codes = λ e n. sure (Codes.read_codes call e n);
    get_capabilities = λ e. sure (Codes.get_capabilities call e);
  }

  unfoldable pub select_provider : Registry → String → Result (LockProvider S)
  select_provider registry entity_id = elim (infer_integration registry entity_id) [
    | none ↦ err (unsupported_protocol ("Cannot determine integration for entity " <> entity_id))
    | some p ↦ ok (provider_of p)
  ]
