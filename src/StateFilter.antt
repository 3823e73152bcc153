-- ===== src/StateFilter.antt =====
-- state_filter.py: which state changes are forwarded.
pub mod Decision
use Prim.Native.Char.{Char, code}
use Prim.Native.String
use staykey_ha_plugin.Prelude.{
  String, Bool, true, false, not, ◌&&◌, ◌||◌, Option, none, some, ◌==◌, eqb, if◌then◌else◌,
}

-- the text before the first ".", if there is one
unfoldable pub before_dot : String → Option String
before_dot String.[] = none
before_dot (String.◌∷◌ c s) = elim (eqb (code c) b'.') [
  | true ↦ some ""
  | false ↦ elim (before_dot s) [ none ↦ none | some d ↦ some (String.◌∷◌ c d) ]
]

-- `entity_id.split(".")[0] if "." in entity_id else ""`
unfoldable pub domain_of : String → String
unfolding before_dot
domain_of entity_id = elim (before_dot entity_id) [ none ↦ "" | some d ↦ d ]

-- `state_value in COVER_TERMINAL_STATES`
abbrev pub is_terminal : String → Bool
is_terminal state_value = state_value == "open" || state_value == "closed"

-- `state_value == previous_state`
abbrev pub is_same : String → Option String → Bool
is_same state_value none = false
is_same state_value (some p) = state_value == p

unfoldable pub should_forward_state : String → String → Option String → Bool
should_forward_state entity_id state_value previous_state =
    if is_same state_value previous_state
    then false
    else not (domain_of entity_id == "cover" && not (is_terminal state_value))
