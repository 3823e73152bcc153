-- ===== src/StateFilter/Decision.antt =====
-- When a state change is forwarded (state_filter.py).
use Prim.Native.Char.{code}
use Prim.Native.String
use text.Mathlib.TextLemmas.{nil-append, cons-append}
use staykey_ha_plugin.Prelude.{
  String, ◌≡◌, ◌≢◌, ◌↔◌, ◌⊎◌, refl, true, Option, none, some, arith, eq_iff,
}
use staykey_ha_plugin.StateFilter.{before_dot, domain_of, should_forward_state}

-- No "." among the characters.
abbrev pub HasNoDot : String → Type 0
HasNoDot String.[] = Unit
HasNoDot (String.◌∷◌ c s) = (code c ≢ b'.') × HasNoDot s

before_dot-append :
    (d rest : String) → HasNoDot d → before_dot (String.◌++◌ d (String.◌++◌ "." rest)) ≡ some d
unfolding before_dot
before_dot-append String.[] rest h = rw nil-append (rw cons-append refl)
before_dot-append (String.◌∷◌ c s) rest (h, hs) =
    rw cons-append (ground (arith, before_dot-append s rest hs))

-- The domain of an entity ID is what stands before its first ".".
domain_of-append :
    (d rest : String) → HasNoDot d → domain_of (String.◌++◌ d (String.◌++◌ "." rest)) ≡ d
unfolding domain_of
domain_of-append d rest h = rw (before_dot-append d rest h, domain_of)

-- A state is forwarded exactly when it differs from the state before, if there was one, and is not a
-- cover's state on the way.
pub should_forward_state_iff :
    (d rest s : String) (p : Option String)
    → HasNoDot d
    → (should_forward_state (String.◌++◌ d (String.◌++◌ "." rest)) s p ≡ true)
      ↔ ((p ≢ some s) × (d ≡ "cover" → (s ≡ "open") ⊎ (s ≡ "closed")))
unfolding should_forward_state
should_forward_state_iff d rest s none h = rw (domain_of-append d rest h) (
  λ e. (λ q. cc, λ c. ground (arith, eq_iff d "cover", eq_iff s "open", eq_iff s "closed")),
  λ h. ground (arith, eq_iff d "cover", eq_iff s "open", eq_iff s "closed", h.1),
)
should_forward_state_iff d rest s (some p) h = rw (domain_of-append d rest h) (
  λ e. (
    λ q. ground (arith, eq_iff s p),
    λ c. ground (arith, eq_iff d "cover", eq_iff s "open", eq_iff s "closed"),
  ),
  λ h. ground (arith, eq_iff d "cover", eq_iff s "open", eq_iff s "closed", eq_iff s p, h.1),
)
