-- ===== src/Python/Object.antt =====
-- Python objects as Home Assistant keeps them in attributes and events, and their conversions to
-- JSON: `_make_serializable` of handlers/state.py and of handlers/event_tap.py. A float is finite.
pub mod Json
use staykey_ha_plugin.Prelude.{ℕ, String, Bool}
use staykey_ha_plugin.Python.Int.{ℤ}
use staykey_ha_plugin.Python.Value.{
  Value, null, bool, int, float, str, arr, obj, Items, nil, cons, Fields, end, field, put,
}

-- What calling `isoformat` of an object does: there is none, it raises, or it returns a text.
pub data Iso : Type 0 where
  missing failing : Iso
  returning : String → Iso

mutual
  pub data Object : Type 0 where
    none_object : Object
    truth : Bool → Object
    whole : ℤ → Object
    fraction : ℤ → ℕ → Object
    text : String → Object
    -- a list or a tuple
    sequence : Objects → Object
    mapping : Pairs → Object
    -- Another object, with its `str`. An `as_dict` that raises counts as none.
    opaque : String → Iso → Object
    as_dict : String → Iso → Object → Object

  pub data Objects : Type 0 where
    nil_objects : Objects
    cons_objects : Object → Objects → Objects

  -- A dictionary, with the `str` of each key.
  pub data Pairs : Type 0 where
    no_pairs : Pairs
    pair : String → Object → Pairs → Pairs

-- `_make_serializable` of handlers/state.py. The pairs of a dictionary go, in their order, into the
-- dictionary made so far.
unfoldable mutual
  pub make_serializable : Object → Value
  make_serializable none_object = null
  make_serializable (truth b) = bool b
  make_serializable (whole i) = int i
  make_serializable (fraction m e) = float m e
  make_serializable (text s) = str s
  make_serializable (sequence os) = arr (serializable_items os)
  make_serializable (mapping ps) = obj (serializable_pairs ps end)
  make_serializable (opaque s iso) = str s
  make_serializable (as_dict s iso o) = str s

  pub serializable_items : Objects → Items
  serializable_items nil_objects = nil
  serializable_items (cons_objects o os) = cons (make_serializable o) (serializable_items os)

  pub serializable_pairs : Pairs → Fields → Fields
  serializable_pairs no_pairs d = d
  serializable_pairs (pair k o ps) d = serializable_pairs ps (put k (make_serializable o) d)

abbrev iso_or : Iso → Value → Value
iso_or (returning s) v = str s
iso_or _ v = v

-- `_make_serializable` of handlers/event_tap.py, the same way
unfoldable mutual
  pub tap_serializable : Object → Value
  tap_serializable none_object = null
  tap_serializable (truth b) = bool b
  tap_serializable (whole i) = int i
  tap_serializable (fraction m e) = float m e
  tap_serializable (text s) = str s
  tap_serializable (sequence os) = arr (tap_items os)
  tap_serializable (mapping ps) = obj (tap_pairs ps end)
  tap_serializable (opaque s iso) = iso_or iso (str s)
  tap_serializable (as_dict s iso o) = iso_or iso (tap_serializable o)

  pub tap_items : Objects → Items
  tap_items nil_objects = nil
  tap_items (cons_objects o os) = cons (tap_serializable o) (tap_items os)

  pub tap_pairs : Pairs → Fields → Fields
  tap_pairs no_pairs d = d
  tap_pairs (pair k o ps) d = tap_pairs ps (put k (tap_serializable o) d)
