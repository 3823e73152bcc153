-- ===== src/DeviceMap/Reverse.antt =====
-- The two directions of the device map agree (device_map.py).
use staykey_ha_plugin.Prelude.{
  String, ◌≡◌, ◌≢◌, Option, none, some, ◌==◌, eq_iff, arith, Option-cases, if◌then◌else◌, inl, inr,
}
use staykey_ha_plugin.Python.Dict.{Dict, lookup, erase, lookup-insert, lookup-erase}
use staykey_ha_plugin.DeviceMap.{
  text, or_empty, Device, DeviceMap, insert_truthy, erase_truthy, add_known, remove_found,
  remove_device, update_entity_id,
}

abbrev pub non_empty : String → Option String
non_empty s = if s == "" then none else some s

-- The entity that a device's entry names, if it names one.
abbrev pub named : Option Device → Option String
named none = none
named (some info) = non_empty (or_empty info.external_id)

abbrev pub entity_of : DeviceMap → String → Option String
entity_of m d = named (lookup d m.forward)

-- An entity is only listed for a device whose entry names it.
pub record IsSound (m : DeviceMap) : Type 0 where
  pub listed : (e d : String) → lookup e m.reverse ≡ some d → entity_of m d ≡ some e

-- And it is listed for every device whose entry names it.
pub record IsExact (m : DeviceMap) : Type 0 where
  pub sound : IsSound m
  pub complete : (e d : String) → entity_of m d ≡ some e → lookup e m.reverse ≡ some d

pub lookup-insert_truthy :
    (k j v : String) (d : Dict String)
    → lookup j (insert_truthy k v d)
      ≡ (if k == "" then lookup j d else if k == j then some v else lookup j d)
lookup-insert_truthy k j v d = ground (arith, lookup-insert k j v d)

lookup-erase_truthy :
    (k j : String) (d : Dict String)
    → lookup j (erase_truthy k d)
      ≡ (if k == "" then lookup j d else if k == j then none else lookup j d)
lookup-erase_truthy k j d = ground (arith, lookup-erase k j d)

module _ (i : String) (m : DeviceMap) where
  -- Removing a device, known or not, keeps every listed entity right.
  pub remove_device-IsSound : IsSound m → IsSound (remove_device i m)
  unfolding remove_device
  remove_device-IsSound h = elim (Option-cases (lookup i m.forward)) [
    | inl unknown ↦ rw (unknown, remove_found) h
    | inr (info, found) ↦
        rw (found, remove_found)
          (record {
            listed = λ e d p. ground (
              arith,
              found,
              lookup-erase i d m.forward,
              lookup-erase_truthy (or_empty info.external_id) e m.reverse,
              h.listed e d,
              eq_iff i d,
              eq_iff (or_empty info.external_id) e,
            );
          })
  ]

  -- Removing a device, known or not, keeps the two directions in agreement.
  remove_device-IsExact : IsExact m → IsExact (remove_device i m)
  unfolding remove_device
  remove_device-IsExact h = elim (Option-cases (lookup i m.forward)) [
    | inl unknown ↦ rw (unknown, remove_found) h
    | inr (info, found) ↦ record {
      sound = remove_device-IsSound h.sound;
      complete = λ e d.
          rw (found, remove_found)
            λ p. ground (
              arith,
              found,
              lookup-erase i d m.forward,
              lookup-erase_truthy (or_empty info.external_id) e m.reverse,
              h.complete e d,
              h.complete (or_empty info.external_id) i,
              eq_iff i d,
              eq_iff (or_empty info.external_id) e,
            );
    }
  ]

  module _ (device : Device) where
    -- Adding a device under an ID that the map does not know.
    pub add_known-IsSound : lookup i m.forward ≡ none → IsSound m → IsSound (add_known i device m)
    unfolding add_known
    add_known-IsSound fresh h = record {
      listed = λ e d p. ground (
        arith,
        fresh,
        lookup-insert i d device m.forward,
        lookup-insert_truthy (or_empty device.external_id) e i m.reverse,
        h.listed e d,
        eq_iff i d,
        eq_iff (or_empty device.external_id) e,
      );
    }

    -- Adding a device under an ID that the map does not know, for an entity that no device has.
    pub add_known-IsExact :
        lookup i m.forward ≡ none
        → lookup (or_empty device.external_id) m.reverse ≡ none
        → IsExact m
        → IsExact (add_known i device m)
    unfolding add_known
    add_known-IsExact fresh untracked h = record {
      sound = add_known-IsSound fresh h.sound;
      complete = λ e d p. ground (
        arith,
        fresh,
        untracked,
        lookup-insert i d device m.forward,
        lookup-insert_truthy (or_empty device.external_id) e i m.reverse,
        h.complete e d,
        eq_iff i d,
        eq_iff (or_empty device.external_id) e,
      );
    }

  -- Renaming a device's entity, when the old name is the one that its entry has, or both are empty.
  pub update_entity_id-IsSound :
      (old to : String)
      → to ≢ ""
      → entity_of m i ≡ non_empty old
      → IsSound m
      → IsSound (update_entity_id i old to m)
  unfolding update_entity_id
  update_entity_id-IsSound old to real current h = elim (Option-cases (lookup i m.forward)) [
    | inl unknown ↦ rw (unknown, update_entity_id) h
    | inr (info, found) ↦
        rw (found, update_entity_id)
          (record {
            listed = λ e d p. ground (
              arith,
              found,
              lookup-insert i d (record info { external_id = text to }) m.forward,
              lookup-insert to e i (erase old m.reverse),
              lookup-erase old e m.reverse,
              h.listed e d,
              eq_iff i d,
              eq_iff to e,
              eq_iff old e,
              eq_iff to "",
            );
          })
  ]

  -- The same, and to a name that no device has: the two directions still agree.
  update_entity_id-IsExact :
      (old to : String)
      → to ≢ ""
      → entity_of m i ≡ non_empty old
      → lookup to m.reverse ≡ none
      → IsExact m
      → IsExact (update_entity_id i old to m)
  unfolding update_entity_id
  update_entity_id-IsExact old to real current untracked h =
      elim (Option-cases (lookup i m.forward)) [
        | inl unknown ↦ rw (unknown, update_entity_id) h
        | inr (info, found) ↦ record {
          sound = update_entity_id-IsSound old to real current h.sound;
          complete = λ e d.
              rw (found, update_entity_id)
                λ p. ground (
                  arith,
                  found,
                  lookup-insert i d (record info { external_id = text to }) m.forward,
                  lookup-insert to e i (erase old m.reverse),
                  lookup-erase old e m.reverse,
                  h.complete e d,
                  h.complete old i,
                  eq_iff i d,
                  eq_iff to e,
                  eq_iff old e,
                  eq_iff to "",
                );
        }
      ]
