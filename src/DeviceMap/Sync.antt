-- ===== src/DeviceMap/Sync.antt =====
-- What a synchronisation and an update leave in the device map (device_map.py).
use staykey_ha_plugin.Prelude.{
  String, ◌≡◌, ◌≢◌, Option, none, some, List, [], ◌∷◌, ◌==◌, eq_iff, arith, Option-cases,
  Bool-cases, All, inl, inr,
}
use staykey_ha_plugin.Python.Dict.{lookup, lookup-insert, lookup-erase, lookup-empty}
use staykey_ha_plugin.Python.Exec.{modify, ◌>>=◌, ◌>>◌}
use staykey_ha_plugin.DeviceMap.{
  or_empty, Device, DeviceMap, new, add_known, id_of, add_device, remove_found, remove_device,
  add_devices, load_sync, get_device_id, apply_update,
}
use staykey_ha_plugin.DeviceMap.Reverse.{
  IsSound, IsExact, add_known-IsExact, add_known-IsSound, remove_device-IsSound,
  lookup-insert_truthy,
}

-- Two devices with different IDs that do not name the same entity.
abbrev pub Apart : Device → Device → Type 0
Apart a b =
    (a.device_id ≢ b.device_id)
    × (or_empty a.external_id ≡ or_empty b.external_id → or_empty a.external_id ≡ "")

abbrev pub AreApart : List Device → Type 0
AreApart [] = Unit
AreApart (a ∷ ds) = All (Apart a) ds × AreApart ds

abbrev pub IsNew : DeviceMap → Device → Type 0
IsNew m a =
    ((i : String) → a.device_id ≡ some i → lookup i m.forward ≡ none)
    × (lookup (or_empty a.external_id) m.reverse ≡ none)

IsNew-add_known :
    (m : DeviceMap) (a b : Device) (i : String)
    → a.device_id ≡ some i
    → Apart a b
    → IsNew m b
    → IsNew (add_known i a m) b
unfolding add_known
IsNew-add_known m a b i is apart (ids, entity) = (
  λ j e. ground (arith, lookup-insert i j a m.forward, ids j, eq_iff i j, apart.0),
  ground (
    arith,
    entity,
    lookup-insert_truthy (or_empty a.external_id) (or_empty b.external_id) i m.reverse,
    eq_iff (or_empty a.external_id) (or_empty b.external_id),
    eq_iff (or_empty a.external_id) "",
  ),
)

All-IsNew-add_known :
    (m : DeviceMap) (a : Device) (i : String) (ds : List Device)
    → a.device_id ≡ some i
    → All (Apart a) ds
    → All (IsNew m) ds
    → All (IsNew (add_known i a m)) ds
All-IsNew-add_known m a i [] is apart h = tt
All-IsNew-add_known m a i (b ∷ ds) is (p, apart) (q, h) =
    (IsNew-add_known m a b i is p q, All-IsNew-add_known m a i ds is apart h)

add_devices-IsExact :
    (ds : List Device) (m : DeviceMap)
    → AreApart ds
    → All (IsNew m) ds
    → IsExact m
    → IsExact (add_devices ds m).1
unfolding add_devices add_device
add_devices-IsExact [] m apart fresh h = h
add_devices-IsExact (a ∷ ds) m (first, apart) ((ids, entity), fresh) h =
    elim (Option-cases a.device_id) [
      | inl missing ↦ simp (missing, id_of) h
      | inr (i, is) ↦
          simp (is, id_of)
            (add_devices-IsExact ds (add_known i a m) apart
              (All-IsNew-add_known m a i ds is first fresh)
              (add_known-IsExact i m a (ids i is) entity h))
    ]

IsExact-new : IsExact new
unfolding new
IsExact-new = record {
  sound = record { listed = λ e d p. cc (lookup-empty {V = String} e) };
  complete = λ e d p. ground (arith, lookup-empty {V = Device} d);
}

All-IsNew-new : (ds : List Device) → All (IsNew new) ds
unfolding new
All-IsNew-new [] = tt
All-IsNew-new (a ∷ ds) =
    ((λ i e. lookup-empty i, lookup-empty (or_empty a.external_id)), All-IsNew-new ds)

-- A synchronisation with devices of different IDs and different entities leaves a map whose two
-- directions agree, whatever it held before, and also where an entry without an ID stops it.
pub load_sync-IsExact :
    (ds : List Device) (m : DeviceMap) → AreApart ds → IsExact (load_sync ds m).1
unfolding load_sync
load_sync-IsExact ds m apart = add_devices-IsExact ds new apart (All-IsNew-new ds) IsExact-new

lookup-remove_device : (i : String) (m : DeviceMap) → lookup i (remove_device i m).forward ≡ none
unfolding remove_device remove_found
lookup-remove_device i m = ground (arith, lookup-erase i i m.forward, eq_iff i i)

add_device-IsSound :
    (a : Device) (m : DeviceMap)
    → ((i : String) → a.device_id ≡ some i → lookup i m.forward ≡ none)
    → IsSound m
    → IsSound (add_device a m).1
unfolding add_device
add_device-IsSound a m fresh h = elim (Option-cases a.device_id) [
  | inl missing ↦ simp (missing, id_of) h
  | inr (i, is) ↦ simp (is, id_of) (add_known-IsSound i m a (fresh i is) h)
]

-- `update`: the old entry goes before the new one comes
replace_device-IsSound :
    (a : Device) (m : DeviceMap)
    → IsSound m
    → IsSound ((id_of a >>= λ i. modify (remove_device i) >> add_device a) m).1
unfolding add_device
replace_device-IsSound a m h = elim (Option-cases a.device_id) [
  | inl missing ↦ simp (missing, id_of) h
  | inr (i, is) ↦
      simp (is, id_of)
        (add_known-IsSound i (remove_device i m) a (lookup-remove_device i m)
          (remove_device-IsSound i m h))
]

-- An update keeps every listed entity right: always for `remove`, `update` and unknown actions, and
-- for `add` if the map does not know the device's ID.
pub apply_update-IsSound :
    (action : String) (device : Option Device) (device_id : Option String) (m : DeviceMap)
    → (action ≡ "add"
        → (a : Device) (i : String) → device ≡ some a
        → a.device_id ≡ some i
        → lookup i m.forward ≡ none)
    → IsSound m
    → IsSound (apply_update action device device_id m).1
unfolding apply_update
apply_update-IsSound action device device_id m fresh h = elim (Bool-cases (action == "add")) [
  | inl adds ↦ rw adds (elim (Option-cases device) [
    | inl missing ↦ rw missing h
    | inr (a, given) ↦
        rw given (add_device-IsSound a m (λ i is. fresh ((eq_iff _ _).0 adds) a i given is) h)
  ])
  | inr no_add ↦ rw no_add (elim (Bool-cases (action == "remove")) [
    | inl removes ↦ rw removes (elim (Option-cases device_id) [
      | inl missing ↦ rw missing h
      | inr (i, given) ↦ rw given (remove_device-IsSound i m h)
    ])
    | inr no_remove ↦ rw no_remove (elim (Bool-cases (action == "update")) [
      | inl updates ↦ rw updates (elim (Option-cases device) [
        | inl missing ↦ rw missing h
        | inr (a, given) ↦ rw given (replace_device-IsSound a m h)
      ])
      | inr other ↦ rw other h
    ])
  ])
]

-- An `add` for a device that is listed under another entity leaves the old entity listed for it, so
-- the map is no longer right.
pub add_known_stale :
    (i e : String) (a : Device) (m : DeviceMap)
    → get_device_id e m ≡ some i
    → or_empty a.external_id ≢ e
    → (get_device_id e (add_known i a m) ≡ some i) × ¬ IsSound (add_known i a m)
unfolding get_device_id add_known
add_known_stale i e a m was other =
    let still : lookup e (add_known i a m).reverse ≡ some i = ground (
      arith,
      was,
      lookup-insert_truthy (or_empty a.external_id) e i m.reverse,
      eq_iff (or_empty a.external_id) e,
    ) in
    (still, λ s. ground (arith, s.listed e i still, lookup-insert i i a m.forward, eq_iff i i))
