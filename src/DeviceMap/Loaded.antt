-- ===== src/DeviceMap/Loaded.antt =====
-- What each device of a synchronisation is found as (device_map.py).
use staykey_ha_plugin.Prelude.{
  String, ◌≡◌, ◌≢◌, refl, sym, ap, ◌∙◌, subst, none, some, List, [], ◌∷◌, eq_iff, arith,
  Option-cases, All, inl, inr, ◌⊎◌,
}
use staykey_ha_plugin.Python.Dict.{lookup, lookup-insert}
use staykey_ha_plugin.Python.Exec.{key_error, ok, err}
use staykey_ha_plugin.DeviceMap.{
  text, Device, DeviceMap, new, add_known, id_of, add_device, add_devices, load_sync, get_entity_id,
  get_device_id,
}
use staykey_ha_plugin.DeviceMap.Reverse.{entity_of, named, non_empty}
use staykey_ha_plugin.DeviceMap.Sync.{Apart, AreApart, load_sync-IsExact}

-- A device of a list.
abbrev pub IsAmong : Device → List Device → Type 0
IsAmong d [] = ⊥
IsAmong d (a ∷ ds) = (a ≡ d) ⊎ IsAmong d ds

add_devices-keeps :
    (d : Device) (i : String) (ds : List Device) (m : DeviceMap)
    → d.device_id ≡ some i
    → All (Apart d) ds
    → lookup i m.forward ≡ some d
    → lookup i (add_devices ds m).1.forward ≡ some d
unfolding add_devices add_device
add_devices-keeps d i [] m is apart found = found
add_devices-keeps d i (a ∷ ds) m is (first, apart) found = elim (Option-cases a.device_id) [
  | inl missing ↦ simp (missing, id_of) found
  | inr (j, given) ↦
      let kept : lookup i (add_known j a m).forward ≡ some d =
        unfold add_known in
        ground (arith, lookup-insert j i a m.forward, found, first.0, is, given, eq_iff j i) in
      simp (given, id_of) (add_devices-keeps d i ds (add_known j a m) is apart kept)
]

add_devices-missing :
    (a : Device) (ds : List Device) (m : DeviceMap)
    → a.device_id ≡ none
    → (add_devices (a ∷ ds) m).0 ≡ err (key_error "device_id")
unfolding add_devices add_device
add_devices-missing a ds m missing = simp (missing, id_of) refl

add_devices-given :
    (a : Device) (j : String) (ds : List Device) (m : DeviceMap)
    → a.device_id ≡ some j
    → add_devices (a ∷ ds) m ≡ add_devices ds (add_known j a m)
unfolding add_devices add_device
add_devices-given a j ds m given = simp (given, id_of) refl

add_devices-first :
    (d : Device) (i : String) (a : Device) (ds : List Device) (j : String) (m : DeviceMap)
    → d.device_id ≡ some i
    → a ≡ d
    → a.device_id ≡ some j
    → All (Apart a) ds
    → lookup i (add_devices ds (add_known j a m)).1.forward ≡ some d
add_devices-first d i a ds j m is here given first =
    let at_i : j ≡ i = ground (arith, sym given ∙ ap (λ (x : Device). x.device_id) here ∙ is) in
    let found : lookup i (add_known j a m).forward ≡ some d =
      unfold add_known in
      ground (arith, lookup-insert j i a m.forward, eq_iff j i, at_i, ap some here) in
    add_devices-keeps d i ds (add_known j a m) is (subst (λ x. All (Apart x) ds) here first) found

add_devices-finds :
    (d : Device) (i : String) (ds : List Device) (m : DeviceMap)
    → d.device_id ≡ some i
    → AreApart ds
    → IsAmong d ds
    → (add_devices ds m).0 ≡ ok tt
    → lookup i (add_devices ds m).1.forward ≡ some d
add_devices-finds d i [] m is apart among done = absurd among
add_devices-finds d i (a ∷ ds) m is (first, apart) among done = elim (Option-cases a.device_id) [
  | inl missing ↦ absurd (cc (add_devices-missing a ds m missing, done))
  | inr (j, given) ↦
      let same = add_devices-given a j ds m given in
      let done' = rw same at done in
      rw same (elim among [
        | inl here ↦ add_devices-first d i a ds j m is here given first
        | inr later ↦ add_devices-finds d i ds (add_known j a m) is apart later done'
      ])
]

-- After a synchronisation with devices of different IDs and different entities that raises nothing: a
-- command for any of them goes to the entity that it names, and the entity is listed for it. It makes
-- no difference what the map held before.
pub load_sync-finds :
    (ds : List Device) (m : DeviceMap) (d : Device) (i e : String)
    → AreApart ds
    → (load_sync ds m).0 ≡ ok tt
    → IsAmong d ds
    → d.device_id ≡ some i
    → d.external_id ≡ text e
    → e ≢ ""
    → (get_entity_id i (load_sync ds m).1 ≡ ok (some e))
      × (get_device_id e (load_sync ds m).1 ≡ some i)
unfolding load_sync get_device_id get_entity_id
load_sync-finds ds m d i e apart done among is names filled =
    let found : lookup i (load_sync ds m).1.forward ≡ some d =
      add_devices-finds d i ds new is apart among done in
    let named_so : entity_of (load_sync ds m).1 i ≡ some e =
      rw (found, entity_of, names, named, non_empty) (ground (arith, eq_iff e "", filled)) in
    let goes : get_entity_id i (load_sync ds m).1 ≡ ok (some e) =
      rw (found, get_entity_id) (rw names refl) in
    (goes, (load_sync-IsExact ds m apart).complete e i named_so)
