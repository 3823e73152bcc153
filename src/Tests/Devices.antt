-- ===== src/Tests/Devices.antt =====
-- Device maps of one or two locks (device_map.py).
use staykey_ha_plugin.Prelude.{
  String, ◌≡◌, inl, inr, refl, ap, ◌∙◌, none, some, [], ◌∷◌, arith, eq_iff,
}
use staykey_ha_plugin.Python.Exec.{ok}
use staykey_ha_plugin.Python.Dict.{lookup}
use staykey_ha_plugin.DeviceMap.{
  text, absent, Device, DeviceMap, new, add_known, add_device, load_sync, apply_update,
  get_device_id, get_entity_id,
}
use staykey_ha_plugin.DeviceMap.Reverse.{IsSound, IsExact}
use staykey_ha_plugin.DeviceMap.Loaded.{load_sync-finds}
use staykey_ha_plugin.DeviceMap.Sync.{
  AreApart, load_sync-IsExact, apply_update-IsSound, add_known_stale,
}

abbrev pub front_door : Device
front_door = record { device_id = some "d1"; external_id = text "lock.front"; unique_id = absent }

abbrev back_door : Device
back_door = record { device_id = some "d2"; external_id = text "lock.back"; unique_id = text "z2" }

abbrev side_door : Device
side_door = record { device_id = some "d1"; external_id = text "lock.side"; unique_id = absent }

abbrev pub one_lock : DeviceMap
one_lock = record {
  forward = ("d1", front_door) ∷ [];
  reverse = ("lock.front", "d1") ∷ [];
  unique_ids = [];
}

doors-AreApart : AreApart (front_door ∷ back_door ∷ [])
doors-AreApart = (
  (
    (λ e. ground (arith, eq_iff "d1" "d2"), λ e. ground (arith, eq_iff "lock.front" "lock.back")),
    tt,
  ),
  (tt, tt),
)

load_sync-IsExact_example : IsExact (load_sync (front_door ∷ back_door ∷ []) new).1
load_sync-IsExact_example = load_sync-IsExact (front_door ∷ back_door ∷ []) new doors-AreApart

load_sync-finds_example :
    (get_entity_id "d2" (load_sync (front_door ∷ back_door ∷ []) one_lock).1
      ≡ ok (some "lock.back"))
    × (get_device_id "lock.back" (load_sync (front_door ∷ back_door ∷ []) one_lock).1 ≡ some "d2")
unfolding load_sync add_device
load_sync-finds_example =
    load_sync-finds (front_door ∷ back_door ∷ []) one_lock back_door "d2" "lock.back" doors-AreApart
      refl (inr (inl refl)) refl refl (λ e. cc)

pub one_lock-IsExact : IsExact one_lock
unfolding lookup
one_lock-IsExact = record {
  sound = record { listed = λ e d. ground (arith, eq_iff "lock.front" e, eq_iff "d1" d) };
  complete = λ e d. ground (arith, eq_iff "lock.front" e, eq_iff "d1" d);
}

apply_update-IsSound_example : IsSound (apply_update "add" (some back_door) none one_lock).1
unfolding lookup
apply_update-IsSound_example =
    apply_update-IsSound "add" (some back_door) none one_lock
      (λ adds a i given is. unknown a i given is) one_lock-IsExact.sound
  where
    unknown :
        (a : Device) (i : String)
        → some back_door ≡ some a
        → a.device_id ≡ some i
        → lookup i one_lock.forward ≡ none
    unknown a i given is =
        let same : back_door ≡ a = cc in
        let id : some "d2" ≡ some i = ap (λ (x : Device). x.device_id) same ∙ is in
        ground (arith, eq_iff "d1" i, eq_iff "d1" "d2")

add_known_stale_example :
    (get_device_id "lock.front" (add_known "d1" side_door one_lock) ≡ some "d1")
    × ¬ IsSound (add_known "d1" side_door one_lock)
unfolding get_device_id lookup
add_known_stale_example = add_known_stale "d1" "lock.front" side_door one_lock refl (λ e. cc)
