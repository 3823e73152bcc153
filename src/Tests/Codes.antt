-- ===== src/Tests/Codes.antt =====
-- Locks behind services that always answer the same (services/providers).
use staykey_ha_plugin.Prelude.{ℕ, ◌+◌, ◌≡◌, refl, true, []}
use staykey_ha_plugin.Python.Decimal.{int_of}
use staykey_ha_plugin.Python.Exec.{ok}
use staykey_ha_plugin.Python.Int.{pos}
use staykey_ha_plugin.Python.Value.{bool, int, str, obj, Fields, end, field, get}
use staykey_ha_plugin.Providers.{Services}
use staykey_ha_plugin.Providers.Slots
use staykey_ha_plugin.Providers.Zwave
use staykey_ha_plugin.Providers.Zwave.Verified.{
  EndsConfirmed, IsTaking, set_code-EndsConfirmed, set_code_of_IsTaking,
}
use staykey_ha_plugin.Providers.Matter.{credential_status}
use staykey_ha_plugin.Providers.Matter.Codes
use staykey_ha_plugin.Providers.Matter.Outcomes.Writes.{
  logged, set_writes, clear_writes, set_code-set_writes, clear_code-clear_writes,
}

-- Z-Wave JS that lists the code 1234 in slot 3, and counts the calls.
abbrev zwave_js : Services ℕ
zwave_js name d n = (
  ok (obj (field "3" (obj (field "in_use" (bool true) (field "usercode" (str "1234") end))) end)),
  n + 1,
)

zwave_js-IsTaking : IsTaking zwave_js "lock.front" (pos 3) "1234"
unfolding Zwave.request_slot_report Zwave.read_slot Zwave.get_usercodes Slots.slots_in
    Slots.parse_slots Slots.parse_slot Slots.put_slot Slots.find_slot int_of get
zwave_js-IsTaking = record { writes = λ s. (_, refl); reports = λ s. refl; lists = λ s. refl }

set_code_of_IsTaking_example :
    ((Zwave.set_code zwave_js "lock.front" (pos 3) "1234" 0).0.verified ≡ true)
    × ((Zwave.set_code zwave_js "lock.front" (pos 3) "1234" 0).0.attempts ≡ 1)
set_code_of_IsTaking_example =
    set_code_of_IsTaking zwave_js "lock.front" (pos 3) "1234" zwave_js-IsTaking 0

zwave_js-verified : (Zwave.set_code zwave_js "lock.front" (pos 3) "1234" 0).0.verified ≡ true
zwave_js-verified =
    (set_code_of_IsTaking zwave_js "lock.front" (pos 3) "1234" zwave_js-IsTaking 0).0

set_code-EndsConfirmed_example :
    EndsConfirmed zwave_js "lock.front"
      (pos 3)
      "1234"
      (Zwave.set_code zwave_js "lock.front" (pos 3) "1234" 0).1
set_code-EndsConfirmed_example =
    set_code-EndsConfirmed zwave_js "lock.front" (pos 3) "1234" 0 zwave_js-verified

-- Matter, where every slot is in use by user 2, and counts the calls.
abbrev occupied : Fields
occupied = field "credential_exists" (bool true) (field "user_index" (int (pos 2)) end)

abbrev pub matter : Services ℕ
matter name d n = (ok (obj occupied), n + 1)

set_code-set_writes_example :
    (Codes.set_code (logged matter) "lock.back" (pos 4) "1234" (0, [])).1.1
    ≡ set_writes matter "lock.back"
        (pos 4)
        "1234"
        (credential_status matter "lock.back" (pos 4) 0).0
set_code-set_writes_example = set_code-set_writes matter "lock.back" (pos 4) "1234" 0

clear_code-clear_writes_example :
    (Codes.clear_code (logged matter) "lock.back" (pos 4) (0, [])).1.1
    ≡ clear_writes matter "lock.back" (pos 4) (credential_status matter "lock.back" (pos 4) 0).0
clear_code-clear_writes_example = clear_code-clear_writes matter "lock.back" (pos 4) 0
