-- ===== src/Providers/Zwave.antt =====
-- services/providers/zwave.py. The pauses between the calls are left out. The description of the
-- node is that of Providers/NodeInfo.
pub mod Verified
pub mod Listing
use staykey_ha_plugin.Prelude.{
  ℕ, zero, suc, ◌+◌, String, Bool, true, false, not, ◌&&◌, ◌||◌, Option, none, some, List, [], ◌∷◌,
  ◌==◌, eqb, ltb, if◌then◌else◌,
}
use Prim.Native.String
use staykey_ha_plugin.Python.Decimal.{decimal, str_of, int_of}
use staykey_ha_plugin.Python.Exec.{Exec, Result, ok, err, exception_text, ◌<>◌}
use staykey_ha_plugin.Python.Int.{ℤ, pos, negsuc, le_ℕ}
use staykey_ha_plugin.Python.Value.{
  Value, null, bool, int, str, arr, obj, cons, nil, Fields, end, field, get, put,
}
use staykey_ha_plugin.Providers.{Services, ProviderResult, SlotInfo, CapabilityInfo}
use staykey_ha_plugin.Providers.Slots.{
  SlotState, Slots, le_int, find_slot, listed, parse_slots, same_code, same_state, slots_in, sorted,
}

abbrev slot_data : String → Option ℤ → Fields
slot_data entity_id none = field "entity_id" (str entity_id) end
slot_data entity_id (some slot) =
    field "entity_id" (str entity_id) (field "code_slot" (int slot) end)

abbrev report_data : String → ℤ → Fields
report_data entity_id slot = field "entity_id" (str entity_id) (
    field "command_class" (int (pos 99))
      (field "method_name" (str "get") (field "parameters" (arr (cons (int slot) nil)) end)))

abbrev pub succeeded : Result Value → Bool
succeeded (ok _) = true
succeeded (err _) = false

abbrev code_data : String → ℤ → String → Fields
code_data entity_id slot code =
    field "entity_id" (str entity_id)
      (field "code_slot" (int slot) (field "usercode" (str code) end))

abbrev length_of : Option String → ℕ
length_of none = 0
length_of (some s) = String.count s

-- What the read after a write tells: none where it confirms the code, else the error.
unfoldable pub verdict : ℤ → String → Option SlotState → Option SlotState → Option String
verdict slot code before none = some ("Slot " <> str_of slot <> " could not be read from lock")
verdict slot code before (some after) =
    if after.occupied && same_code after.code (some code)
    then none
    else if same_state after before
    then some (
        "Slot "
        <> str_of slot
        <> ": lock did not confirm the code (no response, or slot unchanged)")
    else some (
        "Slot "
        <> str_of slot
        <> " readback mismatch (expected_length="
        <> decimal (length_of (some code))
        <> ", actual_length="
        <> decimal (length_of after.code)
        <> ")")

abbrev set_result : ℤ → Bool → ℕ → Option String → ProviderResult
set_result slot verified attempts error = record {
  slot = slot;
  method = "zwave_set_and_verify";
  verified = verified;
  attempts = attempts;
  error = error;
  extra = end;
}

abbrev pub max_retries : ℕ
max_retries = 2

abbrev or_empty : Option Fields → Fields
or_empty none = end
or_empty (some d) = d

-- `max(slots)`, of the first slot and the others
unfoldable pub max_slot : ℤ → Slots → ℤ
max_slot n [] = n
max_slot n ((m, _) ∷ slots) = max_slot (if le_int m n then n else m) slots

abbrev no_codes : Fields → CapabilityInfo
no_codes info = record { supports_access_codes = false; max_slots = none; extra = info }

abbrev codes_up_to : ℤ → Fields → CapabilityInfo
codes_up_to n info = record {
  supports_access_codes = true;
  max_slots = some n;
  extra = put "max_code_slots" (int n) (put "supports_user_codes" (bool true) info);
}

module _ {S : Type 0} (call : Services S) where
  -- none where the call fails or returns no slots
  unfoldable pub get_usercodes : String → Option ℤ → S → Option Slots × S
  get_usercodes entity_id slot s =
      let (r, s') = call "zwave_js.get_lock_usercode" (slot_data entity_id slot) s in
      elim (slots_in entity_id r) [
        | none ↦ (none, s')
        | some slots ↦ (some (parse_slots slots []), s')
      ]

  unfoldable pub read_slot : String → ℤ → S → Option SlotState × S
  read_slot entity_id slot s =
      let (slots, s') = get_usercodes entity_id (some slot) s in
      elim slots [ none ↦ (none, s') | some found ↦ (find_slot slot found, s') ]

  unfoldable pub request_slot_report : String → ℤ → S → Bool × S
  request_slot_report entity_id slot s =
      let (r, s') = call "zwave_js.invoke_cc_api" (report_data entity_id slot) s in
      (succeeded r, s')

  -- the read back: only if the lock could be asked
  unfoldable pub read_back : String → ℤ → S → Option SlotState × S
  unfolding request_slot_report
  read_back entity_id slot s =
      let (requested, s') = request_slot_report entity_id slot s in
      if requested then read_slot entity_id slot s' else (none, s')

  -- one pass of the loop: none where the code was verified, else the error
  unfoldable pub try_code : String → ℤ → String → Option SlotState → S → Option String × S
  try_code entity_id slot code before s =
      let (r, s') = call "zwave_js.set_lock_usercode" (code_data entity_id slot code) s in
      elim r [
        | err e ↦ (some (exception_text e), s')
        | ok _ ↦
            let (after, s'') = read_back entity_id slot s' in (verdict slot code before after, s'')
      ]

  -- The passes left, and those that failed, with the error of the last.
  unfoldable pub try_codes :
      ℕ → ℕ → Option String → String → ℤ → String → Option SlotState → S → ProviderResult × S
  try_codes zero failed last_error entity_id slot code before s =
      (set_result slot false failed last_error, s)
  try_codes (suc n) failed last_error entity_id slot code before s =
      let (error, s') = try_code entity_id slot code before s in
      let rest = try_codes n (failed + 1) error entity_id slot code before s' in
      elim error [ none ↦ (set_result slot true (failed + 1) none, s') | some _ ↦ rest ]

  unfoldable pub set_code : String → ℤ → String → S → ProviderResult × S
  set_code entity_id slot code s =
      let (before, s') = read_slot entity_id slot s in
      try_codes (max_retries + 1) 0 none entity_id slot code before s'

  unfoldable pub clear_code : String → ℤ → Exec S ProviderResult
  clear_code entity_id slot s =
      let (r, s') = call "zwave_js.clear_lock_usercode" (slot_data entity_id (some slot)) s in
      elim r [
        | err e ↦ (err e, s')
        | ok _ ↦ (
          ok (record {
            slot = slot;
            method = "zwave_clear";
            verified = true;
            attempts = 1;
            error = none;
            extra = end;
          }),
          s',
        )
      ]

  -- `node_info` is `get_node_info`
  unfoldable pub get_capabilities : (String → Option Fields) → String → S → CapabilityInfo × S
  unfolding max_slot
  get_capabilities node_info entity_id s =
      let info = or_empty (node_info entity_id) in
      let (slots, s') = get_usercodes entity_id none s in
      elim slots [
        | none ↦ (no_codes info, s')
        | some [] ↦ (no_codes info, s')
        | some (x ∷ xs) ↦ (codes_up_to (max_slot x.0 xs) info, s')
      ]

  unfoldable pub read_codes : String → ℤ → S → List SlotInfo × S
  read_codes entity_id max_slots s =
      let (slots, s') = get_usercodes entity_id none s in
      elim slots [ none ↦ ([], s') | some found ↦ (listed max_slots (sorted found), s') ]
