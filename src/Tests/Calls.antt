-- ===== src/Tests/Calls.antt =====
-- Commands for a Home Assistant that counts the calls of its handlers (services/ha_bridge.py,
-- handlers/batch.py).
use staykey_ha_plugin.Prelude.{ℕ, ◌+◌, ◌≡◌, refl, true, false, none, some, [], subst}
use staykey_ha_plugin.Python.Exec.{Exec, ok}
use staykey_ha_plugin.Python.Int.{pos}
use staykey_ha_plugin.Python.Value.{Value, null, str, arr, obj, cons, nil, end, field}
use staykey_ha_plugin.Commands.{Call, handle_command}
use staykey_ha_plugin.Commands.Support.{is_support_handler}
use staykey_ha_plugin.Commands.Table.{Home, run}
use staykey_ha_plugin.Commands.Table.Secure.{handle_command-secure}
use staykey_ha_plugin.Providers.{ProviderResult, LockProvider}
use staykey_ha_plugin.Handlers.Kept.{KeepsLock}
use staykey_ha_plugin.Tests.Devices.{one_lock}

-- The calls of all handlers, and those of the handlers for support.
abbrev Counts : Type 0
Counts = ℕ × ℕ

abbrev count : Call → Exec Counts Value
count c (n, k) = elim (is_support_handler c.handler) [
  | true ↦ (ok null, (n + 1, k + 1))
  | false ↦ (ok null, (n + 1, k))
]

abbrev lock_batch : Value
lock_batch = obj (field "commands" (arr (cons (obj (field "action" (str "lock") end)) nil)) end)

abbrev IsPrivate : Counts → Type 0
IsPrivate (n, k) = k ≡ 0

-- A lock, and a Home Assistant, that count what a provider and what a service does; the listing of
-- codes, the passthrough and a tap count as private.
abbrev counted : {A : Type 0} → A → Exec Counts A
counted a (n, k) = (ok a, (n + 1, k))

abbrev private : {A : Type 0} → A → Exec Counts A
private a (n, k) = (ok a, (n + 1, k + 1))

abbrev no_change : ProviderResult
no_change = record {
  slot = pos 1;
  method = "none";
  verified = true;
  attempts = 1;
  error = none;
  extra = end;
}

abbrev counting_lock : LockProvider Counts
counting_lock = record {
  name = "counting";
  set_code = λ e slot code. counted no_change;
  clear_code = λ e slot. counted no_change;
  read_codes = λ e n. private [];
  get_capabilities =
      λ e. counted (record { supports_access_codes = true; max_slots = none; extra = end });
}

abbrev counting_home : Home Counts
counting_home = record {
  call = λ name d. counted null;
  call_any = λ blocking answers name d. private null;
  watch = λ e s. (record { start = 0; initial = some "unlocked"; polls = [] }, s);
  entity_state = λ e s. none;
  hass_state = λ e s. none;
  node_info = λ e s. none;
  select = λ e. ok counting_lock;
  devices = λ s e. none;
  attributes = λ s e. none;
  entries = λ s. [];
  fired = λ s types. [];
  after_window = λ (n, k). (n, k + 1);
  details = λ e. record {
    type_name = "Exception";
    translation_domain = null;
    translation_key = null;
    translation_placeholders = null;
  };
  parse_float = λ s. none;
  show_other = λ v. "";
}

abbrev unlock_front : Value
unlock_front = obj (field "device_id" (str "d1") end)

counting_lock-Keeps : KeepsLock IsPrivate counting_lock
counting_lock-Keeps = record {
  sets = λ e slot code s q. q;
  clears = λ e slot s q. q;
  describes = λ e s q. q;
}

is_counting_lock : (p : LockProvider Counts) → ok counting_lock ≡ ok p → KeepsLock IsPrivate p
is_counting_lock p found =
    let same : counting_lock ≡ p = cc in subst (KeepsLock IsPrivate) same counting_lock-Keeps

handle_command-secure_example :
    IsPrivate
      (handle_command (run counting_home one_lock) false 3 false "unlock" unlock_front (0, 0)).1
handle_command-secure_example =
    handle_command-secure counting_home one_lock IsPrivate (λ name d is_device s q. q) (λ e s q. q)
      (λ e p found. is_counting_lock p found) 3 false "unlock" unlock_front (0, 0) refl
