-- ===== src/Providers/Zwave/Verified.antt =====
-- What `_set_and_verify_code` promises (services/providers/zwave.py).
use staykey_ha_plugin.Prelude.{
  ℕ, zero, suc, ◌+◌, ◌≤◌, String, ◌≡◌, ◌≢◌, refl, ap, true, false, Option, none, some, arith,
  eq_iff, eq_refl, ◌⊎◌, Bool-cases, Option-cases, inl, inr,
}
use staykey_ha_plugin.Python.Exec.{Result-cases, ok}
use staykey_ha_plugin.Python.Int.{ℤ}
use staykey_ha_plugin.Python.Value.{Value}
use staykey_ha_plugin.Providers.{Services, ProviderResult}
use staykey_ha_plugin.Providers.Slots.{SlotState, same_code}
use staykey_ha_plugin.Providers.Zwave.{
  read_slot, request_slot_report, code_data, verdict, read_back, try_code, try_codes, set_code,
}

abbrev pub holding : String → SlotState
holding code = record { occupied = true; code = some code }

same_code-eq : (a : Option String) (code : String) → same_code a (some code) ≡ true → a ≡ some code
same_code-eq none code e = cc
same_code-eq (some s) code e = ap some ((eq_iff s code).0 e)

verdict-none :
    (slot : ℤ) (code : String) (before after : Option SlotState)
    → verdict slot code before after ≡ none
    → after ≡ some (holding code)
unfolding verdict
verdict-none slot code before none e = cc
verdict-none slot code before (some a) e = ground (arith, same_code-eq a.code code)

verdict-holding :
    (slot : ℤ) (code : String) (before : Option SlotState)
    → verdict slot code before (some (holding code)) ≡ none
unfolding verdict
verdict-holding slot code before = ground (arith, eq_refl code)

module _ {S : Type 0} (call : Services S) (entity_id : String) (slot : ℤ) (code : String) where
  -- A read of the slot that reported the code, as the last call of a run that ends in a state.
  abbrev pub EndsConfirmed : S → Type 0
  EndsConfirmed s =
      (t : S) × ((read_slot call entity_id slot t).0 ≡ some (holding code))
      × ((read_slot call entity_id slot t).1 ≡ s)

  read_back-EndsConfirmed :
      (s : S)
      → (read_back call entity_id slot s).0 ≡ some (holding code)
      → EndsConfirmed (read_back call entity_id slot s).1
  unfolding read_back
  read_back-EndsConfirmed s e = elim (Bool-cases (request_slot_report call entity_id slot s).0) [
    | inl asked ↦ (
      (request_slot_report call entity_id slot s).1,
      rw (asked, read_back) at e,
      rw (asked, read_back),
    )
    | inr failed ↦ cc (rw (failed, read_back) at e)
  ]

  try_code-EndsConfirmed :
      (before : Option SlotState) (s : S)
      → (try_code call entity_id slot code before s).0 ≡ none
      → EndsConfirmed (try_code call entity_id slot code before s).1
  unfolding try_code
  try_code-EndsConfirmed before s e =
      elim (Result-cases (call "zwave_js.set_lock_usercode" (code_data entity_id slot code) s).0) [
        | inl (x, raised) ↦ cc (rw (raised, try_code) at e)
        | inr (v, wrote) ↦
            let t = (call "zwave_js.set_lock_usercode" (code_data entity_id slot code) s).1 in
            let told : verdict slot code before (read_back call entity_id slot t).0 ≡ none =
              rw (wrote, try_code) at e in
            rw (wrote, try_code)
              (read_back-EndsConfirmed t
                (verdict-none slot code before (read_back call entity_id slot t).0 told))
      ]

  try_codes-EndsConfirmed :
      (n failed : ℕ) (last : Option String) (before : Option SlotState) (s : S)
      → (try_codes call n failed last entity_id slot code before s).0.verified ≡ true
      → EndsConfirmed (try_codes call n failed last entity_id slot code before s).1
  unfolding try_codes
  try_codes-EndsConfirmed zero failed last before s e = cc
  try_codes-EndsConfirmed (suc n) failed last before s e =
      elim (Option-cases (try_code call entity_id slot code before s).0) [
        | inl done ↦ rw (done, try_codes) (try_code-EndsConfirmed before s done)
        | inr (x, again) ↦
            rw (again, try_codes)
              (try_codes-EndsConfirmed n (failed + 1) (try_code call entity_id slot code before s).0
                before (try_code call entity_id slot code before s).1 (rw (again, try_codes) at e))
      ]

  -- A code is only reported as verified if the last call was a read of the slot in which the lock
  -- reports it in use with that code.
  pub set_code-EndsConfirmed :
      (s : S)
      → (set_code call entity_id slot code s).0.verified ≡ true
      → EndsConfirmed (set_code call entity_id slot code s).1
  unfolding set_code
  set_code-EndsConfirmed s e =
      let (before, t) = read_slot call entity_id slot s in
      try_codes-EndsConfirmed 3 0 none before t e

  -- What a result of at most so many passes says: verified without an error, or all passes made and
  -- the error of the last.
  abbrev pub IsReport : ℕ → ProviderResult → Type 0
  IsReport n r =
      (r.slot ≡ slot)
      × ((r.verified ≡ true) × (1 ≤ r.attempts) × (r.attempts ≤ n) × (r.error ≡ none)
          ⊎ (r.verified ≡ false) × (r.attempts ≡ n) × (r.error ≢ none))

  try_codes-IsReport :
      (b n failed : ℕ) (last : Option String) (before : Option SlotState) (s : S)
      → n + failed ≡ b
      → (n ≡ 0 → last ≢ none)
      → IsReport b (try_codes call n failed last entity_id slot code before s).0
  unfolding try_codes
  try_codes-IsReport b zero failed last before s e h = (refl, inr (refl, omega arith, h refl))
  try_codes-IsReport b (suc n) failed last before s e h =
      elim (Option-cases (try_code call entity_id slot code before s).0) [
        | inl done ↦ rw (done, try_codes) (refl, inl (refl, omega arith, omega arith, refl))
        | inr (x, again) ↦
            rw (again, try_codes)
              (try_codes-IsReport b n (failed + 1) (try_code call entity_id slot code before s).0
                before (try_code call entity_id slot code before s).1 (omega arith)
                (λ over no_error. cc))
      ]

  -- Setting a code ends, after at most 3 attempts: verified and without an error, or not verified
  -- after 3 attempts and with an error.
  pub set_code-IsReport : (s : S) → IsReport 3 (set_code call entity_id slot code s).0
  unfolding set_code
  set_code-IsReport s =
      let (before, t) = read_slot call entity_id slot s in
      try_codes-IsReport 3 3 0 none before t refl (λ e. absurd (omega (arith, e)))

  -- A lock that takes a code: the write and the request for a report are carried out, and what is then
  -- listed for the slot is the code, in use.
  pub record IsTaking : Type 0 where
    pub writes :
        (s : S)
        → (v : Value) × ((call "zwave_js.set_lock_usercode" (code_data entity_id slot code) s).0
            ≡ ok v)
    pub reports : (s : S) → (request_slot_report call entity_id slot s).0 ≡ true
    pub lists :
        (s : S)
        → let t = (call "zwave_js.set_lock_usercode" (code_data entity_id slot code) s).1 in
          (read_slot call entity_id slot (request_slot_report call entity_id slot t).1).0
          ≡ some (holding code)

  try_code_of_IsTaking :
      IsTaking
      → (before : Option SlotState) (s : S) → (try_code call entity_id slot code before s).0 ≡ none
  unfolding try_code
  try_code_of_IsTaking h before s =
      let (v, wrote) = h.writes s in
      let t = (call "zwave_js.set_lock_usercode" (code_data entity_id slot code) s).1 in
      let back : (read_back call entity_id slot t).0 ≡ some (holding code) =
        unfold read_back in rw (h.reports t) (h.lists s) in
      rw (wrote, try_code) (rw back (verdict-holding slot code before))

  -- A lock that takes a code gets it verified at the first attempt, whatever the slot held before.
  pub set_code_of_IsTaking :
      IsTaking
      → (s : S)
      → ((set_code call entity_id slot code s).0.verified ≡ true)
        × ((set_code call entity_id slot code s).0.attempts ≡ 1)
  unfolding set_code try_codes
  set_code_of_IsTaking h s =
      let (before, t) = read_slot call entity_id slot s in
      let done = try_code_of_IsTaking h before t in
      (rw (done, try_codes) refl, rw (done, try_codes) refl)
