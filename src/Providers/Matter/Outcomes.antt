-- ===== src/Providers/Matter/Outcomes.antt =====
-- What the Matter provider writes and answers (services/providers/matter.py).
pub mod Writes
use staykey_ha_plugin.Prelude.{
  ℕ, zero, suc, ◌+◌, ◌≤◌, ◌<◌, String, ◌≡◌, ◌≢◌, refl, ◌⊎◌, inl, inr, Bool, true, false, Option,
  none, some, List, [], ◌∷◌, All, arith, Bool-cases, Option-cases, if◌then◌else◌,
}
use staykey_ha_plugin.Python.Exec.{Exception, Result-cases, Exec, Result, ok, err}
use staykey_ha_plugin.Python.Int.{ℤ, pos, negsuc}
use staykey_ha_plugin.Python.Value.{Value, str, int, Fields, get, put}
use staykey_ha_plugin.Providers.{Services, ProviderResult, SlotInfo}
use staykey_ha_plugin.Providers.Matter.{
  credential_status, has_credential, truthy_at, given, entity_response, lock_info, max_slots_in,
}
use staykey_ha_plugin.Providers.Matter.Errors.{enrich, exceeds, classified}
use staykey_ha_plugin.Providers.Matter.Codes.{
  confirm, set_failed, set_returned, set_known, set_code, clear_orphan, clear_user, clear_known,
  clear_code, read_slots, read_codes,
}
use staykey_ha_plugin.Providers.Matter.Reports.{result, request_payload, confirmed_by, row}

-- Verified and without an error, or not verified and with one, for the slot that was asked for.
abbrev pub IsOutcome : ℤ → ProviderResult → Type 0
IsOutcome slot r =
    (r.slot ≡ slot)
    × ((r.verified ≡ true) × (r.error ≡ none) ⊎ (r.verified ≡ false) × (r.error ≢ none))

abbrev pub EndsWell : ℤ → Result ProviderResult → Type 0
EndsWell slot (ok r) = IsOutcome slot r
EndsWell slot (err e) = Unit

module _ {S : Type 0} (call : Services S) (entity_id : String) (slot : ℤ) where
  confirm-IsOutcome :
      (x : Option Fields) (s : S) → IsOutcome slot (confirm call entity_id slot x s).0
  unfolding confirm
  confirm-IsOutcome x s = ground arith

  set_failed-IsOutcome :
      (x : Option Fields) (e : Exception) (s : S)
      → IsOutcome slot (set_failed call entity_id slot x e s).0
  unfolding set_failed
  set_failed-IsOutcome x e s = ground arith

  set_returned-IsOutcome :
      (x : Option Fields) (v : Value) (s : S)
      → IsOutcome slot (set_returned call entity_id slot x v s).0
  unfolding set_returned
  set_returned-IsOutcome x v s = ground (arith, confirm-IsOutcome x s)

  set_known-IsOutcome :
      (code : String) (x : Option Fields) (s : S)
      → IsOutcome slot (set_known call entity_id slot code x s).0
  unfolding set_known
  set_known-IsOutcome code x s =
      from_result (call "matter.set_lock_credential" (request_payload entity_id slot code x) s).0
        refl
    where
      from_result :
          (r : Result Value)
          → (call "matter.set_lock_credential" (request_payload entity_id slot code x) s).0 ≡ r
          → IsOutcome slot (set_known call entity_id slot code x s).0
      from_result (ok v) e =
          rw (e, set_known)
            (set_returned-IsOutcome x v
              (call "matter.set_lock_credential" (request_payload entity_id slot code x) s).1)
      from_result (err y) e =
          rw (e, set_known)
            (set_failed-IsOutcome x y
              (call "matter.set_lock_credential" (request_payload entity_id slot code x) s).1)

  -- Setting a code answers for its slot: verified and without an error, or not verified and with one.
  pub set_code-IsOutcome :
      (code : String) (s : S) → IsOutcome slot (set_code call entity_id slot code s).0
  unfolding set_code
  set_code-IsOutcome code s = elim (Result-cases (credential_status call entity_id slot s).0) [
    | inl (e, failed) ↦ rw (failed, set_code) (refl, inr (refl, λ p. cc))
    | inr (x, known) ↦
        rw (known, set_code)
          (set_known-IsOutcome code x (credential_status call entity_id slot s).1)
  ]

  clear_orphan-EndsWell : (s : S) → EndsWell slot (clear_orphan call entity_id slot s).0
  unfolding clear_orphan
  clear_orphan-EndsWell s = ground arith

  clear_user-EndsWell : (v : Value) (s : S) → EndsWell slot (clear_user call entity_id slot v s).0
  unfolding clear_user
  clear_user-EndsWell v s = ground arith

  clear_known-EndsWell :
      (x : Option Fields) (s : S) → EndsWell slot (clear_known call entity_id slot x s).0
  unfolding clear_known
  clear_known-EndsWell none s = ground arith
  clear_known-EndsWell (some existing) s =
      elim (Bool-cases (truthy_at "credential_exists" existing)) [
        | inr empty ↦ rw (empty, clear_known) (refl, inl (refl, refl))
        | inl held ↦
            rw (held, clear_known)
              (elim (Option-cases (given "user_index" existing)) [
                | inl orphan ↦ rw orphan (clear_orphan-EndsWell s)
                | inr (v, owned) ↦ rw owned (clear_user-EndsWell v s)
              ])
      ]

  -- Clearing a code that does not raise answers for its slot: verified and without an error, or not
  -- verified and with one.
  pub clear_code-EndsWell : (s : S) → EndsWell slot (clear_code call entity_id slot s).0
  unfolding clear_code
  clear_code-EndsWell s = elim (Result-cases (credential_status call entity_id slot s).0) [
    | inl (e, failed) ↦ rw (failed, clear_code) (refl, inr (refl, λ p. cc))
    | inr (x, known) ↦
        rw (known, clear_code) (clear_known-EndsWell x (credential_status call entity_id slot s).1)
  ]

-- Rows for slots from a first one on, up to a last one, in order and without codes.
abbrev pub AreRows : ℕ → ℕ → List SlotInfo → Type 0
AreRows first last [] = Unit
AreRows first last (i ∷ is) =
    (n : ℕ) × (i.slot ≡ pos n)
    × (first ≤ n)
    × (n ≤ last)
    × (i.code ≡ none)
    × AreRows (n + 1) last is

AreRows-weaken : (m n last : ℕ) (is : List SlotInfo) → m ≤ n → AreRows n last is → AreRows m last is
AreRows-weaken m n last [] le h = tt
AreRows-weaken m n last (i ∷ is) le (k, e, lo, hi, c, h) = (k, e, omega arith, hi, c, h)

row-some :
    (n : ℕ) (r : Result (Option Fields)) (i : SlotInfo)
    → row n r ≡ some i
    → (i.slot ≡ pos n) × (i.code ≡ none)
row-some n (err e) i p = cc
row-some n (ok none) i p = cc
row-some n (ok (some status)) i p = ground arith

read_slots-AreRows :
    {S : Type 0} (call : Services S) (entity_id : String) (n first last : ℕ) (s : S)
    → n + first ≤ suc last
    → AreRows first last (read_slots call n first entity_id s).0
unfolding read_slots
read_slots-AreRows call entity_id zero first last s h = tt
read_slots-AreRows call entity_id (suc n) first last s h =
    let later =
      read_slots-AreRows call entity_id n (first + 1) last
        (credential_status call entity_id (pos first) s).1 (omega arith) in
    elim (Option-cases (row first (credential_status call entity_id (pos first) s).0)) [
      | inl skipped ↦
          rw (skipped, read_slots) (AreRows-weaken first (first + 1) last _ (omega arith) later)
      | inr (i, shown) ↦
          rw (shown, read_slots)
            (let (slot, code) =
                row-some first (credential_status call entity_id (pos first) s).0 i shown in
              (first, slot, omega arith, omega arith, code, later))
    ]

-- The listing of the slots has rows from 1 up to the limit, in order, each slot at most once, and
-- never a code.
read_codes-AreRows :
    {S : Type 0} (call : Services S) (entity_id : String) (max_slots : ℕ) (s : S)
    → AreRows 1 max_slots (read_codes call entity_id (pos max_slots) s).0
unfolding read_codes
read_codes-AreRows call entity_id max_slots s =
    read_slots-AreRows call entity_id max_slots 1 max_slots s (omega arith)
