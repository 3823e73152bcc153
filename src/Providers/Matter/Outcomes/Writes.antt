-- ===== src/Providers/Matter/Outcomes/Writes.antt =====
-- The services that the Matter provider has write to a lock (services/providers/matter.py).
use staykey_ha_plugin.Prelude.{
  String, ◌≡◌, refl, ap, ◌∙◌, Bool, ◌||◌, Option, none, some, List, [], ◌∷◌, ◌++◌, append-nil,
  arith, Bool-cases, Option-cases, inl, inr, ◌==◌, if◌then◌else◌,
}
use staykey_ha_plugin.Python.Exec.{Exception, Result-cases, Result, ok, err}
use staykey_ha_plugin.Python.Int.{ℤ}
use staykey_ha_plugin.Python.Value.{Value, int, str, Fields, end, field, put}
use staykey_ha_plugin.Providers.{Services}
use staykey_ha_plugin.Providers.Matter.{slot_data, credential_status, lock_info, truthy_at, given}
use staykey_ha_plugin.Providers.Matter.Errors.{enrich}
use staykey_ha_plugin.Providers.Matter.Codes.{
  confirm, set_failed, set_returned, set_known, set_code, clear_orphan, clear_user, clear_known,
  clear_code,
}
use staykey_ha_plugin.Providers.Matter.Reports.{request_payload, user_data}

-- A service call: its name and data.
abbrev pub Written : Type 0
Written = String × Fields

-- The services that only read.
abbrev pub is_read : String → Bool
is_read name = name == "matter.get_lock_credential_status" || name == "matter.get_lock_info"

-- Services that also keep the list of the calls that may write, in their order.
abbrev pub logged : {S : Type 0} → Services S → Services (S × List Written)
logged call name d (s, log) =
    let (r, s') = call name d s in (r, (s', if is_read name then log else log ++ (name, d) ∷ []))

module _ {S : Type 0} (call : Services S) (entity_id : String) (slot : ℤ) where
  -- The calls kept after a call of the provider.
  log-credential_status :
      (t : S × List Written)
      → ((credential_status (logged call) entity_id slot t).1.1 ≡ t.1)
        × ((credential_status (logged call) entity_id slot t).0
            ≡ (credential_status call entity_id slot t.0).0)
        × ((credential_status (logged call) entity_id slot t).1.0
            ≡ (credential_status call entity_id slot t.0).1)
  unfolding credential_status
  log-credential_status t = ground arith

  log-lock_info : (t : S × List Written) → (lock_info (logged call) entity_id t).1.1 ≡ t.1
  unfolding lock_info
  log-lock_info t = ground arith

  log-set_failed :
      (x : Option Fields) (e : Exception) (t : S × List Written)
      → (set_failed (logged call) entity_id slot x e t).1.1 ≡ t.1
  unfolding set_failed enrich
  log-set_failed x e t = ground (arith, log-lock_info t)

  log-set_returned :
      (x : Option Fields) (v : Value) (t : S × List Written)
      → (set_returned (logged call) entity_id slot x v t).1.1 ≡ t.1
  unfolding set_returned confirm
  log-set_returned x v t = ground (arith, log-credential_status t)

  log-set_known :
      (code : String) (x : Option Fields) (t : S × List Written)
      → (set_known (logged call) entity_id slot code x t).1.1
        ≡ t.1 ++ ("matter.set_lock_credential", request_payload entity_id slot code x) ∷ []
  unfolding set_known
  log-set_known code x t =
      from_result (call "matter.set_lock_credential" (request_payload entity_id slot code x) t.0).0
        refl
    where
      after : List Written
      after = t.1 ++ ("matter.set_lock_credential", request_payload entity_id slot code x) ∷ []

      state : S × List Written
      state =
          ((call "matter.set_lock_credential" (request_payload entity_id slot code x) t.0).1, after)

      from_result :
          (r : Result Value)
          → (call "matter.set_lock_credential" (request_payload entity_id slot code x) t.0).0 ≡ r
          → (set_known (logged call) entity_id slot code x t).1.1 ≡ after
      from_result (ok v) e = rw (e, set_known) (log-set_returned x v state)
      from_result (err y) e = rw (e, set_known) (log-set_failed x y state)

  -- The code for the slot, with the user whose code it becomes.
  abbrev pub credential_with : String → Fields → Fields
  credential_with code rest = field "entity_id" (str entity_id) (
      field "credential_type" (str "pin")
        (field "credential_data" (str code) (field "credential_index" (int slot) rest)))

  -- For an empty slot a new user is asked for, and for a slot in use the user that it has, if any.
  abbrev pub credential_for : String → Option Fields → Fields
  credential_for code none = credential_with code (field "user_type" (str "unrestricted_user") end)
  credential_for code (some status) =
      if truthy_at "credential_exists" status
      then elim (given "user_index" status) [
        | none ↦ credential_with code end
        | some user ↦ credential_with code (field "user_index" user end)
      ]
      else credential_with code (field "user_type" (str "unrestricted_user") end)

  request_payload-credential_for :
      (code : String) (x : Option Fields)
      → request_payload entity_id slot code x ≡ credential_for code x
  unfolding request_payload put
  request_payload-credential_for code none = refl
  request_payload-credential_for code (some status) =
      elim (Bool-cases (truthy_at "credential_exists" status)) [
        | inr empty ↦ rw empty refl
        | inl held ↦ rw held (elim (Option-cases (given "user_index" status)) [
          | inl orphan ↦ rw orphan refl
          | inr (v, owned) ↦ rw owned refl
        ])
      ]

  -- What setting a code writes, by what is known of the slot.
  abbrev pub set_writes : String → Result (Option Fields) → List Written
  set_writes code (err e) = []
  set_writes code (ok existing) = ("matter.set_lock_credential", credential_for code existing) ∷ []

  -- Setting a code writes to the lock once, with the code as the credential of the slot that was read
  -- just before: for a new user if the slot was empty, for the user that it had, if any, if it was in
  -- use. It writes nothing if the state of the slot could not be read.
  pub set_code-set_writes :
      (code : String) (s : S)
      → (set_code (logged call) entity_id slot code (s, [])).1.1
        ≡ set_writes code (credential_status call entity_id slot s).0
  unfolding set_code
  set_code-set_writes code s =
      let (kept, same, _) = log-credential_status (s, []) in
      elim (Result-cases (credential_status call entity_id slot s).0) [
        | inl (e, failed) ↦ rw (same, failed, set_code) kept
        | inr (x, known) ↦
            rw (same, known, set_code)
              (log-set_known code x (credential_status (logged call) entity_id slot (s, [])).1
                ∙ ap
                    (λ ws.
                      ws
                      ++ ("matter.set_lock_credential", request_payload entity_id slot code x) ∷ [])
                    kept
                ∙ ap (λ d. ("matter.set_lock_credential", d) ∷ [])
                    (request_payload-credential_for code x))
      ]

  -- What clearing a code writes, by what is known of the slot.
  abbrev pub clear_writes : Result (Option Fields) → List Written
  clear_writes (err e) = []
  clear_writes (ok none) = []
  clear_writes (ok (some status)) =
      if truthy_at "credential_exists" status
      then elim (given "user_index" status) [
        | none ↦ ("matter.clear_lock_credential", slot_data entity_id slot) ∷ []
        | some user ↦ ("matter.clear_lock_user", user_data entity_id user) ∷ []
      ]
      else []

  log-clear_orphan :
      (t : S × List Written)
      → (clear_orphan (logged call) entity_id slot t).1.1
        ≡ t.1 ++ ("matter.clear_lock_credential", slot_data entity_id slot) ∷ []
  unfolding clear_orphan
  log-clear_orphan t = ground arith

  log-clear_user :
      (v : Value) (t : S × List Written)
      → (clear_user (logged call) entity_id slot v t).1.1
        ≡ t.1 ++ ("matter.clear_lock_user", user_data entity_id v) ∷ []
  unfolding clear_user
  log-clear_user v t = ground arith

  log-clear_known :
      (x : Option Fields) (t : S × List Written)
      → (clear_known (logged call) entity_id slot x t).1.1 ≡ t.1 ++ clear_writes (ok x)
  unfolding clear_known
  log-clear_known none t = rw append-nil
  log-clear_known (some status) t = elim (Bool-cases (truthy_at "credential_exists" status)) [
    | inr empty ↦ rw (empty, clear_known) (rw append-nil)
    | inl held ↦
        rw (held, clear_known)
          (elim (Option-cases (given "user_index" status)) [
            | inl orphan ↦ rw orphan (log-clear_orphan t)
            | inr (v, owned) ↦ rw owned (log-clear_user v t)
          ])
  ]

  -- Clearing a code writes to the lock at most once: for a slot that is in use it clears the user
  -- whose credential it holds, or the credential if it has no user; for an empty slot, or one whose
  -- state could not be read, it writes nothing.
  pub clear_code-clear_writes :
      (s : S)
      → (clear_code (logged call) entity_id slot (s, [])).1.1
        ≡ clear_writes (credential_status call entity_id slot s).0
  unfolding clear_code
  clear_code-clear_writes s =
      let (kept, same, _) = log-credential_status (s, []) in
      elim (Result-cases (credential_status call entity_id slot s).0) [
        | inl (e, failed) ↦ rw (same, failed, clear_code) kept
        | inr (x, known) ↦
            rw (same, known, clear_code)
              (log-clear_known x (credential_status (logged call) entity_id slot (s, [])).1
                ∙ ap (λ ws. ws ++ clear_writes (ok x)) kept)
      ]
