-- ===== src/ConfigFlow/Checks.antt =====
-- Which tokens the forms of config_flow.py check with the gateway. A check takes over the connection
-- of the entry that runs on the token.
use staykey_ha_plugin.Prelude.{
  String, ◌≡◌, ◌≢◌, inl, inr, refl, Option, none, some, false, List, [], ◌∷◌, All, ◌==◌, eq_iff,
  arith, Bool-cases, Option-cases,
}
use staykey_ha_plugin.Python.Value.{Fields}
use staykey_ha_plugin.Gateway.Auth.{
  Outcome, auth_ok, auth_invalid, auth_integration_disabled, auth_cannot_connect,
}
use staykey_ha_plugin.ConfigFlow.Entries.{
  ConfigEntry, url_key, default_url, chosen, current_token, token_in_use_elsewhere,
}
use staykey_ha_plugin.ConfigFlow.{
  typed_token, user_url, checked_user, checked_reauth, step_user, step_reauth_confirm,
}

-- No entry runs on the token.
abbrev pub IsFree : List ConfigEntry → String → Type 0
IsFree es token = All (λ e. current_token e ≢ token) es

-- An ID names one entry.
abbrev pub IsOnly : List ConfigEntry → ConfigEntry → Type 0
IsOnly es entry = All (λ e. e.entry_id ≡ entry.entry_id → current_token e ≡ current_token entry) es

not_in_use-IsFree :
    (es : List ConfigEntry) (token : String)
    → token_in_use_elsewhere es token none ≡ false
    → IsFree es token
unfolding token_in_use_elsewhere
not_in_use-IsFree [] token free = tt
not_in_use-IsFree (e ∷ es) token free =
    (ground (arith, eq_iff (current_token e) token), not_in_use-IsFree es token (ground arith))

not_elsewhere-IsFree :
    (es : List ConfigEntry) (token : String) (entry : ConfigEntry)
    → token ≢ current_token entry
    → token_in_use_elsewhere es token (some entry.entry_id) ≡ false
    → IsOnly es entry
    → IsFree es token
unfolding token_in_use_elsewhere
not_elsewhere-IsFree [] token entry other free only = tt
not_elsewhere-IsFree (e ∷ es) token entry other free (same, only) = (
  ground (arith, eq_iff (current_token e) token, eq_iff entry.entry_id e.entry_id, same, other),
  not_elsewhere-IsFree es token entry other (ground (arith, eq_iff entry.entry_id e.entry_id)) only,
)

module _ {S : Type 0} (entries : S → List ConfigEntry)
    (set_unique_id : String → S → Option String × S)
    (probe : String → String → S → Outcome × S) where
  checked_user-state :
      (input : Fields) (token : String) (s : S) (o : Outcome)
      → (probe (user_url input) token s).0 ≡ o
      → (checked_user entries set_unique_id probe input token s).1
        ≡ (probe (user_url input) token s).1
  unfolding checked_user
  checked_user-state input token s auth_ok e = rw (e, checked_user)
  checked_user-state input token s auth_invalid e = rw (e, checked_user)
  checked_user-state input token s auth_integration_disabled e = rw (e, checked_user)
  checked_user-state input token s auth_cannot_connect e = rw (e, checked_user)

  checked_reauth-state :
      (entry : ConfigEntry) (input : Fields) (token : String) (s : S) (o : Outcome)
      → (probe (chosen url_key default_url entry.options entry.setup) token s).0 ≡ o
      → (checked_reauth entries set_unique_id probe entry input token s).1
        ≡ (probe (chosen url_key default_url entry.options entry.setup) token s).1
  unfolding checked_reauth
  checked_reauth-state entry input token s auth_ok e = rw (e, checked_reauth)
  checked_reauth-state entry input token s auth_invalid e = rw (e, checked_reauth)
  checked_reauth-state entry input token s auth_integration_disabled e = rw (e, checked_reauth)
  checked_reauth-state entry input token s auth_cannot_connect e = rw (e, checked_reauth)

  module _ (Q : S → Type 0)
      (checks : (url token : String) (s : S)
        → token ≢ ""
        → IsFree (entries s) token
        → Q s
        → Q (probe url token s).1) where
    -- Whatever checks of tokens that no entry runs on keep true, the form that sets up an entry keeps.
    pub step_user-keeps :
        ((token : String) (s : S) → Q s → Q (set_unique_id token s).1)
        → (input : Option Fields) (s : S) → Q s
        → Q (step_user entries set_unique_id probe input s).1
    unfolding step_user
    step_user-keeps sets none s q = q
    step_user-keeps sets (some input) s q =
        let token = typed_token input in
        let s' = (set_unique_id token s).1 in
        elim (Bool-cases (token == "")) [
          | inl blank ↦ rw blank q
          | inr text ↦ elim (Option-cases (set_unique_id token s).0) [
            | inr (reason, stop) ↦ rw (text, stop) (sets token s q)
            | inl go ↦ elim (Bool-cases (token_in_use_elsewhere (entries s') token none)) [
              | inl taken ↦ rw (text, go, taken) (sets token s q)
              | inr free ↦
                  rw
                    (
                      text,
                      go,
                      free,
                      checked_user-state input token s' (probe (user_url input) token s').0 refl,
                    )
                    (checks (user_url input) token s' (λ e. cc ((eq_iff token "").1 e))
                      (not_in_use-IsFree (entries s') token free) (sets token s q))
            ]
          ]
        ]

    -- Whatever checks of tokens that no entry runs on keep true, the form that replaces the token of an
    -- entry keeps, if the ID of the entry names it only.
    step_reauth_confirm-keeps :
        (entry : ConfigEntry) (input : Option Fields) (s : S)
        → IsOnly (entries s) entry
        → Q s
        → Q (step_reauth_confirm entries set_unique_id probe entry input s).1
    unfolding step_reauth_confirm
    step_reauth_confirm-keeps entry none s only q = q
    step_reauth_confirm-keeps entry (some input) s only q =
        let token = typed_token input in
        let url = chosen url_key default_url entry.options entry.setup in
        elim (Bool-cases (token == "")) [
          | inl blank ↦ rw blank q
          | inr text ↦ elim (Bool-cases (token == current_token entry)) [
            | inl same ↦ rw (text, same) q
            | inr other ↦
                elim (Bool-cases (token_in_use_elsewhere (entries s) token (some entry.entry_id))) [
                  | inl taken ↦ rw (text, other, taken) q
                  | inr free ↦
                      rw
                        (
                          text,
                          other,
                          free,
                          checked_reauth-state entry input token s (probe url token s).0 refl,
                        )
                        (checks url token s (λ e. cc ((eq_iff token "").1 e))
                          (not_elsewhere-IsFree (entries s) token entry
                            (λ e. cc ((eq_iff token (current_token entry)).1 e)) free only)
                          q)
                ]
          ]
        ]
