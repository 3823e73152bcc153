-- ===== src/ConfigFlow/Apart/Reachable.antt =====
-- The config entries that the forms of config_flow.py can bring about, one step after the other.
use staykey_ha_plugin.Prelude.{
  ℕ, ◌≤◌, String, Bool, true, none, refl, ◌==◌, if◌then◌else◌, ◌≡◌, ◌≢◌, subst, sym, Option, some,
  List, [], ◌∷◌, ◌++◌, arith,
}
use staykey_ha_plugin.Python.Value.{Fields}
use staykey_ha_plugin.Gateway.Auth.{Outcome}
use staykey_ha_plugin.ConfigFlow.Entries.{ConfigEntry, current_token, owns}
use staykey_ha_plugin.ConfigFlow.{step_init}
use staykey_ha_plugin.ConfigFlow.Changes.{tally, owners, has_id, Saved, SavedOptions}
use staykey_ha_plugin.ConfigFlow.Tallies.{tally-append}
use staykey_ha_plugin.ConfigFlow.Apart.{AreApart}
use staykey_ha_plugin.ConfigFlow.Apart.Options.{IsTyped, step_init-AreApart}
use staykey_ha_plugin.ConfigFlow.Apart.Checked.{user_result, step_user-AreApart}
use staykey_ha_plugin.ConfigFlow.Apart.Reauth.{reauth_result, step_reauth_confirm-AreApart}

-- A form that is sent, or an entry that is deleted. Home Assistant's test of a unique ID (`stops`) and
-- the gateway (`answer`) may say anything.
pub data Step (before after : List ConfigEntry) : Type 0 where
  set_up :
      (stops : String → Option String) (answer : String → String → Outcome) (input : Option Fields)
      → Saved (user_result before stops answer input) before after
      → Step before after
  reconfigure :
      (entry : ConfigEntry) (input : Fields)
      → IsTyped input
      → SavedOptions entry
          (step_init before entry (some input)).0
          (step_init before entry (some input)).1
          before
          after
      → Step before after
  reauthenticate :
      (stops : String → Option String) (answer : String → String → Outcome) (entry : ConfigEntry)
      (input : Option Fields)
      → Saved (reauth_result before stops answer entry input) before after
      → Step before after
  delete :
      (front : List ConfigEntry) (entry : ConfigEntry) (rest : List ConfigEntry)
      → before ≡ front ++ entry ∷ rest
      → after ≡ front ++ rest
      → Step before after

pub data Reach : List ConfigEntry → Type 0 where
  start : Reach []
  next : {es fs : List ConfigEntry} → Reach es → Step es fs → Reach fs

tally-delete :
    (p : ConfigEntry → Bool) (front : List ConfigEntry) (entry : ConfigEntry)
    (rest : List ConfigEntry)
    → tally p (front ++ rest) ≤ tally p (front ++ entry ∷ rest)
tally-delete p front entry rest =
    omega (arith, tally-append p front rest, tally-append p front (entry ∷ rest))

Step-AreApart : {es fs : List ConfigEntry} → Step es fs → AreApart es → AreApart fs
Step-AreApart {es} {fs} (set_up stops answer input saved) a =
    step_user-AreApart es fs stops answer input saved a
Step-AreApart {es} {fs} (reconfigure entry input typed saved) a =
    step_init-AreApart entry input es fs typed saved a
Step-AreApart {es} {fs} (reauthenticate stops answer entry input saved) a =
    step_reauth_confirm-AreApart es fs stops answer entry input saved a
Step-AreApart {es} {fs} (delete front entry rest was is) a =
    let b : AreApart (front ++ entry ∷ rest) = subst AreApart was a in
    subst AreApart (sym is) (record {
      apart = λ token filled.
          omega (arith, tally-delete (owns token) front entry rest, b.apart token filled);
      keyed = λ id. omega (arith, tally-delete (has_id id) front entry rest, b.keyed id);
    })

Reach-AreApart : {es : List ConfigEntry} → Reach es → AreApart es
Reach-AreApart start = record { apart = λ token filled. omega arith; keyed = λ id. omega arith }
Reach-AreApart (next r step) = Step-AreApart step (Reach-AreApart r)

-- Whether an entry runs on a token or is known by it, and how many do, in words of their own.
abbrev pub is_user : String → ConfigEntry → Bool
is_user token entry = elim entry.unique_id [
  | none ↦ current_token entry == token
  | some id ↦ if id == token then true else current_token entry == token
]

abbrev pub users : String → List ConfigEntry → ℕ
users token = tally (is_user token)

is_user-owns : (token : String) (entry : ConfigEntry) → is_user token entry ≡ owns token entry
unfolding owns
is_user-owns token entry = ground arith

users-owners : (token : String) (es : List ConfigEntry) → users token es ≡ owners token es
users-owners token [] = refl
users-owners token (e ∷ es) = ground (arith, is_user-owns token e, users-owners token es)

-- Whatever forms are sent, one after the other, and whatever the gateway answers, no token is used by
-- two config entries, be it the token that an entry runs on or the unique ID that it is known by.
pub Reach-users_le :
    {es : List ConfigEntry} → Reach es → (token : String) → token ≢ "" → users token es ≤ 1
Reach-users_le {es} r token filled =
    omega (arith, users-owners token es, (Reach-AreApart r).apart token filled)
