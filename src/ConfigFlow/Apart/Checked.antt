-- ===== src/ConfigFlow/Apart/Checked.antt =====
-- The forms of config_flow.py that check a token keep the entries apart.
use staykey_ha_plugin.Prelude.{
  String, ◌≡◌, ◌≢◌, inl, inr, refl, sym, ◌∙◌, subst, false, Option, none, some, List, [], ◌∷◌, ◌++◌,
  ◌==◌, eq_iff, arith, Bool-cases, Option-cases,
}
use staykey_ha_plugin.Python.Text.{strip, strip_twice}
use staykey_ha_plugin.Python.Value.{str, Fields, end, get, or_else, truthy, get-put}
use staykey_ha_plugin.Gateway.Auth.{
  Outcome, auth_ok, auth_invalid, auth_integration_disabled, auth_cannot_connect,
}
use staykey_ha_plugin.ConfigFlow.Entries.{
  ConfigEntry, token_key, text_of, current_token, owns, token_in_use_elsewhere,
}
use staykey_ha_plugin.ConfigFlow.{
  FlowResult, create_entry, checked_user, user_url, typed_token, with_token, step_user,
}
use staykey_ha_plugin.ConfigFlow.Changes.{named, Saved, has_id}
use staykey_ha_plugin.ConfigFlow.Tallies.{tally-append, owners-eq-zero}
use staykey_ha_plugin.ConfigFlow.Apart.{AreApart}

pub current_token-set_up :
    (e : ConfigEntry) (new : String)
    → get token_key e.options ≡ none
    → get token_key e.setup ≡ some (str new)
    → new ≢ ""
    → current_token e ≡ strip new
unfolding current_token truthy
current_token-set_up e new no_option set_up filled = elim (Bool-cases (new == "")) [
  | inl blank ↦ absurd (filled ((eq_iff new "").0 blank))
  | inr text ↦ rw (no_option, set_up, text)
]

pub strip-typed_token : (input : Fields) → strip (typed_token input) ≡ typed_token input
unfolding typed_token
strip-typed_token input = strip_twice (text_of (or_else (get token_key input) (str "")))

-- An entry that runs on a token that no entry uses, and is known by it, comes last.
append-AreApart :
    (new : String) (e : ConfigEntry) (es : List ConfigEntry)
    → current_token e ≡ new
    → e.unique_id ≡ some new
    → named e.entry_id es ≡ 0
    → token_in_use_elsewhere es new none ≡ false
    → AreApart es
    → AreApart (es ++ e ∷ [])
unfolding owns
append-AreApart new e es runs known fresh free a = record {
  apart = λ token filled. ground (
    arith,
    eq_iff token new,
    eq_iff new token,
    tally-append (owns token) es (e ∷ []),
    owners-eq-zero new es,
    a.apart token filled,
  );
  keyed =
      λ id. ground (arith, eq_iff e.entry_id id, tally-append (has_id id) es (e ∷ []), a.keyed id);
}

module _ (before : List ConfigEntry) (stops : String → Option String)
    (answer : String → String → Outcome) where
  -- The user's step, while no other flow changes the entries.
  abbrev pub user_result : Option Fields → FlowResult
  user_result input =
      (step_user {S = Unit {0}} (λ _. before) (λ t s. (stops t, s)) (λ u t s. (answer u t, s)) input
        tt).0

  abbrev user_checked : Fields → FlowResult
  user_checked input =
      (checked_user {S = Unit {0}} (λ _. before) (λ t s. (stops t, s)) (λ u t s. (answer u t, s))
        input (typed_token input) tt).0

module _ (before after : List ConfigEntry) (stops : String → Option String)
    (answer : String → String → Outcome) where
  unchanged : after ≡ before → AreApart before → AreApart after
  unchanged same a = subst AreApart (sym same) a

  created-AreApart :
      (input : Fields)
      → typed_token input ≢ ""
      → token_in_use_elsewhere before (typed_token input) none ≡ false
      → Saved
          (create_entry (some (typed_token input)) "Staykey" (with_token (typed_token input) input))
          before
          after
      → AreApart before
      → AreApart after
  created-AreApart input filled free (new_id, fresh, e) a =
      let new = typed_token input in
      let entry : ConfigEntry = record {
        entry_id = new_id;
        unique_id = some new;
        setup = with_token new input;
        options = end;
      } in
      let none_saved : get token_key end ≡ none = unfold get in refl in
      let set_up : get token_key (with_token new input) ≡ some (str new) =
        get-put token_key token_key (str new) input in
      let runs : current_token entry ≡ new =
        current_token-set_up entry new none_saved set_up filled ∙ strip-typed_token input in
      subst AreApart (sym e) (append-AreApart new entry before runs refl fresh free a)

  checked_user-AreApart :
      (input : Fields) (o : Outcome)
      → answer (user_url input) (typed_token input) ≡ o
      → typed_token input ≢ ""
      → token_in_use_elsewhere before (typed_token input) none ≡ false
      → Saved (user_checked before stops answer input) before after
      → AreApart before
      → AreApart after
  unfolding checked_user
  checked_user-AreApart input auth_ok e filled free saved a =
      created-AreApart input filled free (rw (e, checked_user, Saved) at saved) a
  checked_user-AreApart input auth_invalid e filled free saved a =
      unchanged (rw (e, checked_user, Saved) at saved) a
  checked_user-AreApart input auth_integration_disabled e filled free saved a =
      unchanged (rw (e, checked_user, Saved) at saved) a
  checked_user-AreApart input auth_cannot_connect e filled free saved a =
      unchanged (rw (e, checked_user, Saved) at saved) a

  pub step_user-AreApart :
      (input : Option Fields)
      → Saved (user_result before stops answer input) before after
      → AreApart before
      → AreApart after
  unfolding step_user
  step_user-AreApart none saved a = unchanged saved a
  step_user-AreApart (some input) saved a =
      let new = typed_token input in
      elim (Bool-cases (new == "")) [
        | inl blank ↦ unchanged (rw (blank, step_user, user_result, Saved) at saved) a
        | inr text ↦ elim (Option-cases (stops new)) [
          | inr (reason, stop) ↦
              unchanged (rw (text, stop, step_user, user_result, Saved) at saved) a
          | inl go ↦ elim (Bool-cases (token_in_use_elsewhere before new none)) [
            | inl taken ↦ unchanged (rw (text, go, taken, step_user, user_result, Saved) at saved) a
            | inr free ↦
                checked_user-AreApart input (answer (user_url input) new) refl
                  (λ e. cc ((eq_iff new "").1 e)) free
                  (rw (text, go, free, step_user, user_result, Saved) at saved) a
          ]
        ]
      ]
