-- ===== src/ConfigFlow/Apart.antt =====
-- No two config entries run on one token: the invariant of the forms of config_flow.py.
pub mod Options
pub mod Checked
pub mod Reauth
pub mod Reachable
use staykey_ha_plugin.Prelude.{
  ℕ, ◌+◌, ◌≤◌, String, ◌≡◌, ◌≢◌, ◌⊎◌, inl, inr, refl, sym, ap, ◌∙◌, subst, not, ◌&&◌, Bool, true,
  false, Option, none, some, List, [], ◌∷◌, ◌++◌, map, ◌==◌, eq_iff, eq_refl, arith, Bool-cases,
  Option-cases, if◌then◌else◌,
}
use staykey_ha_plugin.Python.Text.{strip, strip_twice}
use staykey_ha_plugin.Python.Value.{
  Value, str, Fields, end, field, get, put, or_else, truthy, get-put,
}
use staykey_ha_plugin.Gateway.Auth.{Outcome}
use staykey_ha_plugin.ConfigFlow.Entries.{
  ConfigEntry, token_key, text_of, chosen, current_token, is_id, owns, token_in_use_elsewhere,
}
use staykey_ha_plugin.ConfigFlow.{
  FlowResult, typed_token, with_token, moved_id, step_init, step_user, step_reauth_confirm,
}
use staykey_ha_plugin.ConfigFlow.Changes.{
  owners, named, changed, with_options, with_updates, Saved, SavedOptions, or_kept_id, tally,
  has_id,
}
use staykey_ha_plugin.ConfigFlow.Tallies.{
  tally-append, tally-changed_le, tally-changed, owners-changed_le, owners-eq-zero,
}

-- At most one entry uses a token, and at most one has an ID.
pub record AreApart (es : List ConfigEntry) : Type 0 where
  pub apart : (token : String) → token ≢ "" → owners token es ≤ 1
  pub keyed : (id : String) → named id es ≤ 1

module _ (id new : String) (f : ConfigEntry → ConfigEntry) where
  -- A change that gives the entry no token but one that no other entry uses.
  pub changed-AreApart :
      ((e : ConfigEntry) → (f e).entry_id ≡ e.entry_id)
      → ((token : String) (e : ConfigEntry)
          → token ≢ ""
          → token ≢ new
          → owns token (f e) ≡ true
          → owns token e ≡ true)
      → (es : List ConfigEntry) → (new ≢ "" → token_in_use_elsewhere es new (some id) ≡ false)
      → AreApart es
      → AreApart (map (changed id f) es)
  changed-AreApart same kept es free a = record {
    apart = λ token filled. elim (Bool-cases (token == new)) [
      | inl is ↦
          let e : token ≡ new = (eq_iff token new).0 is in
          let few : owners token (map (changed id f) es) ≤ named id es =
            rw e (owners-changed_le new id f es (free (λ h. filled (e ∙ h)))) in
          omega (arith, few, a.keyed id)
      | inr other ↦ omega (
        arith,
        tally-changed_le (owns token) id f
            (λ e. kept token e filled (λ h. cc ((eq_iff token new).1 h))) es,
        a.apart token filled,
      )
    ];
    keyed = λ i.
        omega (arith, tally-changed (has_id i) id f (λ e. ap (λ t. t == i) (same e)) es, a.keyed i);
  }

-- An entry that now runs on `new`, and is known by it or as before.
pub owns-changed :
    (token new : String) (e e' : ConfigEntry)
    → current_token e' ≡ new
    → (e'.unique_id ≡ e.unique_id) ⊎ (e'.unique_id ≡ some new)
    → token ≢ new
    → owns token e' ≡ true
    → owns token e ≡ true
unfolding owns
owns-changed token new e e' runs known other h = ground (arith, eq_iff new token, other)

pub current_token-saved :
    (e : ConfigEntry) (t : String)
    → get token_key e.options ≡ some (str t)
    → t ≢ ""
    → current_token e ≡ strip t
unfolding current_token truthy
current_token-saved e t saved filled = elim (Bool-cases (t == "")) [
  | inl blank ↦ absurd (filled ((eq_iff t "").0 blank))
  | inr text ↦ rw (saved, text)
]

pub typed_token-strip :
    (input : Fields) (t : String) → get token_key input ≡ some (str t) → typed_token input ≡ strip t
unfolding typed_token truthy
typed_token-strip input t typed = elim (Bool-cases (t == "")) [
  | inl blank ↦ rw (typed, blank) (ap strip (sym ((eq_iff t "").0 blank)))
  | inr text ↦ rw (typed, text)
]
