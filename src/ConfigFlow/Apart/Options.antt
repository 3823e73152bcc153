-- ===== src/ConfigFlow/Apart/Options.antt =====
-- The options form of config_flow.py keeps the entries apart.
use staykey_ha_plugin.Prelude.{
  String, ◌≡◌, ◌≢◌, ◌⊎◌, inl, inr, refl, sym, ap, ◌∙◌, subst, not, ◌&&◌, Option, none, some, List,
  map, ◌==◌, eq_iff, arith, Bool-cases, if◌then◌else◌,
}
use staykey_ha_plugin.Python.Text.{strip_twice}
use staykey_ha_plugin.Python.Value.{str, Fields, get, get-put}
use staykey_ha_plugin.ConfigFlow.Entries.{
  ConfigEntry, token_key, current_token, token_in_use_elsewhere,
}
use staykey_ha_plugin.ConfigFlow.{typed_token, with_token, moved_id, step_init}
use staykey_ha_plugin.ConfigFlow.Changes.{changed, with_options, SavedOptions, or_kept_id}
use staykey_ha_plugin.ConfigFlow.Apart.{
  AreApart, changed-AreApart, owns-changed, current_token-saved, typed_token-strip,
}

-- A form is sent with a text in the field that it requires.
abbrev pub IsTyped : Fields → Type 0
IsTyped input = (t : String) × (get token_key input ≡ some (str t)) × (t ≢ "")

abbrev saved_form : Fields → Fields
saved_form input = if typed_token input == "" then input else with_token (typed_token input) input

current_token-saved_form :
    (e : ConfigEntry) (input : Fields)
    → IsTyped input
    → e.options ≡ saved_form input
    → current_token e ≡ typed_token input
current_token-saved_form e input (t, typed, filled) saved =
    elim (Bool-cases (typed_token input == "")) [
      | inl blank ↦
          let o : e.options ≡ input = saved ∙ rw blank in
          current_token-saved e t (ap (get token_key) o ∙ typed) filled
          ∙ sym (typed_token-strip input t typed)
      | inr text ↦
          let new = typed_token input in
          let o : e.options ≡ with_token new input = saved ∙ rw text in
          let found : get token_key e.options ≡ some (str new) =
            ap (get token_key) o ∙ get-put token_key token_key (str new) input in
          current_token-saved e new found (λ blank. cc ((eq_iff new "").1 blank))
          ∙ (rw (typed_token-strip input t typed) (strip_twice t))
    ]

pub known_by :
    (id : Option String) (new : String) (old : Option String)
    → (id ≡ none) ⊎ (id ≡ some new)
    → (or_kept_id id old ≡ old) ⊎ (or_kept_id id old ≡ some new)
known_by id new old (inl e) = inl (rw e)
known_by id new old (inr e) = inr (rw e)

moved_id-cases :
    (entry : ConfigEntry) (new : String)
    → (moved_id entry new ≡ none) ⊎ (moved_id entry new ≡ some new)
moved_id-cases entry new = elim (Bool-cases (not (new == "") && not (new == current_token entry))) [
  | inl moves ↦ inr (rw moves)
  | inr stays ↦ inl (rw stays)
]

-- Saving the options leaves the entries apart.
pub step_init-AreApart :
    (entry : ConfigEntry) (input : Fields) (before after : List ConfigEntry)
    → IsTyped input
    → SavedOptions entry
        (step_init before entry (some input)).0
        (step_init before entry (some input)).1
        before
        after
    → AreApart before
    → AreApart after
unfolding step_init
step_init-AreApart entry input before after typed saved a =
    let new = typed_token input in
    let f = with_options (moved_id entry new) (saved_form input) in
    elim (Bool-cases (not (new == "") && token_in_use_elsewhere before new (some entry.entry_id))) [
      | inl taken ↦
          let same : after ≡ before = rw (taken, step_init) at saved in subst AreApart (sym same) a
      | inr free ↦
          let e : after ≡ map (changed entry.entry_id f) before = rw (free, step_init) at saved in
          subst AreApart (sym e) (
            changed-AreApart entry.entry_id new f (λ e. refl)
              (λ token e filled other h.
                owns-changed token new e (f e) (current_token-saved_form (f e) input typed refl)
                  (known_by (moved_id entry new) new e.unique_id (moved_id-cases entry new)) other
                  h)
              before (λ filled. ground (arith, eq_iff new "", free, filled)) a)
    ]
