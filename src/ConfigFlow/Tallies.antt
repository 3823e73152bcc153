-- ===== src/ConfigFlow/Tallies.antt =====
-- Counting config entries: how a change of one of them changes a count (config_flow.py).
use staykey_ha_plugin.Prelude.{
  ◌+◌, ◌≤◌, String, ◌≡◌, refl, Bool, true, false, none, some, List, [], ◌∷◌, ◌++◌, map, eq_iff,
  arith,
}
use staykey_ha_plugin.ConfigFlow.Entries.{ConfigEntry, token_in_use_elsewhere}
use staykey_ha_plugin.ConfigFlow.Changes.{tally, owners, named, changed}

pub tally-append :
    (p : ConfigEntry → Bool) (es fs : List ConfigEntry)
    → tally p (es ++ fs) ≡ tally p es + tally p fs
tally-append p [] fs = omega arith
tally-append p (e ∷ es) fs = omega (arith, tally-append p es fs)

module _ (p : ConfigEntry → Bool) (id : String) (f : ConfigEntry → ConfigEntry) where
  pub tally-changed_le :
      ((e : ConfigEntry) → p (f e) ≡ true → p e ≡ true)
      → (es : List ConfigEntry) → tally p (map (changed id f) es) ≤ tally p es
  tally-changed_le kept [] = omega arith
  tally-changed_le kept (e ∷ es) = ground (arith, kept e, tally-changed_le kept es)

  pub tally-changed :
      ((e : ConfigEntry) → p (f e) ≡ p e)
      → (es : List ConfigEntry) → tally p (map (changed id f) es) ≡ tally p es
  tally-changed kept [] = refl
  tally-changed kept (e ∷ es) = ground (arith, kept e, tally-changed kept es)

-- A token that no other entry uses: after a change of the entries with one ID, at most these use it.
pub owners-changed_le :
    (token id : String) (f : ConfigEntry → ConfigEntry) (es : List ConfigEntry)
    → token_in_use_elsewhere es token (some id) ≡ false
    → owners token (map (changed id f) es) ≤ named id es
unfolding token_in_use_elsewhere
owners-changed_le token id f [] free = omega arith
owners-changed_le token id f (e ∷ es) free =
    ground (arith, eq_iff id e.entry_id, eq_iff e.entry_id id, owners-changed_le token id f es)

pub owners-eq-zero :
    (token : String) (es : List ConfigEntry)
    → token_in_use_elsewhere es token none ≡ false
    → owners token es ≡ 0
unfolding token_in_use_elsewhere
owners-eq-zero token [] free = refl
owners-eq-zero token (e ∷ es) free = ground (arith, owners-eq-zero token es)
