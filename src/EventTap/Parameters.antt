-- ===== src/EventTap/Parameters.antt =====
-- What the parameters of a tap ask for (handlers/event_tap.py).
use staykey_ha_plugin.Prelude.{
  min, All, map, ◌==◌, eq_iff, Bool-cases, inl, inr, ◌⊎◌, ◌≢◌, subst, ap, ℕ, zero, suc, ◌≤◌, String,
  ◌≡◌, refl, Option, none, some, List, [], ◌∷◌, arith,
}
use staykey_ha_plugin.Python.Exec.{Result, ok, err}
use staykey_ha_plugin.Python.Int.{pos, negsuc}
use staykey_ha_plugin.Python.Value.{
  Value, null, bool, int, float, str, arr, obj, Items, nil, cons, Fields, get, of_items,
}
use staykey_ha_plugin.EventTap.{
  Number, max_events, coerce_max_events, coerce_duration, coerce_event_types, entity_filter,
  texts_of, none_if_empty, prepend, Tap, tap_of, tap_in,
}

pub coerce_max_events-bounds :
    (v : Option Value) (n : ℕ) → coerce_max_events v ≡ ok n → (1 ≤ n) × (n ≤ max_events)
unfolding coerce_max_events
coerce_max_events-bounds none n e = ground arith
coerce_max_events-bounds (some null) n e = ground arith
coerce_max_events-bounds (some (int (pos zero))) n e = cc
coerce_max_events-bounds (some (int (pos (suc m)))) n e = ground arith
coerce_max_events-bounds (some (int (negsuc m))) n e = cc
coerce_max_events-bounds (some _) n e = cc

pub tap_of-parts :
    (d : Result Value) (m : Result ℕ) (t : Result (Option (List String)))
    (f : Result (Option String)) (tap : Tap)
    → tap_of d m t f ≡ ok tap
    → (m ≡ ok tap.limit) × (t ≡ ok tap.types) × (f ≡ ok tap.entity)
tap_of-parts (err x) m t f tap e = cc
tap_of-parts (ok d) (err x) t f tap e = cc
tap_of-parts (ok d) (ok m) (err x) f tap e = cc
tap_of-parts (ok d) (ok m) (ok t) (err x) tap e = cc
tap_of-parts (ok d) (ok m) (ok t) (ok f) tap e = (ground arith, ground arith, ground arith)

-- The filter that is asked for: a text, or none.
abbrev pub IsFilter : Option Value → Option String → Type 0
IsFilter none f = f ≡ none
IsFilter (some null) f = f ≡ none
IsFilter (some (str s)) f = f ≡ some s
IsFilter (some _) f = ⊥

-- The event types that are asked for: a list of texts that are not empty, or none for all events.
abbrev pub AreTypes : Option Value → Option (List String) → Type 0
AreTypes v none = (v ≡ none) ⊎ ((v ≡ some null) ⊎ (v ≡ some (arr nil)))
AreTypes v (some names) = (v ≡ some (arr (of_items (map str names)))) × All (λ s. s ≢ "") names

pub IsFilter-entity_filter :
    (v : Option Value) (f : Option String) → entity_filter v ≡ ok f → IsFilter v f
unfolding entity_filter
IsFilter-entity_filter none f e = ground arith
IsFilter-entity_filter (some null) f e = ground arith
IsFilter-entity_filter (some (str s)) f e = ground arith
IsFilter-entity_filter (some (bool b)) f e = cc
IsFilter-entity_filter (some (int i)) f e = cc
IsFilter-entity_filter (some (float m x)) f e = cc
IsFilter-entity_filter (some (arr vs)) f e = cc
IsFilter-entity_filter (some (obj d)) f e = cc

-- What the loop over the entries reads.
abbrev AreRead : Items → Result (List String) → Type 0
AreRead vs (ok names) = (vs ≡ of_items (map str names)) × All (λ s. s ≢ "") names
AreRead vs (err x) = Unit

AreRead-prepend :
    (s : String) (vs : Items) (r : Result (List String))
    → s ≢ ""
    → AreRead vs r
    → AreRead (cons (str s) vs) (prepend s r)
AreRead-prepend s vs (ok names) filled h = (ap (cons (str s)) h.0, (filled, h.1))
AreRead-prepend s vs (err x) filled h = tt

texts_of-AreRead : (vs : Items) → AreRead vs (texts_of vs)
unfolding texts_of
texts_of-AreRead nil = (refl, tt)
texts_of-AreRead (cons (str s) vs) = elim (Bool-cases (s == "")) [
  | inl blank ↦ rw blank tt
  | inr filled ↦
      rw filled
        (AreRead-prepend s vs (texts_of vs) (λ e. cc ((eq_iff s "").1 e)) (texts_of-AreRead vs))
]
texts_of-AreRead (cons null vs) = tt
texts_of-AreRead (cons _ vs) = tt

AreTypes-none_if_empty :
    (vs : Items) (r : Result (List String)) (t : Option (List String))
    → AreRead vs r
    → none_if_empty r ≡ ok t
    → AreTypes (some (arr vs)) t
AreTypes-none_if_empty vs (err x) t h e = cc
AreTypes-none_if_empty vs (ok []) none h e = inr (inr (ap (λ w. some (arr w)) h.0))
AreTypes-none_if_empty vs (ok []) (some names) h e = cc
AreTypes-none_if_empty vs (ok (s ∷ ss)) none h e = cc
AreTypes-none_if_empty vs (ok (s ∷ ss)) (some names) h e =
    let same : s ∷ ss ≡ names = ground (arith, e) in
    subst (λ ns. AreTypes (some (arr vs)) (some ns)) same (ap (λ w. some (arr w)) h.0, h.1)

pub AreTypes-coerce_event_types :
    (v : Option Value) (t : Option (List String)) → coerce_event_types v ≡ ok t → AreTypes v t
unfolding coerce_event_types
AreTypes-coerce_event_types none none e = inl refl
AreTypes-coerce_event_types none (some names) e = cc
AreTypes-coerce_event_types (some null) none e = inr (inl refl)
AreTypes-coerce_event_types (some null) (some names) e = cc
AreTypes-coerce_event_types (some (arr vs)) t e =
    AreTypes-none_if_empty vs (texts_of vs) t (texts_of-AreRead vs) e
AreTypes-coerce_event_types (some _) t e = cc

-- The limit for what is asked for: the number that is given, up to 500, or 200 where none is.
abbrev pub IsLimit : Option Value → ℕ → Type 0
IsLimit none n = n ≡ 200
IsLimit (some null) n = n ≡ 200
IsLimit (some (int (pos (suc m)))) n = n ≡ min (suc m) 500
IsLimit (some _) n = ⊥

pub IsLimit-coerce_max_events :
    (v : Option Value) (n : ℕ) → coerce_max_events v ≡ ok n → IsLimit v n
unfolding coerce_max_events
IsLimit-coerce_max_events none n e = ground (arith, e)
IsLimit-coerce_max_events (some null) n e = ground (arith, e)
IsLimit-coerce_max_events (some (int (pos zero))) n e = cc
IsLimit-coerce_max_events (some (int (pos (suc m)))) n e = ground (arith, e)
IsLimit-coerce_max_events (some (int (negsuc m))) n e = cc
IsLimit-coerce_max_events (some _) n e = cc

-- What is right is read.
coerce_max_events_of_IsLimit :
    (v : Option Value) (n : ℕ) → IsLimit v n → (m : ℕ) × (coerce_max_events v ≡ ok m)
unfolding coerce_max_events
coerce_max_events_of_IsLimit none n h = (_, refl)
coerce_max_events_of_IsLimit (some null) n h = (_, refl)
coerce_max_events_of_IsLimit (some (int (pos zero))) n h = absurd h
coerce_max_events_of_IsLimit (some (int (pos (suc m)))) n h = (_, refl)
coerce_max_events_of_IsLimit (some (int (negsuc m))) n h = absurd h
coerce_max_events_of_IsLimit (some _) n h = absurd h

entity_filter_of_IsFilter :
    (v : Option Value) (f : Option String)
    → IsFilter v f
    → (g : Option String) × (entity_filter v ≡ ok g)
unfolding entity_filter
entity_filter_of_IsFilter none f h = (_, refl)
entity_filter_of_IsFilter (some null) f h = (_, refl)
entity_filter_of_IsFilter (some (str s)) f h = (_, refl)
entity_filter_of_IsFilter (some _) f h = absurd h

texts_of-map :
    (names : List String) → All (λ s. s ≢ "") names → texts_of (of_items (map str names)) ≡ ok names
unfolding texts_of
texts_of-map [] filled = refl
texts_of-map (s ∷ ss) (first, filled) = elim (Bool-cases (s == "")) [
  | inl blank ↦ absurd (first ((eq_iff s "").0 blank))
  | inr real ↦ rw (real, texts_of-map ss filled) refl
]

none_if_empty-ok :
    (names : List String) → (t : Option (List String)) × (none_if_empty (ok names) ≡ ok t)
none_if_empty-ok [] = (_, refl)
none_if_empty-ok (s ∷ ss) = (_, refl)

coerce_event_types_of_AreTypes :
    (v : Option Value) (t : Option (List String))
    → AreTypes v t
    → (u : Option (List String)) × (coerce_event_types v ≡ ok u)
unfolding coerce_event_types texts_of
coerce_event_types_of_AreTypes v none (inl h) = (none, rw h refl)
coerce_event_types_of_AreTypes v none (inr (inl h)) = (none, rw h refl)
coerce_event_types_of_AreTypes v none (inr (inr h)) = (none, rw h refl)
coerce_event_types_of_AreTypes v (some names) (h, filled) =
    let (u, is) = none_if_empty-ok names in (u, rw h (rw (texts_of-map names filled) is))

-- Parameters that a tap takes.
pub record IsValid (parse_float : String → Option Number) (params : Fields) : Type 0 where
  pub duration : Value
  pub limit : ℕ
  pub types : Option (List String)
  pub entity : Option String
  pub is_duration : coerce_duration parse_float (get "duration_seconds" params) ≡ ok duration
  pub is_limit : IsLimit (get "max_events" params) limit
  pub are_types : AreTypes (get "event_types" params) types
  pub is_filter : IsFilter (get "entity_id" params) entity

pub tap_in_of_IsValid :
    (parse_float : String → Option Number) (params : Fields)
    → IsValid parse_float params
    → (tap : Tap) × (tap_in parse_float params ≡ ok tap)
unfolding tap_in
tap_in_of_IsValid parse_float params p =
    let (m, limit) = coerce_max_events_of_IsLimit (get "max_events" params) p.limit p.is_limit in
    let (t, types) =
      coerce_event_types_of_AreTypes (get "event_types" params) p.types p.are_types in
    let (f, entity) = entity_filter_of_IsFilter (get "entity_id" params) p.entity p.is_filter in
    (
      record { duration = p.duration; limit = m; types = t; entity = f },
      rw (p.is_duration, limit, types, entity) refl,
    )
