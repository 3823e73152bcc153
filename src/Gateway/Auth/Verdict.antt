-- ===== src/Gateway/Auth/Verdict.antt =====
-- When the token check blames the token (gateway/client.py).
use staykey_ha_plugin.Prelude.{
  ℕ, String, ◌≡◌, ◌↔◌, true, Option, none, some, eq_iff, arith, refl, sym, subst,
}
use staykey_ha_plugin.Python.Exec.{Exception}
use staykey_ha_plugin.Python.Value.{
  Value, null, bool, int, float, str, arr, obj, Fields, end, field, get, nil, cons, is_str, or_else,
  truthy,
}
use staykey_ha_plugin.Gateway.Auth.{
  auth_invalid, text_frame, close_frame, Received, invalid, value, Answer, timeout, raised, frame,
  probe_token, refusal, classify_close, classify_frame, classify_object,
}

-- An object that says that the token is invalid.
abbrev pub SaysInvalid : Fields → Type 0
SaysInvalid d =
    (get "type" d ≡ some (str "auth_failed")) × (get "message" d ≡ some (str "Invalid token"))

-- The reasons of a refusal that are about the token: such an object, or no object at all.
abbrev pub BlamesReason : Received → Type 0
BlamesReason (value (obj d)) = SaysInvalid d
BlamesReason _ = Unit

-- The answers that are about the token: such an object, or a refusal with such a reason.
abbrev pub BlamesToken : Answer → Type 0
BlamesToken (frame (text_frame (value (obj d)))) = SaysInvalid d
BlamesToken (frame (close_frame code r)) = (code ≡ 1008) × BlamesReason r
BlamesToken _ = ⊥

is_str_lem : (o : Option Value) (t : String) → (is_str o t ≡ true) ↔ (o ≡ some (str t))
is_str_lem none t = (λ e. cc, λ e. cc)
is_str_lem (some (str s)) t = (λ e. ground (arith, eq_iff s t), λ e. ground (arith, eq_iff s t))
is_str_lem (some null) t = (λ e. cc, λ e. cc)
is_str_lem (some _) t = (λ e. cc, λ e. cc)

-- Of the messages that a refusal can carry, the one text blames the token.
refusal-invalid :
    (o : Option Value)
    → ((refusal (or_else o (str "unknown error"))).outcome ≡ auth_invalid)
      ↔ (o ≡ some (str "Invalid token"))
unfolding refusal truthy
refusal-invalid none = (λ e. cc, λ e. cc)
refusal-invalid (some (str s)) = (
  λ e. ground (arith, eq_iff s "Invalid token"),
  λ e. subst (λ o. (refusal (or_else o (str "unknown error"))).outcome ≡ auth_invalid) (sym e) refl,
)
refusal-invalid (some null) = (λ e. cc, λ e. cc)
refusal-invalid (some (bool b)) = (λ e. ground arith, λ e. cc)
refusal-invalid (some (int i)) = (λ e. ground arith, λ e. cc)
refusal-invalid (some (float i n)) = (λ e. ground arith, λ e. cc)
refusal-invalid (some (arr nil)) = (λ e. cc, λ e. cc)
refusal-invalid (some (arr (cons v vs))) = (λ e. cc, λ e. cc)
refusal-invalid (some (obj end)) = (λ e. cc, λ e. cc)
refusal-invalid (some (obj (field k v d))) = (λ e. cc, λ e. cc)

classify_object-invalid :
    (d : Fields) → ((classify_object d).outcome ≡ auth_invalid) ↔ SaysInvalid d
classify_object-invalid d =
    let (to, from) = refusal-invalid (get "message" d) in
    let (read, write) = is_str_lem (get "type" d) "auth_failed" in
    (λ e. (read (ground arith), to (ground arith)), λ (t, m). ground (arith, from m, write t))

classify_close-invalid :
    (code : ℕ) (r : Received)
    → ((classify_close code r).outcome ≡ auth_invalid) ↔ ((code ≡ 1008) × BlamesReason r)
unfolding classify_close
classify_close-invalid code (value (obj d)) =
    let (to, from) = refusal-invalid (get "message" d) in
    let (read, write) = is_str_lem (get "type" d) "auth_failed" in
    (
      λ e. (ground arith, (read (ground arith), to (ground arith))),
      λ (c, h). ground (arith, from h.1, write h.0),
    )
classify_close-invalid code invalid = (λ e. (ground arith, tt), λ h. ground arith)
classify_close-invalid code _ = (λ e. (ground arith, tt), λ h. ground arith)

-- A token check reports an invalid token exactly when the connection and the sending succeeded and
-- the gateway's answer is about the token.
pub probe_token-invalid_iff :
    (connecting sending : Option Exception) (a : Answer)
    → (probe_token connecting sending a ≡ auth_invalid)
      ↔ ((connecting ≡ none) × (sending ≡ none) × BlamesToken a)
unfolding probe_token classify_frame
probe_token-invalid_iff (some e) sending a = (λ p. cc, λ p. cc)
probe_token-invalid_iff none (some e) a = (λ p. cc, λ p. cc)
probe_token-invalid_iff none none timeout = (λ p. cc, λ p. absurd p.2)
probe_token-invalid_iff none none (raised e) = (λ p. cc, λ p. absurd p.2)
probe_token-invalid_iff none none (frame (text_frame (value (obj d)))) =
    let (to, from) = classify_object-invalid d in (λ p. (refl, refl, to p), λ p. from p.2)
probe_token-invalid_iff none none (frame (close_frame code r)) =
    let (to, from) = classify_close-invalid code r in (λ p. (refl, refl, to p), λ p. from p.2)
probe_token-invalid_iff none none (frame (text_frame invalid)) = (λ p. cc, λ p. absurd p.2)
probe_token-invalid_iff none none (frame (text_frame (value null))) = (λ p. cc, λ p. absurd p.2)
probe_token-invalid_iff none none (frame (text_frame (value _))) = (λ p. cc, λ p. absurd p.2)
probe_token-invalid_iff none none (frame _) = (λ p. cc, λ p. absurd p.2)
