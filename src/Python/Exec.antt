-- ===== src/Python/Exec.antt =====
-- Calls that change an object and may raise. What was written before a raise stays written, so the
-- state comes back beside the exception too.
pub mod Words
use Prim.Native.String
use staykey_ha_plugin.Prelude.{String, Option, ◌≡◌, refl, ◌⊎◌, inl, inr}

pub data Exception : Type 0 where
  key_error : String → Exception
  value_error : String → Exception
  type_error : String → Exception
  -- `SupportActionDisabledError`, with the action
  support_action_disabled : String → Exception
  -- `UnsupportedProtocolError`
  unsupported_protocol : String → Exception
  -- `HomeAssistantError`: its text, and the `status` among its translation placeholders
  home_assistant_error : String → Option String → Exception
  -- any other `Exception`, with its text
  other_error : String → Exception

pub data Result {ℓ} (A : Type ℓ) : Type ℓ where
  ok : A → Result A
  err : Exception → Result A

pub Result-cases {ℓ} :
    {A : Type ℓ} (r : Result A) → ((e : Exception) × (r ≡ err e)) ⊎ ((a : A) × (r ≡ ok a))
Result-cases (err e) = inl (e, refl)
Result-cases (ok a) = inr (a, refl)

abbrev pub Exec {ℓ} : Type 0 → Type ℓ → Type ℓ
Exec S A = S → Result A × S

abbrev pub pure {ℓ} : {S : Type 0} {A : Type ℓ} → A → Exec S A
pure a s = (ok a, s)

abbrev pub raise {ℓ} : {S : Type 0} {A : Type ℓ} → Exception → Exec S A
raise e s = (err e, s)

abbrev pub continue {ℓ κ} :
    {S : Type 0} {A : Type ℓ} {B : Type κ} → Result A → (A → Exec S B) → Exec S B
continue (ok a) f s = f a s
continue (err e) f s = (err e, s)

infixl 10 ◌>>=◌ ◌>>◌
abbrev pub ◌>>=◌ {ℓ κ} :
    {S : Type 0} {A : Type ℓ} {B : Type κ} → Exec S A → (A → Exec S B) → Exec S B
◌>>=◌ m f s = let (r, s') = m s in continue r f s'

abbrev pub ◌>>◌ {ℓ κ} : {S : Type 0} {A : Type ℓ} {B : Type κ} → Exec S A → Exec S B → Exec S B
m >> n = m >>= λ _. n

abbrev pub modify : {S : Type 0} → (S → S) → Exec S (Unit {0})
modify f s = (ok tt, f s)

abbrev pub gets : {S A : Type 0} → (S → A) → Exec S A
gets f s = (ok (f s), s)

infixr 65 ◌<>◌
abbrev pub ◌<>◌ : String → String → String
s <> t = String.◌++◌ s t

-- `str(exc)`; a key is taken to need no escapes in its `repr`
unfoldable pub exception_text : Exception → String
exception_text (key_error k) = "'" <> k <> "'"
exception_text (value_error s) = s
exception_text (type_error s) = s
exception_text (support_action_disabled action) =
    "Action '" <> action <> "' needs Allow support access, which is off for this Staykey entry"
exception_text (unsupported_protocol s) = s
exception_text (home_assistant_error s status) = s
exception_text (other_error s) = s
