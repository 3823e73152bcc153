-- ===== src/Providers/Zwave/Listing.antt =====
-- What `read_codes` lists (services/providers/zwave.py).
use staykey_ha_plugin.Prelude.{
  String, ◌≡◌, refl, true, false, none, List, [], ◌∷◌, All, arith, Bool-cases, Option-cases, inl,
  inr,
}
use staykey_ha_plugin.Python.Int.{ℤ, pos, negsuc}
use staykey_ha_plugin.Providers.{Services, SlotInfo}
use staykey_ha_plugin.Providers.Slots.{SlotState, Slots, le_int, place, sorted, listed}
use staykey_ha_plugin.Providers.Zwave.{get_usercodes, read_codes}

le_int_total : (i j : ℤ) → le_int i j ≡ false → le_int j i ≡ true
le_int_total (pos m) (pos n) e = ground arith
le_int_total (pos m) (negsuc n) e = ground arith
le_int_total (negsuc m) (pos n) e = ground arith
le_int_total (negsuc m) (negsuc n) e = ground arith

le_int_trans : (i j k : ℤ) → le_int i j ≡ true → le_int j k ≡ true → le_int i k ≡ true
le_int_trans (pos m) (pos n) (pos o) e f = ground arith
le_int_trans (pos m) (pos n) (negsuc o) e f = ground arith
le_int_trans (pos m) (negsuc n) k e f = ground arith
le_int_trans (negsuc m) (pos n) (pos o) e f = ground arith
le_int_trans (negsuc m) (pos n) (negsuc o) e f = ground arith
le_int_trans (negsuc m) (negsuc n) (pos o) e f = ground arith
le_int_trans (negsuc m) (negsuc n) (negsuc o) e f = ground arith

abbrev IsFrom : ℤ → ℤ × SlotState → Type 0
IsFrom n x = le_int n x.0 ≡ true

abbrev AreSorted : Slots → Type 0
AreSorted [] = Unit
AreSorted (x ∷ xs) = All (IsFrom x.0) xs × AreSorted xs

All-IsFrom-weaken :
    (m n : ℤ) (xs : Slots) → le_int m n ≡ true → All (IsFrom n) xs → All (IsFrom m) xs
All-IsFrom-weaken m n [] e h = tt
All-IsFrom-weaken m n (x ∷ xs) e (p, h) = (le_int_trans m n x.0 e p, All-IsFrom-weaken m n xs e h)

All-IsFrom-place :
    (n : ℤ) (x : ℤ × SlotState) (xs : Slots)
    → IsFrom n x
    → All (IsFrom n) xs
    → All (IsFrom n) (place x xs)
unfolding place
All-IsFrom-place n x [] p h = (p, tt)
All-IsFrom-place n x (y ∷ ys) p (q, h) = elim (Bool-cases (le_int x.0 y.0)) [
  | inl here ↦ rw here (p, (q, h))
  | inr there ↦ rw there (q, All-IsFrom-place n x ys p h)
]

AreSorted-place : (x : ℤ × SlotState) (xs : Slots) → AreSorted xs → AreSorted (place x xs)
unfolding place
AreSorted-place x [] h = (tt, tt)
AreSorted-place x (y ∷ ys) (p, h) = elim (Bool-cases (le_int x.0 y.0)) [
  | inl here ↦ rw here ((here, All-IsFrom-weaken x.0 y.0 ys here p), (p, h))
  | inr there ↦
      rw there (All-IsFrom-place y.0 x ys (le_int_total x.0 y.0 there) p, AreSorted-place x ys h)
]

AreSorted-sorted : (xs : Slots) → AreSorted (sorted xs)
unfolding sorted
AreSorted-sorted [] = tt
AreSorted-sorted (x ∷ xs) = AreSorted-place x (sorted xs) (AreSorted-sorted xs)

-- A slot within the bound, that shows no code unless it is in use.
abbrev pub IsShown : ℤ → SlotInfo → Type 0
IsShown max_slots i = (le_int i.slot max_slots ≡ true) × (i.occupied ≡ false → i.code ≡ none)

-- Slots within the bound, in the order of their numbers.
abbrev pub AreShown : ℤ → List SlotInfo → Type 0
AreShown max_slots [] = Unit
AreShown max_slots (i ∷ is) =
    IsShown max_slots i × All (λ j. le_int i.slot j.slot ≡ true) is × AreShown max_slots is

All-listed :
    (n max_slots : ℤ) (xs : Slots)
    → All (IsFrom n) xs
    → All (λ j. le_int n j.slot ≡ true) (listed max_slots xs)
unfolding listed
All-listed n max_slots [] h = tt
All-listed n max_slots (x ∷ xs) (p, h) = elim (Bool-cases (le_int x.0 max_slots)) [
  | inl within ↦ rw within (p, All-listed n max_slots xs h)
  | inr beyond ↦ rw beyond (All-listed n max_slots xs h)
]

AreShown-listed :
    (max_slots : ℤ) (xs : Slots) → AreSorted xs → AreShown max_slots (listed max_slots xs)
unfolding listed
AreShown-listed max_slots [] h = tt
AreShown-listed max_slots (x ∷ xs) (p, h) = elim (Bool-cases (le_int x.0 max_slots)) [
  | inl within ↦ rw within (
    (within, λ empty. rw empty refl),
    All-listed x.0 max_slots xs p,
    AreShown-listed max_slots xs h,
  )
  | inr beyond ↦ rw beyond (AreShown-listed max_slots xs h)
]

-- The listing of the slots is in the order of their numbers, has none beyond the limit, and shows no
-- code of a slot that is not in use, whatever the service returns.
read_codes-AreShown :
    {S : Type 0} (call : Services S) (entity_id : String) (max_slots : ℤ) (s : S)
    → AreShown max_slots (read_codes call entity_id max_slots s).0
unfolding read_codes
read_codes-AreShown call entity_id max_slots s =
    elim (Option-cases (get_usercodes call entity_id none s).0) [
      | inl failed ↦ rw (failed, read_codes) tt
      | inr (slots, got) ↦
          rw (got, read_codes) (AreShown-listed max_slots (sorted slots) (AreSorted-sorted slots))
    ]
