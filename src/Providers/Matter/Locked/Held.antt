-- ===== src/Providers/Matter/Locked/Held.antt =====
-- That a lock is held once at most, and is the one in the dictionary (services/providers/matter.py).
use staykey_ha_plugin.Prelude.{
  ℕ, ◌+◌, String, ◌≡◌, refl, ap, ◌∙◌, sym, subst, true, false, some, List, [], ◌∷◌, ◌==◌, eqb, All,
  arith, eq_iff, eq_refl, Bool-cases, inl, inr, if◌then◌else◌,
}
use staykey_ha_plugin.Python.Coroutine.{Resumed}
use staykey_ha_plugin.Python.Dict.{Dict, lookup, erase, lookup-insert, lookup-erase}
use staykey_ha_plugin.Providers.Matter.Locked.{
  Operation, called, queued, inside, left, Locks, get_entity_lock, refers_to, Turn, look, acquire,
  pause, release, Step, here, there, Reach, start, arrive, next, forget, meanwhile,
}

eqb_eq : (a b : ℕ) → eqb a b ≡ true → a ≡ b
eqb_eq a b h = ground (arith, h)

pub eqb_refl : (a : ℕ) → eqb a a ≡ true
eqb_refl a = ground arith

-- How often a lock can be taken: once, or never if it is locked.
abbrev pub free : {S : Type 0} → ℕ → Locks S → ℕ
free k w = if w.locked k then 0 else 1

module _ {T A : Type 0} where
  -- whether a call holds a lock, as a number
  abbrev pub holds : ℕ → Operation T A → ℕ
  holds k (inside e lock t) = if eqb k lock then 1 else 0
  holds k _ = 0

  unfoldable pub held_count : ℕ → List (Operation T A) → ℕ
  held_count k [] = 0
  held_count k (o ∷ os) = holds k o + held_count k os

  -- A lock that a call refers to is in the dictionary for the call's entity.
  abbrev pub IsTabled : Dict ℕ → Operation T A → Type 0
  IsTabled locks (queued e lock t) = lookup e locks ≡ some lock
  IsTabled locks (inside e lock t) = lookup e locks ≡ some lock
  IsTabled locks _ = Unit

  abbrev pub AreTabled : Dict ℕ → List (Operation T A) → Type 0
  AreTabled locks = All (IsTabled locks)

  IsTabled-keeps :
      (d d' : Dict ℕ)
      → ((e : String) (lock : ℕ) → lookup e d ≡ some lock → lookup e d' ≡ some lock)
      → (o : Operation T A) → IsTabled d o
      → IsTabled d' o
  IsTabled-keeps d d' grows (called e t) h = tt
  IsTabled-keeps d d' grows (queued e lock t) h = grows e lock h
  IsTabled-keeps d d' grows (inside e lock t) h = grows e lock h
  IsTabled-keeps d d' grows (left r) h = tt

  AreTabled-keeps :
      (d d' : Dict ℕ)
      → ((e : String) (lock : ℕ) → lookup e d ≡ some lock → lookup e d' ≡ some lock)
      → (os : List (Operation T A)) → AreTabled d os
      → AreTabled d' os
  AreTabled-keeps d d' grows [] h = tt
  AreTabled-keeps d d' grows (o ∷ os) h =
      (IsTabled-keeps d d' grows o h.0, AreTabled-keeps d d' grows os h.1)

-- What looking for a lock does: the lock is then in the dictionary, as are those that were, and
-- whether a lock is locked stays.
get_entity_lock-found :
    {S : Type 0} (e : String) (w : Locks S)
    → lookup e (get_entity_lock e w).1.entity_locks ≡ some (get_entity_lock e w).0
unfolding get_entity_lock
get_entity_lock-found e w = ground (arith, eq_refl e, lookup-insert e e w.next_lock w.entity_locks)

get_entity_lock-grows :
    {S : Type 0} (e : String) (w : Locks S) (j : String) (lock : ℕ)
    → lookup j w.entity_locks ≡ some lock
    → lookup j (get_entity_lock e w).1.entity_locks ≡ some lock
unfolding get_entity_lock
get_entity_lock-grows e w j lock h =
    ground (arith, eq_iff e j, lookup-insert e j w.next_lock w.entity_locks)

get_entity_lock-locked :
    {S : Type 0} (e : String) (w : Locks S) → (get_entity_lock e w).1.locked ≡ w.locked
unfolding get_entity_lock
get_entity_lock-locked e w = ground arith

module _ {T S A : Type 0} (resume : T → S → Resumed T A × S) where
  Turn-table :
      {w : Locks S} {o o' : Operation T A} {w' : Locks S}
      → Turn resume w o o' w'
      → (e : String) (lock : ℕ) → lookup e w.entity_locks ≡ some lock
      → lookup e w'.entity_locks ≡ some lock
  Turn-table {w = w} (look e t w' lock g) j k h = cc (get_entity_lock-grows e w j k h)
  Turn-table (acquire e lock t g) j k h = h
  Turn-table (pause e lock t t' s g) j k h = h
  Turn-table (release e lock t r s g) j k h = h

  Turn-IsTabled :
      {w : Locks S} {o o' : Operation T A} {w' : Locks S}
      → Turn resume w o o' w'
      → IsTabled w.entity_locks o
      → IsTabled w'.entity_locks o'
  Turn-IsTabled {w = w} (look e t w' lock g) h = cc (get_entity_lock-found e w)
  Turn-IsTabled (acquire e lock t g) h = h
  Turn-IsTabled (pause e lock t t' s g) h = h
  Turn-IsTabled (release e lock t r s g) h = tt

  -- One call holds a lock or the lock is free: a turn keeps that, where so many other calls hold it.
  Turn-held :
      {w : Locks S} {o o' : Operation T A} {w' : Locks S} (k others : ℕ)
      → Turn resume w o o' w'
      → others + (holds k o + free k w) ≡ 1
      → others + (holds k o' + free k w') ≡ 1
  Turn-held {w = w} k others (look e t w' lock g) h =
      let same : w'.locked ≡ w.locked =
        sym (ap (λ (p : ℕ × Locks S). p.1.locked) g) ∙ get_entity_lock-locked e w in
      rw same h
  Turn-held {w = w} k others (acquire e lock t g) h = elim (Bool-cases (eqb k lock)) [
    | inl same ↦
        let unlocked : w.locked k ≡ false = ap w.locked (eqb_eq k lock same) ∙ g in
        let before : others + (0 + 1) ≡ 1 = rw unlocked at h in rw same (omega (arith, before))
    | inr other ↦ rw other h
  ]
  Turn-held k others (pause e lock t t' s g) h = h
  Turn-held k others (release e lock t r s g) h = ground (arith, h)

  Step-held :
      {w : Locks S} {os os' : List (Operation T A)} {w' : Locks S} (k : ℕ)
      → Step resume w os os' w'
      → (others : ℕ) → others + (held_count k os + free k w) ≡ 1
      → others + (held_count k os' + free k w') ≡ 1
  unfolding held_count
  Step-held k (here {o = o} {o' = o'} {w' = w'} os turn) others h =
      let turned = Turn-held k (others + held_count k os) turn (omega (arith, h)) in
      omega (arith, turned)
  Step-held k (there o step) others h =
      let stepped = Step-held k step (others + holds k o) (omega (arith, h)) in
      omega (arith, stepped)

  Step-table :
      {w : Locks S} {os os' : List (Operation T A)} {w' : Locks S}
      → Step resume w os os' w'
      → (e : String) (lock : ℕ) → lookup e w.entity_locks ≡ some lock
      → lookup e w'.entity_locks ≡ some lock
  Step-table (here os turn) = Turn-table turn
  Step-table (there o step) = Step-table step

  Step-AreTabled :
      {w : Locks S} {os os' : List (Operation T A)} {w' : Locks S}
      → Step resume w os os' w'
      → AreTabled w.entity_locks os
      → AreTabled w'.entity_locks os'
  Step-AreTabled {w = w} (here {w' = w'} os turn) h = (
    Turn-IsTabled turn h.0,
    AreTabled-keeps w.entity_locks w'.entity_locks (Turn-table turn) os h.1,
  )
  Step-AreTabled {w = w} {w' = w'} (there o step) h = (
    IsTabled-keeps w.entity_locks w'.entity_locks (Step-table step) o h.0,
    Step-AreTabled step h.1,
  )

  -- What holds of all that the calls may come to.
  pub record IsLocked (os : List (Operation T A)) (w : Locks S) : Type 0 where
    pub tabled : AreTabled w.entity_locks os
    pub once : (k : ℕ) → held_count k os + free k w ≡ 1

  -- A lock that is forgotten is no lock of a call.
  AreTabled-forget :
      (locks : Dict ℕ) (e : String) (lock : ℕ) (os : List (Operation T A))
      → lookup e locks ≡ some lock
      → All (λ (o : Operation T A). refers_to lock o ≡ false) os
      → AreTabled locks os
      → AreTabled (erase e locks) os
  AreTabled-forget locks e lock [] found unused h = tt
  AreTabled-forget locks e lock (o ∷ os) found unused h =
      (one o unused.0 h.0, AreTabled-forget locks e lock os found unused.1 h.1)
    where
      stays :
          (j : String) (k : ℕ)
          → eqb lock k ≡ false
          → lookup j locks ≡ some k
          → lookup j (erase e locks) ≡ some k
      stays j k other is = elim (Bool-cases (e == j)) [
        | inl same ↦
            let at_j : lookup j locks ≡ some lock =
              subst (λ n. lookup n locks ≡ some lock) ((eq_iff e j).0 same) found in
            let is_k : lock ≡ k = cc in
            cc (eqb_refl lock, subst (λ n. eqb lock n ≡ false) (sym is_k) other)
        | inr diff ↦ lookup-erase e j locks ∙ rw diff is
      ]

      one :
          (o : Operation T A)
          → refers_to lock o ≡ false
          → IsTabled locks o
          → IsTabled (erase e locks) o
      one (called j t) u is = tt
      one (queued j k t) u is = stays j k u is
      one (inside j k t) u is = stays j k u is
      one (left r) u is = tt

  pub Reach-IsLocked : {os : List (Operation T A)} {w : Locks S} → Reach resume os w → IsLocked os w
  unfolding held_count
  Reach-IsLocked (start s) = record { tabled = tt; once = λ k. refl }
  Reach-IsLocked (arrive e t reach) =
      let h = Reach-IsLocked reach in
      record { tabled = (tt, h.tabled); once = λ k. omega (arith, h.once k) }
  Reach-IsLocked (next {os = os} {os' = os'} reach step) =
      let h = Reach-IsLocked reach in
      record {
        tabled = Step-AreTabled step h.tabled;
        once = λ k.
            let stepped = Step-held k step 0 (omega (arith, h.once k)) in omega (arith, stepped);
      }
  Reach-IsLocked (forget {os = os} {w = w} e lock reach found unused) =
      let h = Reach-IsLocked reach in
      record {
        tabled = AreTabled-forget w.entity_locks e lock os found unused h.tabled;
        once = h.once;
      }
  Reach-IsLocked (meanwhile s reach) =
      let h = Reach-IsLocked reach in record { tabled = h.tabled; once = h.once }
