-- ===== src/Providers/Matter/Locked/Exclusive.antt =====
-- Which calls are at work on an entity (services/providers/matter.py).
use staykey_ha_plugin.Prelude.{
  ℕ, ◌+◌, ◌≤◌, String, ◌≡◌, refl, sym, subst, true, none, some, List, [], ◌∷◌, ◌==◌, eqb, arith,
  eq_iff, Bool-cases, Option-cases, inl, inr, if◌then◌else◌,
}
use staykey_ha_plugin.Python.Coroutine.{Resumed}
use staykey_ha_plugin.Python.Dict.{Dict, lookup}
use staykey_ha_plugin.Providers.Matter.Locked.{
  Operation, called, queued, inside, left, Locks, Reach,
}
use staykey_ha_plugin.Providers.Matter.Locked.Held.{
  holds, held_count, IsTabled, AreTabled, eqb_refl, Reach-IsLocked,
}

module _ {T A : Type 0} where
  -- whether a call for the entity is at work on it
  abbrev is_inside : String → Operation T A → ℕ
  is_inside e (inside e' lock t) = if e' == e then 1 else 0
  is_inside e _ = 0

  unfoldable pub inside_count : String → List (Operation T A) → ℕ
  inside_count e [] = 0
  inside_count e (o ∷ os) = is_inside e o + inside_count e os

  inside-le-held :
      (e : String) (locks : Dict ℕ) (k : ℕ) (os : List (Operation T A))
      → lookup e locks ≡ some k
      → AreTabled locks os
      → inside_count e os ≤ held_count k os
  unfolding inside_count held_count
  inside-le-held e locks k [] found h = omega arith
  inside-le-held e locks k (o ∷ os) found h =
      omega (arith, one o h.0, inside-le-held e locks k os found h.1)
    where
      one : (o : Operation T A) → IsTabled locks o → is_inside e o ≤ holds k o
      one (called j t) is = omega arith
      one (queued j lock t) is = omega arith
      one (inside j lock t) is = elim (Bool-cases (j == e)) [
        | inl same ↦
            let at_j : lookup j locks ≡ some k =
              subst (λ n. lookup n locks ≡ some k) (sym ((eq_iff j e).0 same)) found in
            let is_k : k ≡ lock = cc in
            let equal : eqb k lock ≡ true = subst (λ n. eqb k n ≡ true) is_k (eqb_refl k) in
            rw (same, equal) (omega arith)
        | inr diff ↦ rw diff (omega arith)
      ]
      one (left r) is = omega arith

  none-inside :
      (e : String) (locks : Dict ℕ) (os : List (Operation T A))
      → lookup e locks ≡ none
      → AreTabled locks os
      → inside_count e os ≡ 0
  unfolding inside_count
  none-inside e locks [] missing h = refl
  none-inside e locks (o ∷ os) missing h =
      omega (arith, one o h.0, none-inside e locks os missing h.1)
    where
      one : (o : Operation T A) → IsTabled locks o → is_inside e o ≡ 0
      one (called j t) is = refl
      one (queued j lock t) is = refl
      one (inside j lock t) is = elim (Bool-cases (j == e)) [
        | inl same ↦
            let at_j : lookup j locks ≡ none =
              subst (λ n. lookup n locks ≡ none) (sym ((eq_iff j e).0 same)) missing in
            cc
        | inr diff ↦ rw diff refl
      ]
      one (left r) is = refl

module _ {T S A : Type 0} (resume : T → S → Resumed T A × S) where
  -- Whatever calls arrive and however they take turns: at most one call at a time is at work on the
  -- codes of an entity, although the dictionary forgets locks that no call refers to.
  pub Reach-exclusive :
      {os : List (Operation T A)} {w : Locks S} (e : String)
      → Reach resume os w
      → inside_count e os ≤ 1
  Reach-exclusive {os = os} {w = w} e reach = elim (Option-cases (lookup e w.entity_locks)) [
    | inl missing ↦
        omega (arith, none-inside e w.entity_locks os missing (Reach-IsLocked resume reach).tabled)
    | inr (k, found) ↦
        let h = Reach-IsLocked resume reach in
        omega (arith, h.once k, inside-le-held e w.entity_locks k os found h.tabled)
  ]
