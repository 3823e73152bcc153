-- ===== src/Python/Text.antt =====
-- `str.strip`, on texts as their characters.
use Prim.Native.Char.{Char, code}
use staykey_ha_plugin.Prelude.{
  ℕ, String, ◌≡◌, refl, sym, ap, ◌∙◌, Bool, true, false, ◌&&◌, ◌||◌, eqb, leb, Bool-cases, inl, inr,
  if◌then◌else◌,
}

-- `c.isspace()`
abbrev pub is_space : ℕ → Bool
is_space c =
    (leb 9 c && leb c 13)
    || (leb 28 c && leb c 32)
    || eqb c 0x85
    || eqb c 0xa0
    || eqb c 0x1680
    || (leb 0x2000 c && leb c 0x200a)
    || eqb c 0x2028
    || eqb c 0x2029
    || eqb c 0x202f
    || eqb c 0x205f
    || eqb c 0x3000

abbrev is_empty : String → Bool
is_empty String.[] = true
is_empty (String.◌∷◌ c s) = false

-- `s.lstrip()`
unfoldable pub lstrip : String → String
lstrip String.[] = String.[]
lstrip (String.◌∷◌ c s) = let rest = lstrip s in if is_space (code c) then rest else String.◌∷◌ c s

-- `s.rstrip()`
unfoldable pub rstrip : String → String
rstrip String.[] = String.[]
rstrip (String.◌∷◌ c s) =
    let rest = rstrip s in
    if is_empty rest && is_space (code c) then String.[] else String.◌∷◌ c rest

-- `s.strip()`
unfoldable pub strip : String → String
unfolding lstrip rstrip
strip s = lstrip (rstrip s)

stripped : strip "  a b " ≡ "a b"
unfolding strip
stripped = refl

rstrip_twice : (s : String) → rstrip (rstrip s) ≡ rstrip s
unfolding rstrip
rstrip_twice String.[] = refl
rstrip_twice (String.◌∷◌ c s) = elim (Bool-cases (is_empty (rstrip s) && is_space (code c))) [
  | inl drops ↦ rw drops
  | inr keeps ↦ rw keeps (rw (rstrip_twice s) (rw keeps))
]

lstrip_twice : (s : String) → lstrip (lstrip s) ≡ lstrip s
unfolding lstrip
lstrip_twice String.[] = refl
lstrip_twice (String.◌∷◌ c s) = elim (Bool-cases (is_space (code c))) [
  | inl blank ↦ rw blank (lstrip_twice s)
  | inr solid ↦ rw solid (rw solid)
]

lstrip-empty : (s : String) → is_empty s ≡ true → lstrip s ≡ String.[]
unfolding lstrip
lstrip-empty String.[] e = refl
lstrip-empty (String.◌∷◌ c s) e = cc

lstrip-rstrip_blank :
    (c : Char) (s : String)
    → is_space (code c) ≡ true
    → lstrip (rstrip (String.◌∷◌ c s)) ≡ lstrip (rstrip s)
unfolding rstrip lstrip
lstrip-rstrip_blank c s blank = elim (Bool-cases (is_empty (rstrip s))) [
  | inl gone ↦ rw (gone, blank) (sym (lstrip-empty (rstrip s) gone))
  | inr left ↦ rw left (rw blank)
]

lstrip_blank :
    (c : Char) (s : String) → is_space (code c) ≡ true → lstrip (String.◌∷◌ c s) ≡ lstrip s
unfolding lstrip
lstrip_blank c s blank = rw blank

lstrip-rstrip : (s : String) → lstrip (rstrip s) ≡ rstrip (lstrip s)
unfolding lstrip rstrip
lstrip-rstrip String.[] = refl
lstrip-rstrip (String.◌∷◌ c s) = elim (Bool-cases (is_space (code c))) [
  | inl blank ↦
      lstrip-rstrip_blank c s blank ∙ lstrip-rstrip s ∙ ap rstrip (sym (lstrip_blank c s blank))
  | inr solid ↦ elim (Bool-cases (is_empty (rstrip s))) [
    | inl gone ↦ rw (gone, solid) (rw (solid, gone))
    | inr left ↦ rw (left, solid) (rw (solid, left))
  ]
]

-- A text that was stripped has nothing left to strip.
pub strip_twice : (s : String) → strip (strip s) ≡ strip s
unfolding strip
strip_twice s =
    ap lstrip (sym (lstrip-rstrip (rstrip s)))
    ∙ lstrip_twice (rstrip (rstrip s))
    ∙ ap lstrip (rstrip_twice s)
