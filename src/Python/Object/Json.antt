-- ===== src/Python/Object/Json.antt =====
-- JSON data pass the conversions to JSON unchanged (handlers/state.py, handlers/event_tap.py).
use staykey_ha_plugin.Prelude.{
  String, ◌≡◌, refl, sym, ap, ap₂, ◌∙◌, false, none, ◌==◌, eq_iff, arith,
}
use staykey_ha_plugin.Python.Value.{
  Value, null, bool, int, float, str, arr, obj, Items, nil, cons, Fields, end, field, put, get,
}
use staykey_ha_plugin.Python.Object.{
  Object, none_object, truth, whole, fraction, text, sequence, mapping, Objects, nil_objects,
  cons_objects, Pairs, no_pairs, pair, make_serializable, serializable_items, serializable_pairs,
  tap_serializable, tap_items, tap_pairs,
}

-- JSON data as Python objects
unfoldable mutual
  pub object_of : Value → Object
  object_of null = none_object
  object_of (bool b) = truth b
  object_of (int i) = whole i
  object_of (float m e) = fraction m e
  object_of (str s) = text s
  object_of (arr vs) = sequence (objects_of vs)
  object_of (obj d) = mapping (pairs_of d)

  pub objects_of : Items → Objects
  objects_of nil = nil_objects
  objects_of (cons v vs) = cons_objects (object_of v) (objects_of vs)

  pub pairs_of : Fields → Pairs
  pairs_of end = no_pairs
  pairs_of (field k v d) = pair k (object_of v) (pairs_of d)

-- A key stands once in an object, at every depth.
unfoldable mutual
  pub IsKeyed : Value → Type 0
  IsKeyed (arr vs) = AreKeyed vs
  IsKeyed (obj d) = KeysDiffer d
  IsKeyed _ = Unit

  pub AreKeyed : Items → Type 0
  AreKeyed nil = Unit
  AreKeyed (cons v vs) = IsKeyed v × AreKeyed vs

  pub KeysDiffer : Fields → Type 0
  KeysDiffer end = Unit
  KeysDiffer (field k v d) = (get k d ≡ none) × IsKeyed v × KeysDiffer d

-- one object after the other
abbrev followed : Fields → Fields → Fields
followed end d = d
followed (field k v front) d = field k v (followed front d)

followed-end : (d : Fields) → followed d end ≡ d
followed-end end = refl
followed-end (field k v d) = ap (field k v) (followed-end d)

put-new :
    (k : String) (v : Value) (d : Fields) → get k d ≡ none → put k v d ≡ followed d (field k v end)
unfolding get put
put-new k v end fresh = refl
put-new k v (field j w d) fresh = ground (arith, put-new k v d)

followed_assoc :
    (a : Fields) (k : String) (v : Value) (d : Fields)
    → followed (followed a (field k v end)) d ≡ followed a (field k v d)
followed_assoc end k v d = refl
followed_assoc (field j w a) k v d = ap (field j w) (followed_assoc a k v d)

-- The keys of one object are not in another.
abbrev Fresh : Fields → Fields → Type 0
Fresh end acc = Unit
Fresh (field k v d) acc = (get k acc ≡ none) × Fresh d acc

get-followed :
    (j k : String) (v : Value) (acc : Fields)
    → get j acc ≡ none
    → (k == j) ≡ false
    → get j (followed acc (field k v end)) ≡ none
unfolding get
get-followed j k v end fresh other = rw other
get-followed j k v (field i w acc) fresh other = ground (arith, get-followed j k v acc)

Fresh-followed :
    (k : String) (v : Value) (d acc : Fields)
    → get k d ≡ none
    → Fresh d acc
    → Fresh d (followed acc (field k v end))
unfolding get
Fresh-followed k v end acc new fresh = tt
Fresh-followed k v (field j w d) acc new (here, fresh) = (
  get-followed j k v acc here (ground (arith, eq_iff j k, eq_iff k j)),
  Fresh-followed k v d acc (ground arith) fresh,
)

Fresh-end : (d : Fields) → Fresh d end
unfolding get
Fresh-end end = tt
Fresh-end (field k v d) = (refl, Fresh-end d)

mutual
  unfolding make_serializable object_of IsKeyed

  serializable-object_of : (v : Value) → IsKeyed v → make_serializable (object_of v) ≡ v
  serializable-object_of null h = refl
  serializable-object_of (bool b) h = refl
  serializable-object_of (int i) h = refl
  serializable-object_of (float m e) h = refl
  serializable-object_of (str s) h = refl
  serializable-object_of (arr vs) h = ap arr (serializable-objects_of vs h)
  serializable-object_of (obj d) h = ap obj (serializable-pairs_of d end h (Fresh-end d))

  serializable-objects_of : (vs : Items) → AreKeyed vs → serializable_items (objects_of vs) ≡ vs
  serializable-objects_of nil h = refl
  serializable-objects_of (cons v vs) (h, hs) =
      ap₂ cons (serializable-object_of v h) (serializable-objects_of vs hs)

  serializable-pairs_of :
      (d acc : Fields)
      → KeysDiffer d
      → Fresh d acc
      → serializable_pairs (pairs_of d) acc ≡ followed acc d
  serializable-pairs_of end acc h fresh = sym (followed-end acc)
  serializable-pairs_of (field k v d) acc (new, h, hs) (here, fresh) =
      let e : put k (make_serializable (object_of v)) acc ≡ followed acc (field k v end) =
        ap (λ w. put k w acc) (serializable-object_of v h) ∙ put-new k v acc here in
      ap (serializable_pairs (pairs_of d)) e
      ∙ serializable-pairs_of d (followed acc (field k v end)) hs
          (Fresh-followed k v d acc new fresh)
      ∙ followed_assoc acc k v d

mutual
  unfolding make_serializable tap_serializable object_of

  tap-object_of : (v : Value) → tap_serializable (object_of v) ≡ make_serializable (object_of v)
  tap-object_of null = refl
  tap-object_of (bool b) = refl
  tap-object_of (int i) = refl
  tap-object_of (float m e) = refl
  tap-object_of (str s) = refl
  tap-object_of (arr vs) = ap arr (tap-objects_of vs)
  tap-object_of (obj d) = ap obj (tap-pairs_of d end)

  tap-objects_of : (vs : Items) → tap_items (objects_of vs) ≡ serializable_items (objects_of vs)
  tap-objects_of nil = refl
  tap-objects_of (cons v vs) = ap₂ cons (tap-object_of v) (tap-objects_of vs)

  tap-pairs_of : (d acc : Fields) → tap_pairs (pairs_of d) acc ≡ serializable_pairs (pairs_of d) acc
  tap-pairs_of end acc = refl
  tap-pairs_of (field k v d) acc =
      ap (λ w. tap_pairs (pairs_of d) (put k w acc)) (tap-object_of v)
      ∙ tap-pairs_of d (put k (make_serializable (object_of v)) acc)

-- Data that JSON can carry, without a key that stands twice in one object, pass both conversions to
-- JSON unchanged.
make_serializable-object_of :
    (v : Value)
    → IsKeyed v
    → (make_serializable (object_of v) ≡ v) × (tap_serializable (object_of v) ≡ v)
make_serializable-object_of v h =
    (serializable-object_of v h, tap-object_of v ∙ serializable-object_of v h)
