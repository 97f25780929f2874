-- ===== src/Json/Equality.antt =====
-- Equality of JSON values is reflexive on the values that `json.loads` can return, whose objects
-- hold each key once.
use paper_collector_agent.Prelude.{
  String, ◌≡◌, refl, true, false, none, some, arith, eq_iff, =s_refl,
}
use paper_collector_agent.Json.{
  Json, Items, Fields, null, bool, num, negative, real, str, arr, obj, nil, cons, end, field, get,
  json_eq, items_eq, fields_in,
}

-- Each object, at any depth, holds each key once.
abbrev mutual
  pub IsLoaded : Json → Type 0
  IsLoaded (arr xs) = LoadedItems xs
  IsLoaded (obj f) = LoadedFields f
  IsLoaded _ = Unit

  pub LoadedItems : Items → Type 0
  LoadedItems nil = Unit
  LoadedItems (cons x xs) = IsLoaded x × LoadedItems xs

  pub LoadedFields : Fields → Type 0
  LoadedFields end = Unit
  LoadedFields (field k v f) = IsLoaded v × (get k f ≡ none) × LoadedFields f

-- The fields of the first object are fields of the second.
abbrev IsWithin : Fields → Fields → Type 0
IsWithin f g = (j : String) (w : Json) → get j f ≡ some w → get j g ≡ some w

get-head : (k : String) (v : Json) (f : Fields) → get k (field k v f) ≡ some v
unfolding get
get-head k v f = rw (=s_refl k)

IsWithin-tail :
    (k : String) (v : Json) (f g : Fields)
    → get k f ≡ none
    → IsWithin (field k v f) g
    → IsWithin f g
unfolding get
IsWithin-tail k v f g fresh h j w p = h j w (ground (arith, eq_iff k j))

mutual
  unfolding json_eq

  json_eq_self : (v : Json) → IsLoaded v → json_eq v v ≡ true
  json_eq_self null h = refl
  json_eq_self (bool true) h = refl
  json_eq_self (bool false) h = refl
  json_eq_self (num n) h = ground arith
  json_eq_self (negative n) h = ground arith
  json_eq_self (real s) h = =s_refl s
  json_eq_self (str s) h = =s_refl s
  json_eq_self (arr xs) h = items_eq_self xs h
  json_eq_self (obj f) h = ground (arith, fields_in_self f f h (λ j w p. p))

  items_eq_self : (xs : Items) → LoadedItems xs → items_eq xs xs ≡ true
  items_eq_self nil h = refl
  items_eq_self (cons x xs) h = rw (json_eq_self x h.0, items_eq_self xs h.1)

  fields_in_self : (f g : Fields) → LoadedFields f → IsWithin f g → fields_in f g ≡ true
  fields_in_self end g h sub = refl
  fields_in_self (field k v f) g h sub = rw (
    sub k v (get-head k v f),
    json_eq_self v h.0,
    fields_in_self f g h.2 (IsWithin-tail k v f g h.1 sub),
  )

-- Equality is reflexive on loaded values.
pub json_eq_refl : (v : Json) → IsLoaded v → json_eq v v ≡ true
json_eq_refl v h = json_eq_self v h
