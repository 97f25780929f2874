-- ===== src/Json.antt =====
-- The JSON values that the program stores and compares, and Python's operations on them: the
-- `dict` methods, truth, and equality. A stored text column is modelled by the value that
-- `json.loads` reads from it, and a number whose value is no integer is kept as
-- its text.
pub mod Equality
use paper_collector_agent.Prelude.{
  ℕ, zero, suc, ◌+◌, String, ◌≡◌, Bool, true, false, not, ◌&&◌, Option, none, some, List, [], ◌∷◌,
  arith, eq_iff, ◌==◌, ◌=s◌, if◌then◌else◌, is_empty,
}

mutual
  pub data Json : Type 0 where
    null : Json
    bool : Bool → Json
    num : ℕ → Json
    negative : ℕ → Json
    real : String → Json
    str : String → Json
    arr : Items → Json
    obj : Fields → Json

  pub data Items : Type 0 where
    nil : Items
    cons : Json → Items → Items

  pub data Fields : Type 0 where
    end : Fields
    field : String → Json → Fields → Fields

-- `d.get(k)`
unfoldable pub get : String → Fields → Option Json
get k end = none
get k (field j v f) = let rest = get k f in if j =s k then some v else rest

-- `d[k] = v`
unfoldable pub put : String → Json → Fields → Fields
put k v end = field k v end
put k v (field j w f) = let rest = put k v f in if j =s k then field j v f else field j w rest

-- `d.pop(k, None)`
unfoldable pub pop : String → Fields → Fields
pop k end = end
pop k (field j v f) = let rest = pop k f in if j =s k then rest else field j v rest

-- `d.update(e)`
unfoldable pub update : Fields → Fields → Fields
update d end = d
update d (field k v e) = update (put k v d) e

unfoldable pub size_items : Items → ℕ
size_items nil = 0
size_items (cons x xs) = suc (size_items xs)

unfoldable pub size_fields : Fields → ℕ
size_fields end = 0
size_fields (field k v f) = suc (size_fields f)

-- `bool(value)`; a text of a number that is no integer is never the text of zero here.
unfoldable pub truthy : Json → Bool
truthy null = false
truthy (bool b) = b
truthy (num n) = not (n == 0)
truthy (str s) = not (is_empty s)
truthy (arr nil) = false
truthy (obj end) = false
truthy _ = true

-- `a or b` for a value that may be absent.
unfoldable pub or_else : Option Json → Json → Json
unfolding truthy
or_else none d = d
or_else (some v) d = if truthy v then v else d

unfoldable mutual
  -- `a == b`: objects are equal if they hold equal values under the same keys, in any order.
  pub json_eq : Json → Json → Bool
  json_eq null null = true
  json_eq (bool true) (bool b) = b
  json_eq (bool true) (num n) = n == 1
  json_eq (bool false) (bool b) = not b
  json_eq (bool false) (num n) = n == 0
  json_eq (num m) (num n) = m == n
  json_eq (num m) (bool b) = if b then m == 1 else m == 0
  json_eq (negative m) (negative n) = m == n
  json_eq (real s) (real t) = s =s t
  json_eq (str s) (str t) = s =s t
  json_eq (arr xs) (arr ys) = items_eq xs ys
  json_eq (obj f) (obj g) = size_fields f == size_fields g && fields_in f g
  json_eq _ _ = false

  pub items_eq : Items → Items → Bool
  items_eq nil nil = true
  items_eq (cons x xs) (cons y ys) = json_eq x y && items_eq xs ys
  items_eq _ _ = false

  -- Every field of the first object is in the second, with an equal value.
  pub fields_in : Fields → Fields → Bool
  fields_in end g = true
  fields_in (field k v f) g =
      elim (get k g) [ none ↦ false | some w ↦ json_eq v w ] && fields_in f g

pub get-put :
    (k j : String) (v : Json) (f : Fields)
    → get j (put k v f) ≡ (if k =s j then some v else get j f)
unfolding get put
get-put k j v end = ground arith
get-put k j v (field i w f) = ground (arith, eq_iff k j, eq_iff i k, eq_iff i j, get-put k j v f)

pub get-pop : (k j : String) (f : Fields) → get j (pop k f) ≡ (if k =s j then none else get j f)
unfolding get pop
get-pop k j end = ground arith
get-pop k j (field i w f) = ground (arith, eq_iff k j, eq_iff i k, eq_iff i j, get-pop k j f)

pub ruleset dict_laws = (get-put, get-pop)
