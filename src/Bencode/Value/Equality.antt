-- ===== src/Bencode/Value/Equality.antt =====
-- `operator==` decides equality of values.
use dht_hunter.Base.{◌≡◌, ◌↔◌, true, bytes_eq_iff, arith}
use dht_hunter.Base.Int.{ℤ}
use dht_hunter.Bencode.Value.{
  Value, Items, Fields, string, integer, list, dict, nil, item, end, field, value_eq, items_eq,
  fields_eq, int_eq,
}

int_eq_iff : (a b : ℤ) → (int_eq a b ≡ true) ↔ (a ≡ b)
int_eq_iff a b = ground arith

mutual
  unfolding value_eq

  value_eq_lem : (v w : Value) → (value_eq v w ≡ true) ↔ (v ≡ w)
  value_eq_lem (string s) (string t) = ground (arith, bytes_eq_iff s t)
  value_eq_lem (integer a) (integer b) = ground (arith, int_eq_iff a b)
  value_eq_lem (list xs) (list ys) = ground (arith, items_eq_lem xs ys)
  value_eq_lem (dict fs) (dict gs) = ground (arith, fields_eq_lem fs gs)
  value_eq_lem _ _ = ground arith

  items_eq_lem : (xs ys : Items) → (items_eq xs ys ≡ true) ↔ (xs ≡ ys)
  items_eq_lem nil nil = ground arith
  items_eq_lem (item x xs) (item y ys) = ground (arith, value_eq_lem x y, items_eq_lem xs ys)
  items_eq_lem _ _ = ground arith

  fields_eq_lem : (fs gs : Fields) → (fields_eq fs gs ≡ true) ↔ (fs ≡ gs)
  fields_eq_lem end end = ground arith
  fields_eq_lem (field j v fs) (field k w gs) =
      ground (arith, bytes_eq_iff j k, value_eq_lem v w, fields_eq_lem fs gs)
  fields_eq_lem _ _ = ground arith

-- `operator==` holds of two values exactly when they are the same value.
pub value_eq_iff : (v w : Value) → (value_eq v w ≡ true) ↔ (v ≡ w)
value_eq_iff v w = value_eq_lem v w
