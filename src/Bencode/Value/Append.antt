-- ===== src/Bencode/Value/Append.antt =====
-- Joining two lists of items, and two maps where the keys of the second come later.
use dht_hunter.Base.{ℕ, ◌≡◌, refl, true, List, ap, bytes_lt, bytes_lt_trans, arith}
use dht_hunter.Bencode.Value.{
  Value, Items, Fields, nil, item, end, field, push_back, insert, Above, IsSorted, IsValid,
  AllValid, FieldsValid,
}

abbrev pub append : Items → Items → Items
append nil ys = ys
append (item x xs) ys = item x (append xs ys)

pub append-nil_items : (xs : Items) → append xs nil ≡ xs
append-nil_items nil = refl
append-nil_items (item x xs) = ap (item x) (append-nil_items xs)

pub append-push_back :
    (xs : Items) (v : Value) (ys : Items) → append (push_back xs v) ys ≡ append xs (item v ys)
unfolding push_back
append-push_back nil v ys = refl
append-push_back (item x xs) v ys = ap (item x) (append-push_back xs v ys)

abbrev pub join : Fields → Fields → Fields
join end gs = gs
join (field k v fs) gs = field k v (join fs gs)

pub join-end : (fs : Fields) → join fs end ≡ fs
join-end end = refl
join-end (field k v fs) = ap (field k v) (join-end fs)

pub join-field :
    (fs : Fields) (k : List ℕ) (v : Value) (gs : Fields)
    → join (join fs (field k v end)) gs ≡ join fs (field k v gs)
join-field end k v gs = refl
join-field (field j w fs) k v gs = ap (field j w) (join-field fs k v gs)

Above-join :
    (j k : List ℕ) (v : Value) (fs gs : Fields)
    → Above j (join fs (field k v gs))
    → bytes_lt j k ≡ true
Above-join j k v end gs h = h.0
Above-join j k v (field i w fs) gs h = Above-join j k v fs gs h.1

-- A key above all others goes to the end of the map.
pub insert-join :
    (k : List ℕ) (v : Value) (fs gs : Fields)
    → IsSorted (join fs (field k v gs))
    → insert k v fs ≡ join fs (field k v end)
unfolding insert
insert-join k v end gs h = refl
insert-join k v (field j w fs) gs h =
    rw (Above-join j k v fs gs h.0) (ap (field j w) (insert-join k v fs gs h.1))

Above-insert :
    (j k : List ℕ) (v : Value) (fs : Fields)
    → bytes_lt j k ≡ true
    → Above j fs
    → Above j (insert k v fs)
unfolding insert
Above-insert j k v end h a = (h, tt)
Above-insert j k v (field i w fs) h a = ground (arith, Above-insert j k v fs h a.1)

Above-trans : (j k : List ℕ) (fs : Fields) → bytes_lt j k ≡ true → Above k fs → Above j fs
Above-trans j k end h a = tt
Above-trans j k (field i w fs) h a = (bytes_lt_trans j k i h a.0, Above-trans j k fs h a.1)

-- Writing an entry keeps a map in order.
pub insert-IsSorted :
    (k : List ℕ) (v : Value) (fs : Fields) → IsSorted fs → IsSorted (insert k v fs)
unfolding insert
insert-IsSorted k v end h = (tt, tt)
insert-IsSorted k v (field j w fs) h =
    ground (arith, Above-insert j k v fs, Above-trans k j fs, insert-IsSorted k v fs h.1)

pub push_back-AllValid :
    (xs : Items) (v : Value) → AllValid xs → IsValid v → AllValid (push_back xs v)
unfolding push_back
push_back-AllValid nil v h k = (k, tt)
push_back-AllValid (item x xs) v h k = (h.0, push_back-AllValid xs v h.1 k)

pub insert-FieldsValid :
    (key : List ℕ) (v : Value) (fs : Fields)
    → FieldsValid fs
    → IsValid v
    → FieldsValid (insert key v fs)
unfolding insert
insert-FieldsValid key v end h k = (k, tt)
insert-FieldsValid key v (field j w fs) h k = ground (arith, insert-FieldsValid key v fs h.1 k)
