-- ===== src/Bencode/Value.antt =====
-- modules/bencode/src/bencode_value.cpp. A std::string is the list of its bytes. A std::vector of
-- values is `Items`, and a std::map is `Fields`, its entries in the order of their keys.
pub mod Append
pub mod Laws
pub mod Equality
use dht_hunter.Base.{
  ℕ, zero, suc, ◌≡◌, Bool, true, false, ◌&&◌, not, List, Option, none, some, ltb, ◌==◌,
  if◌then◌else◌, bytes_lt, bytes_eq, Result, ok, throw, out_of_range, bad_variant_access,
}
use dht_hunter.Base.Int.{ℤ, pos, negsuc, IsInt64}

mutual
  pub data Value : Type 0 where
    string : List ℕ → Value
    integer : ℤ → Value
    list : Items → Value
    dict : Fields → Value

  pub data Items : Type 0 where
    nil : Items
    item : Value → Items → Items

  pub data Fields : Type 0 where
    end : Fields
    field : List ℕ → Value → Fields → Fields

pub data ValueType : Type 0 where
  string_type integer_type list_type dict_type : ValueType

unfoldable pub type : Value → ValueType
type (string s) = string_type
type (integer z) = integer_type
type (list xs) = list_type
type (dict fs) = dict_type

unfoldable pub is_string : Value → Bool
is_string (string s) = true
is_string _ = false

unfoldable pub is_integer : Value → Bool
is_integer (integer z) = true
is_integer _ = false

unfoldable pub is_list : Value → Bool
is_list (list xs) = true
is_list _ = false

unfoldable pub is_dict : Value → Bool
is_dict (dict fs) = true
is_dict _ = false

-- std::get throws where the variant holds another alternative.
unfoldable pub as_string : Value → Result (List ℕ)
as_string (string s) = ok s
as_string _ = throw bad_variant_access

unfoldable pub as_integer : Value → Result ℤ
as_integer (integer z) = ok z
as_integer _ = throw bad_variant_access

unfoldable pub as_list : Value → Result Items
as_list (list xs) = ok xs
as_list _ = throw bad_variant_access

unfoldable pub as_dict : Value → Result Fields
as_dict (dict fs) = ok fs
as_dict _ = throw bad_variant_access

-- std::vector: size, operator[], push_back, erase.
abbrev pub size : Items → ℕ
size nil = 0
size (item x xs) = suc (size xs)

unfoldable pub at : Items → ℕ → Option Value
at nil i = none
at (item x xs) zero = some x
at (item x xs) (suc i) = at xs i

unfoldable pub assign : Items → ℕ → Value → Items
assign nil i v = nil
assign (item x xs) zero v = item v xs
assign (item x xs) (suc i) v = item x (assign xs i v)

unfoldable pub push_back : Items → Value → Items
push_back nil v = item v nil
push_back (item x xs) v = item x (push_back xs v)

unfoldable pub erase_at : Items → ℕ → Items
erase_at nil i = nil
erase_at (item x xs) zero = xs
erase_at (item x xs) (suc i) = item x (erase_at xs i)

-- std::map: find, operator[] with an assignment, erase.
unfoldable pub find : List ℕ → Fields → Option Value
find k end = none
find k (field j v fs) = if bytes_eq j k then some v else find k fs

unfoldable pub insert : List ℕ → Value → Fields → Fields
insert k v end = field k v end
insert k v (field j w fs) =
    if bytes_lt j k
    then field j w (insert k v fs)
    else if bytes_lt k j
    then field k v (field j w fs)
    else field j v fs

unfoldable pub erase : List ℕ → Fields → Fields
erase k end = end
erase k (field j v fs) = if bytes_eq j k then fs else field j v (erase k fs)

abbrev pub found {ℓ} : {A : Type ℓ} → Option A → Bool
found none = false
found (some a) = true

-- `get` by key: a null pointer is `none`.
unfoldable pub get_key : Value → List ℕ → Result (Option Value)
get_key (dict fs) k = ok (find k fs)
get_key _ k = throw bad_variant_access

-- An index below the size has an element; `at_index` is `list[index]` after the test.
abbrev at_index : Option Value → Result Value
at_index none = throw out_of_range
at_index (some v) = ok v

unfoldable pub get_index : Value → ℕ → Result Value
get_index (list xs) i = if ltb i (size xs) then at_index (at xs i) else throw out_of_range
get_index _ i = throw bad_variant_access

unfoldable pub set_key : Value → List ℕ → Value → Result Value
set_key (dict fs) k v = ok (dict (insert k v fs))
set_key _ k v = throw bad_variant_access

unfoldable pub set_index : Value → ℕ → Value → Result Value
set_index (list xs) i v = if ltb i (size xs) then ok (list (assign xs i v)) else throw out_of_range
set_index _ i v = throw bad_variant_access

unfoldable pub add : Value → Value → Result Value
add (list xs) v = ok (list (push_back xs v))
add _ v = throw bad_variant_access

-- `remove` returns the value left behind and whether something was removed.
unfoldable pub remove_key : Value → List ℕ → Result (Value × Bool)
remove_key (dict fs) k = ok (dict (erase k fs), found (find k fs))
remove_key _ k = throw bad_variant_access

unfoldable pub remove_index : Value → ℕ → Result (Value × Bool)
remove_index (list xs) i =
    if ltb i (size xs) then ok (list (erase_at xs i), true) else ok (list xs, false)
remove_index _ i = throw bad_variant_access

-- `operator==` of the variant: the alternatives are the same, and their values are.
abbrev int_eq : ℤ → ℤ → Bool
int_eq (pos a) (pos b) = a == b
int_eq (negsuc a) (negsuc b) = a == b
int_eq _ _ = false

unfoldable mutual
  pub value_eq : Value → Value → Bool
  value_eq (string s) (string t) = bytes_eq s t
  value_eq (integer a) (integer b) = int_eq a b
  value_eq (list xs) (list ys) = items_eq xs ys
  value_eq (dict fs) (dict gs) = fields_eq fs gs
  value_eq _ _ = false

  pub items_eq : Items → Items → Bool
  items_eq nil nil = true
  items_eq (item x xs) (item y ys) = value_eq x y && items_eq xs ys
  items_eq _ _ = false

  pub fields_eq : Fields → Fields → Bool
  fields_eq end end = true
  fields_eq (field j v fs) (field k w gs) = bytes_eq j k && (value_eq v w && fields_eq fs gs)
  fields_eq _ _ = false

unfoldable pub value_ne : Value → Value → Bool
unfolding value_eq
value_ne v w = not (value_eq v w)

unfoldable pub from_bytes : List ℕ → Value
from_bytes s = string s

-- The order of a std::map: each key is below all that follow it.
abbrev pub Above : List ℕ → Fields → Type 0
Above k end = Unit
Above k (field j v fs) = (bytes_lt k j ≡ true) × Above k fs

abbrev pub IsSorted : Fields → Type 0
IsSorted end = Unit
IsSorted (field k v fs) = Above k fs × IsSorted fs

-- What the C++ types guarantee of a value: integers fit int64_t, and maps are in order.
abbrev mutual
  pub IsValid : Value → Type 0
  IsValid (string s) = Unit
  IsValid (integer z) = IsInt64 z
  IsValid (list xs) = AllValid xs
  IsValid (dict fs) = IsSorted fs × FieldsValid fs

  pub AllValid : Items → Type 0
  AllValid nil = Unit
  AllValid (item x xs) = IsValid x × AllValid xs

  pub FieldsValid : Fields → Type 0
  FieldsValid end = Unit
  FieldsValid (field k v fs) = IsValid v × FieldsValid fs
