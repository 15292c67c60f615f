-- ===== src/Types/Tests.antt =====
-- Runs of the identifier functions, and instances of their theorems.
use dht_hunter.Base.{◌≡◌, ◌↔◌, refl, false, [], ◌∷◌, replicate, ok, throw, invalid_argument, arith}
use dht_hunter.Base.Text.{codes, is_digit_of, digit_value, stos}
use dht_hunter.Types.NodeId.{NodeId, IsNodeId, distance, hex_bytes, to_uint8}
use dht_hunter.Types.NodeId.Distance.{distance_metric}

abbrev zeros : NodeId
zeros = replicate 20 0

abbrev ones : NodeId
ones = replicate 20 255

abbrev mixed : NodeId
mixed = 0x1f ∷ 0xa0 ∷ replicate 18 7

-- The pair " -" has no digits, the pair "-1" is the byte 255.
minus_one : hex_bytes (codes "-1") ≡ ok (255 ∷ [])
unfolding hex_bytes stos to_uint8
minus_one = refl

no_digits : hex_bytes (codes " -") ≡ throw invalid_argument
unfolding hex_bytes stos
no_digits = refl

distance_metric_example :
    IsNodeId (distance mixed ones)
    × (distance mixed ones ≡ distance ones mixed)
    × ((distance mixed ones ≡ replicate 20 0) ↔ (mixed ≡ ones))
    × (distance mixed zeros ≡ distance (distance mixed ones) (distance ones zeros))
    × (distance mixed zeros ≡ distance ones zeros → mixed ≡ ones)
distance_metric_example = distance_metric mixed ones zeros (omega arith) (omega arith) (omega arith)

not_hex : is_digit_of 16 b'g' ≡ false
unfolding is_digit_of digit_value
not_hex = refl
