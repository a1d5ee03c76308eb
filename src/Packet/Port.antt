-- ===== src/Packet/Port.antt =====
-- The port of an endpoint, read rune by rune with an early exit.
use tadori.Base.{
  ℕ, ◌+◌, ◌-◌, ◌*◌, ◌<◌, ◌≤◌, ◌≡◌, refl, Bool, true, false, ◌&&◌, ◌||◌, none, some, List, [], ◌∷◌,
  ltb, leb, arith, inl, inr, Bool-cases, if◌then◌else◌,
}
use tadori.Packet.Address.{read_port}

-- Whether all runes are digits, and the decimal number behind a value that they stand for.
abbrev pub all_digits : List ℕ → Bool
all_digits [] = true
all_digits (c ∷ cs) = (leb 48 c && leb c 57) && all_digits cs

abbrev pub decimal_value : ℕ → List ℕ → ℕ
decimal_value value [] = value
decimal_value value (c ∷ cs) = decimal_value (value * 10 + (c - 48)) cs

decimal_value_grows : (value : ℕ) (cs : List ℕ) → value ≤ decimal_value value cs
decimal_value_grows value [] = omega arith
decimal_value_grows value (c ∷ cs) =
    let next = decimal_value_grows (value * 10 + (c - 48)) cs in omega (arith, next)

-- Reading the runes of a port behind a value below 65536, with its exit at the first rune that is
-- no digit or the first value above 65535, gives the decimal number of all runes if they are all
-- digits and the number is at most 65535, and nothing otherwise.
pub read_port_lem :
    (value : ℕ) (cs : List ℕ)
    → value < 65536
    → read_port value cs ≡ (
        if all_digits cs && leb (decimal_value value cs) 65535
        then some (decimal_value value cs)
        else none)
unfolding read_port
read_port_lem value [] small =
    let fits : leb value 65535 ≡ true = ground (arith, small) in rw fits refl
read_port_lem value (c ∷ cs) small =
    let next = value * 10 + (c - 48) in
    let grows = decimal_value_grows next cs in
    elim (Bool-cases (ltb c 48 || ltb 57 c)) [
      | inl other ↦
          let not_digit : (leb 48 c && leb c 57) ≡ false = ground (arith, other) in
          rw (other, not_digit) refl
      | inr digit ↦
          let is_digit : (leb 48 c && leb c 57) ≡ true = ground (arith, digit) in
          elim (Bool-cases (ltb 65535 next)) [
            | inl large ↦
                let over : leb (decimal_value next cs) 65535 ≡ false =
                  ground (arith, large, grows) in
                elim (Bool-cases (all_digits cs)) [
                  | inl rest ↦ rw (digit, is_digit, large, rest, over) refl
                  | inr rest ↦ rw (digit, is_digit, large, rest) refl
                ]
            | inr fits ↦ rw (digit, is_digit, fits) (read_port_lem next cs (ground (arith, fits)))
          ]
    ]
