-- ===== src/Std.antt =====
-- What the program uses of the standard library on texts: `std::stoi` and `std::to_string`.
use Prim.Native.Char.{Char, code}
use Prim.Native.String.{[], ◌∷◌}
use clyman.Prelude.{
  ℕ, zero, suc, ◌+◌, ◌-◌, ◌*◌, ◌/◌, ◌%◌, ◌^◌, String, ℤ, pos, negsuc, Bool, false, ◌&&◌, ◌||◌, ltb,
  leb, ◌==◌, nat_eq, if◌then◌else◌, ◌≢◌, arith,
}
use clyman.Outcome.{Outcome, ok, throw, crash}

is_space : ℕ → Bool
is_space c = c == 32 || leb 9 c && leb c 13

is_digit : ℕ → Bool
is_digit c = leb b'0' c && leb c b'9'

skip_spaces : String → String
skip_spaces [] = []
skip_spaces (c ∷ s) = let rest = skip_spaces s in if is_space (code c) then rest else c ∷ s

-- The value of the digits at the front.
digits : ℕ → String → ℕ
digits n [] = n
digits n (c ∷ s) =
    let rest = digits (n * 10 + (code c - b'0')) s in if is_digit (code c) then rest else n

starts_digit : String → Bool
starts_digit [] = false
starts_digit (c ∷ s) = is_digit (code c)

-- `int` has 32 bits; both exceptions say "stoi".
positive : String → Outcome ℤ
positive s =
    if starts_digit s
    then (if ltb (digits 0 s) (2 ^ 31) then ok (pos (digits 0 s)) else throw "stoi")
    else throw "stoi"

minus : ℕ → ℤ
minus zero = pos zero
minus (suc n) = negsuc n

negative : String → Outcome ℤ
negative s =
    if starts_digit s
    then (if leb (digits 0 s) (2 ^ 31) then ok (minus (digits 0 s)) else throw "stoi")
    else throw "stoi"

signed : String → Outcome ℤ
unfolding positive negative
signed [] = throw "stoi"
signed (c ∷ s) =
    if code c == b'-' then negative s else if code c == b'+' then positive s else positive (c ∷ s)

unfoldable pub stoi : String → Outcome ℤ
unfolding is_space is_digit skip_spaces digits starts_digit positive minus negative signed
stoi s = signed (skip_spaces s)

signed-total : (s : String) → signed s ≢ crash
unfolding signed
signed-total [] h = ground arith
signed-total (c ∷ s) h = ground arith

-- No text makes `std::stoi` undefined.
pub stoi-total : (s : String) → stoi s ≢ crash
unfolding stoi
stoi-total s = signed-total (skip_spaces s)

digit : ℕ → Char
digit n =
    if n == 0
    then "0"
    else if n == 1
    then "1"
    else if n == 2
    then "2"
    else if n == 3
    then "3"
    else if n == 4
    then "4"
    else if n == 5
    then "5"
    else if n == 6
    then "6"
    else if n == 7
    then "7"
    else if n == 8
    then "8"
    else "9"

-- The digits of `n` before `out`. A number has fewer digits than its successor, so that is fuel.
show_onto : ℕ → ℕ → String → String
show_onto zero n out = out
show_onto (suc fuel) n out =
    let more = show_onto fuel (n / 10) (digit (n % 10) ∷ out) in
    if ltb n 10 then digit n ∷ out else more

show_nat : ℕ → String
show_nat n = show_onto (suc n) n []

unfoldable pub to_string : ℤ → String
unfolding digit show_onto show_nat
to_string (pos n) = show_nat n
to_string (negsuc n) = "-" ∷ show_nat (suc n)
