-- ===== src/Utils.antt =====
-- cpp/include/Utils.h: the conversions between `int` and text, and `split`. `atoi` is that of the
-- C library: `strtol`, which saturates at the range of `long`, stored into an `int`.
pub mod Numbers
pub mod Split
pub mod Clock
use codis_client.Prelude.{
  ℕ, zero, suc, ◌+◌, ◌-◌, ◌*◌, ◌/◌, ◌%◌, ◌^◌, Bool, ◌&&◌, ◌||◌, List, [], ◌∷◌, ◌++◌, ltb, leb, ◌==◌,
  if◌then◌else◌, ℤ, pos, negsuc, neg_ℕ, to_int, Bytes,
}

-- The digits of `n` in front of `acc`; a fuel above `n` is enough.
unfoldable pub decimal_loop : ℕ → ℕ → Bytes → Bytes
decimal_loop zero n acc = acc
decimal_loop (suc f) n acc =
    let rest = decimal_loop f (n / 10) ((b'0' + n % 10) ∷ acc) in
    if ltb n 10 then (b'0' + n) ∷ acc else rest

unfoldable pub decimal : ℕ → Bytes
unfolding decimal_loop
decimal n = decimal_loop (suc n) n []

-- `stream << i`.
unfoldable pub int2string : ℤ → Bytes
unfolding decimal
int2string (pos n) = decimal n
int2string (negsuc n) = b'-' ∷ decimal (suc n)

abbrev pub is_space : ℕ → Bool
is_space c = (c == 32) || (leb 9 c && leb c 13)

abbrev pub is_digit : ℕ → Bool
is_digit c = leb b'0' c && leb c b'9'

unfoldable pub skip_spaces : Bytes → Bytes
skip_spaces [] = []
skip_spaces (c ∷ s) = let rest = skip_spaces s in if is_space c then rest else c ∷ s

-- The number that the leading digits stand for, read behind those that make `n`.
unfoldable pub read_digits : Bytes → ℕ → ℕ
read_digits [] n = n
read_digits (c ∷ s) n =
    let rest = read_digits s (n * 10 + (c - b'0')) in if is_digit c then rest else n

abbrev pub at_most : ℕ → ℕ → ℕ
at_most m n = if ltb m n then m else n

unfoldable pub read_signed : Bytes → ℤ
unfolding read_digits
read_signed [] = pos 0
read_signed (c ∷ s) =
    if c == b'-'
    then neg_ℕ (at_most (2 ^ 63) (read_digits s 0))
    else pos (at_most (2 ^ 63 - 1) (read_digits (if c == b'+' then s else c ∷ s) 0))

-- `string2int` is `atoi`.
unfoldable pub string2int : Bytes → ℤ
unfolding skip_spaces read_signed
string2int s = to_int (read_signed (skip_spaces s))

-- The rounds of `while (getline(ss, item, delim))`, `item` being what the present round has read.
-- A round that meets the end of the stream before it has read anything ends the loop.
unfoldable pub split_rounds : ℕ → Bytes → Bytes → List Bytes
split_rounds delim [] [] = []
split_rounds delim [] (x ∷ xs) = (x ∷ xs) ∷ []
split_rounds delim (c ∷ s) item =
    let next = split_rounds delim s [] in
    let more = split_rounds delim s (item ++ c ∷ []) in if c == delim then item ∷ next else more

unfoldable pub split : Bytes → ℕ → List Bytes
unfolding split_rounds
split s delim = split_rounds delim s []
