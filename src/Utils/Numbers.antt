-- ===== src/Utils/Numbers.antt =====
-- `int2string` and `string2int` of cpp/include/Utils.h, there and back.
use codis_client.Prelude.{
  ℕ, zero, suc, ◌+◌, ◌/◌, ◌%◌, ◌^◌, ◌≤◌, ◌<◌, ◌≡◌, ◌∙◌, ap, [], ◌∷◌, arith, ℤ, pos, negsuc, IsInt,
  to_int, to_int_id, Bytes,
}
use codis_client.Utils.{
  decimal_loop, decimal, int2string, read_digits, skip_spaces, read_signed, string2int,
}

-- A text that begins with a digit.
abbrev StartsDigit : Bytes → Type 0
StartsDigit [] = ⊥
StartsDigit (c ∷ s) = (b'0' ≤ c) × (c ≤ b'9')

decimal_loop-StartsDigit : (f n : ℕ) (acc : Bytes) → n < f → StartsDigit (decimal_loop f n acc)
unfolding decimal_loop
decimal_loop-StartsDigit zero n acc h = elim h [ ]
decimal_loop-StartsDigit (suc f) n acc h =
    ground (arith, decimal_loop-StartsDigit f (n / 10) ((b'0' + n % 10) ∷ acc))

read_digits-decimal_loop :
    (f n : ℕ) (acc : Bytes) → n < f → read_digits (decimal_loop f n acc) 0 ≡ read_digits acc n
unfolding decimal_loop read_digits
read_digits-decimal_loop zero n acc h = elim h [ ]
read_digits-decimal_loop (suc f) n acc h =
    ground (arith, read_digits-decimal_loop f (n / 10) ((b'0' + n % 10) ∷ acc))

read_digits-decimal : (n : ℕ) → read_digits (decimal n) 0 ≡ n
unfolding decimal read_digits
read_digits-decimal n = read_digits-decimal_loop (suc n) n [] (omega arith)

decimal-StartsDigit : (n : ℕ) → StartsDigit (decimal n)
unfolding decimal
decimal-StartsDigit n = decimal_loop-StartsDigit (suc n) n [] (omega arith)

read_unsigned :
    (s : Bytes)
    → StartsDigit s
    → read_digits s 0 < 2 ^ 63
    → read_signed (skip_spaces s) ≡ pos (read_digits s 0)
unfolding skip_spaces read_signed
read_unsigned [] h b = absurd h
read_unsigned (c ∷ s) h b = ground arith

read_negative :
    (s : Bytes) (n : ℕ)
    → read_digits s 0 ≡ suc n
    → n < 2 ^ 63
    → read_signed (skip_spaces (b'-' ∷ s)) ≡ negsuc n
unfolding skip_spaces read_signed
read_negative s n e b = ground arith

-- Reading back the text that `int2string` makes of an `int` gives that `int`.
pub string2int-int2string : (i : ℤ) → IsInt i → string2int (int2string i) ≡ i
unfolding string2int int2string
string2int-int2string (pos n) h =
    ap to_int (
      read_unsigned (decimal n) (decimal-StartsDigit n) (omega (arith, read_digits-decimal n))
      ∙ ap pos (read_digits-decimal n))
    ∙ to_int_id (pos n) h
string2int-int2string (negsuc n) h =
    ap to_int (read_negative (decimal (suc n)) n (read_digits-decimal (suc n)) (omega arith))
    ∙ to_int_id (negsuc n) h
