-- ===== src/Js/Number.antt =====
-- JavaScript numbers: the 64 bits of a double, sign and exponent and fraction. Comparisons and the
-- tests for finiteness and zero are read off the bits; arithmetic, which rounds, is the engine's
-- (`Engine` of Js.Value).
use nemoir_web_runtime.Prelude.{
  ℕ, ◌≡◌, arith, ◌*◌, ◌/◌, ◌%◌, ◌^◌, Bool, true, false, not, ◌&&◌, ◌||◌, eqb, ltb, if◌then◌else◌,
}

abbrev pub Double : Type 0
Double = ℕ

-- The bits without the sign; among numbers that are not NaN they order the absolute values.
unfoldable pub magnitude : Double → ℕ
magnitude b = b % 2 ^ 63

unfoldable pub is_negative : Double → Bool
is_negative b = not (eqb (b / 2 ^ 63 % 2) 0)

abbrev infinity_bits : ℕ
infinity_bits = 2047 * 2 ^ 52

-- `Number.isFinite`
unfoldable pub is_finite : Double → Bool
unfolding magnitude
is_finite b = ltb (magnitude b) infinity_bits

unfoldable pub is_nan : Double → Bool
unfolding magnitude
is_nan b = ltb infinity_bits (magnitude b)

-- `x === 0`, which both zeros satisfy
unfoldable pub is_zero : Double → Bool
unfolding magnitude
is_zero b = eqb (magnitude b) 0

-- The order of numbers that are not NaN by sign and magnitude; the two zeros are equal.
unfoldable pub ordered_lt : Bool → ℕ → Bool → ℕ → Bool
ordered_lt neg_a mag_a neg_b mag_b =
    if eqb mag_a 0 && eqb mag_b 0
    then false
    else if neg_a
    then (if neg_b then ltb mag_b mag_a else true)
    else (if neg_b then false else ltb mag_a mag_b)

-- `a < b`
unfoldable pub number_lt : Double → Double → Bool
number_lt a b =
    if is_nan a || is_nan b
    then false
    else ordered_lt (is_negative a) (magnitude a) (is_negative b) (magnitude b)

-- `a === b`
unfoldable pub number_eq : Double → Double → Bool
unfolding magnitude is_negative is_nan is_zero
number_eq a b =
    not (is_nan a || is_nan b)
    && ((is_zero a && is_zero b)
        || (eqb (magnitude a) (magnitude b) && eqb (a / 2 ^ 63 % 2) (b / 2 ^ 63 % 2)))

-- `a <= b` is false at NaN, and the negation of `b < a` elsewhere.
unfoldable pub number_le : Double → Double → Bool
unfolding is_nan number_lt
number_le a b = not (is_nan a || is_nan b) && not (number_lt b a)

ordered_lt-asymm :
    (na nb : Bool) (ma mb : ℕ) → ordered_lt na ma nb mb ≡ true → ordered_lt nb mb na ma ≡ false
unfolding ordered_lt
ordered_lt-asymm na nb ma mb h = ground arith

ordered_lt-neg_trans :
    (na nb nc : Bool) (ma mb mc : ℕ)
    → ordered_lt na ma nb mb ≡ false
    → ordered_lt nb mb nc mc ≡ false
    → ordered_lt na ma nc mc ≡ false
unfolding ordered_lt
ordered_lt-neg_trans na nb nc ma mb mc h k = ground arith

pub number_lt-asymm : (a b : Double) → number_lt a b ≡ true → number_lt b a ≡ false
unfolding number_lt
number_lt-asymm a b h =
    ground (arith, ordered_lt-asymm (is_negative a) (is_negative b) (magnitude a) (magnitude b))

-- `a` is not less than `b` nor `b` than `c`, so `a` is not less than `c`: but for NaN in the middle.
pub number_lt-neg_trans :
    (a b c : Double)
    → is_nan b ≡ false
    → number_lt a b ≡ false
    → number_lt b c ≡ false
    → number_lt a c ≡ false
unfolding number_lt
number_lt-neg_trans a b c n h k = ground (
  arith,
  ordered_lt-neg_trans (is_negative a) (is_negative b) (is_negative c) (magnitude a) (magnitude b)
      (magnitude c),
)
