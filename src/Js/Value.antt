-- ===== src/Js/Value.antt =====
-- The type `unknown` of the program: JavaScript values, and the operations of the language on them.
use nemoir_web_runtime.Prelude.{
  ℕ, ◌+◌, ◌*◌, ◌^◌, Bool, true, false, not, ◌||◌, List, [], ◌∷◌, ◌++◌, eqb, if◌then◌else◌,
}
use nemoir_web_runtime.Errors.{Result, ok, err, ◌>>=◌, other_error}
use nemoir_web_runtime.Js.Text.{JsString, codes, ◌==◌, string_lt}
use nemoir_web_runtime.Js.Number.{Double, is_nan, is_zero, number_lt, number_le, number_eq}

-- Arrays and objects carry the identity by which `===` and a `WeakSet` tell them apart. `obj` is an
-- object whose tag is `[object Object]`, `host` an object of another tag (Date, Map), `fn` a function
-- or a symbol.
mutual
  pub data Value : Type 0 where
    undefined null : Value
    bool : Bool → Value
    num : Double → Value
    str : JsString → Value
    arr : ℕ → Items → Value
    obj : ℕ → Fields → Value
    host : ℕ → Fields → Value
    fn : ℕ → Value

  pub data Items : Type 0 where
    nil : Items
    cons : Value → Items → Items

  pub data Fields : Type 0 where
    end : Fields
    field : JsString → Value → Fields → Fields

-- `v === null || v === undefined`
abbrev pub is_nullish : Value → Bool
is_nullish undefined = true
is_nullish null = true
is_nullish _ = false

-- `typeof v === "number"`
abbrev pub is_number : Value → Bool
is_number (num n) = true
is_number _ = false

-- `Boolean(v)`
unfoldable pub to_boolean : Value → Bool
to_boolean undefined = false
to_boolean null = false
to_boolean (bool b) = b
to_boolean (num n) = not (is_nan n || is_zero n)
to_boolean (str []) = false
to_boolean (str (c ∷ s)) = true
to_boolean _ = true

-- `a === b`
unfoldable pub strict_eq : Value → Value → Bool
strict_eq undefined undefined = true
strict_eq null null = true
strict_eq (bool true) (bool b) = b
strict_eq (bool false) (bool b) = not b
strict_eq (num a) (num b) = number_eq a b
strict_eq (str s) (str t) = s == t
strict_eq (arr i xs) (arr j ys) = eqb i j
strict_eq (obj i xs) (obj j ys) = eqb i j
strict_eq (host i xs) (host j ys) = eqb i j
strict_eq (fn i) (fn j) = eqb i j
strict_eq _ _ = false

unfoldable pub items : Items → List Value
items nil = []
items (cons v vs) = v ∷ items vs

unfoldable pub fields : Fields → List (JsString × Value)
fields end = []
fields (field k v fs) = (k, v) ∷ fields fs

pub data Hint : Type 0 where
  number_hint default_hint : Hint

-- What the engine does that the model leaves open: rounding arithmetic, the conversions between
-- numbers and their texts, and the conversion of an array, an object, a function or a symbol to a
-- primitive, which may throw: a `TypeError` where `toString` and `valueOf` give none, and what they
-- throw themselves. A symbol is its own primitive.
pub record Engine : Type 0 where
  pub add : Double → Double → Double
  pub sub : Double → Double → Double
  pub mul : Double → Double → Double
  pub div : Double → Double → Double
  pub string_to_number : JsString → Double
  pub number_to_string : Double → JsString
  pub object_to_primitive : Hint → Value → Result Value

abbrev nan_bits : Double
nan_bits = 2047 * 2 ^ 52 + 2 ^ 51

abbrev one_bits : Double
one_bits = 1023 * 2 ^ 52

module _ (e : Engine) where
  unfoldable pub to_primitive : Hint → Value → Result Value
  to_primitive hint (arr i xs) = e.object_to_primitive hint (arr i xs)
  to_primitive hint (obj i fs) = e.object_to_primitive hint (obj i fs)
  to_primitive hint (host i fs) = e.object_to_primitive hint (host i fs)
  to_primitive hint (fn i) = e.object_to_primitive hint (fn i)
  to_primitive hint v = ok v

  -- `Number(v)` of a primitive; it is a `TypeError` on a symbol
  unfoldable pub to_number : Value → Result Double
  to_number undefined = ok nan_bits
  to_number null = ok 0
  to_number (bool b) = ok (if b then one_bits else 0)
  to_number (num n) = ok n
  to_number (str s) = ok (e.string_to_number s)
  to_number _ = err other_error

  -- The text of a primitive in a concatenation; it is a `TypeError` on a symbol
  unfoldable pub to_text : Value → Result JsString
  to_text undefined = ok (codes "undefined")
  to_text null = ok (codes "null")
  to_text (bool b) = ok (if b then codes "true" else codes "false")
  to_text (num n) = ok (e.number_to_string n)
  to_text (str s) = ok s
  to_text _ = err other_error

  unfoldable pub primitive_lt : Value → Value → Result Bool
  unfolding to_number
  primitive_lt (str s) (str t) = ok (string_lt s t)
  primitive_lt a b = to_number a >>= λ x. to_number b >>= λ y. ok (number_lt x y)

  unfoldable pub primitive_le : Value → Value → Result Bool
  unfolding to_number
  primitive_le (str s) (str t) = ok (not (string_lt t s))
  primitive_le a b = to_number a >>= λ x. to_number b >>= λ y. ok (number_le x y)

  -- A relation on the primitives of two operands, of which the left one is converted first.
  unfoldable pub related : (Value → Value → Result Bool) → Value → Value → Result Bool
  unfolding to_primitive
  related relation a b =
      to_primitive number_hint a >>= λ p. to_primitive number_hint b >>= λ q. relation p q

  unfoldable pub primitive_plus : Value → Value → Result Value
  unfolding to_number to_text
  primitive_plus (str s) b = to_text b >>= λ t. ok (str (s ++ t))
  primitive_plus a (str t) = to_text a >>= λ s. ok (str (s ++ t))
  primitive_plus a b = to_number a >>= λ x. to_number b >>= λ y. ok (num (e.add x y))

  -- `a + b`: a concatenation where an operand is a string
  unfoldable pub plus : Value → Value → Result Value
  unfolding primitive_plus to_primitive
  plus a b =
      to_primitive default_hint a >>= λ p. to_primitive default_hint b >>= λ q. primitive_plus p q

  unfoldable pub to_numeric : Value → Result Double
  unfolding to_primitive to_number
  to_numeric v = to_primitive number_hint v >>= λ p. to_number p

  unfoldable pub arithmetic : (Double → Double → Double) → Value → Value → Result Value
  unfolding to_numeric
  arithmetic op a b = to_numeric a >>= λ x. to_numeric b >>= λ y. ok (num (op x y))
