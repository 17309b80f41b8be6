-- ===== src/Units.antt =====
-- pkg/util.go: `ToWei` and `ToDecimal`, over the decimal library.
use party_bridge.Base.{String, Option, some}
use party_bridge.Base.Int.{ℤ, pos}
use party_bridge.Platform.{Platform}

-- What `iamount interface{}` may hold; `pointer` is one that is not nil.
pub data Number (p : Platform) : Type 0 where
  text : String → Number p
  float64 : p.Float → Number p
  int64 : ℤ → Number p
  int : ℤ → Number p
  decimal : p.Decimal → Number p
  pointer : p.Decimal → Number p
  other : Number p

-- the `switch` on the type
unfoldable pub decimal_of : (p : Platform) → Number p → p.Decimal
decimal_of p (text v) = p.decimal_of_string v
decimal_of p (float64 v) = p.decimal_of_float v
decimal_of p (int64 v) = p.decimal_of_float (p.float_of_int v)
decimal_of p (int v) = p.decimal_of_float (p.float_of_int v)
decimal_of p (decimal v) = v
decimal_of p (pointer v) = v
decimal_of p other = p.decimal_of_float (p.float_of_int (pos 0))

-- `decimal.NewFromFloat(10).Pow(decimal.NewFromFloat(decimals))`
unfoldable pub power_of_ten : (p : Platform) → ℤ → p.Decimal
power_of_ten p decimals =
    p.decimal_pow (p.decimal_of_float (p.float_of_int (pos 10)))
      (p.decimal_of_float (p.float_of_int decimals))

unfoldable pub to_wei : (p : Platform) → Number p → ℤ → ℤ
unfolding decimal_of power_of_ten
to_wei p v decimals =
    p.set_string (p.decimal_string (p.decimal_mul (decimal_of p v) (power_of_ten p decimals)))

-- What `ivalue interface{}` may hold.
pub data Value : Type 0 where
  text_value : String → Value
  big_value : Option ℤ → Value
  other_value : Value

-- the `switch` on the type
unfoldable pub big_of : Platform → Value → Option ℤ
big_of p (text_value v) = some (p.set_string v)
big_of p (big_value v) = v
big_of p other_value = some (pos 0)

unfoldable pub to_decimal : (p : Platform) → Value → ℤ → p.Decimal
unfolding big_of power_of_ten
to_decimal p v decimals =
    p.decimal_div (p.decimal_of_string (p.big_string (big_of p v))) (power_of_ten p decimals)
