-- ===== src/Common/Decimal.antt =====
-- Python's `str` of a natural number and `int` of a text of decimal digits. Of the other spellings
-- that `int` takes (signs, spaces and underscores), the program writes none.
use Prim.Native.Nat.{ℕ, zero, suc, ◌+◌, ◌-◌, ◌*◌, ◌/◌, ◌%◌, ◌≤◌, ◌<◌}
use Prim.Native.Char.{Char, code}
use Prim.Native.String.{String}
use mathlib.Core.Path.{◌≡◌, refl}
use mathlib.Core.Bool.{false, ◌&&◌}
use mathlib.Core.Option.{Option, none, some}
use native.Mathlib.Omega.{arith}
use fastapitemplate.Common.Booleans.{leb, if◌then◌else◌}
use fastapitemplate.Common.Equality.{◌==◌, nat_eq}
use fastapitemplate.Common.Text.{is_empty}

unfoldable digit : ℕ → Char
digit zero = "0"
digit (suc zero) = "1"
digit (suc (suc zero)) = "2"
digit (suc (suc (suc zero))) = "3"
digit (suc (suc (suc (suc zero)))) = "4"
digit (suc (suc (suc (suc (suc zero))))) = "5"
digit (suc (suc (suc (suc (suc (suc zero)))))) = "6"
digit (suc (suc (suc (suc (suc (suc (suc zero))))))) = "7"
digit (suc (suc (suc (suc (suc (suc (suc (suc zero)))))))) = "8"
digit _ = "9"

-- The digits of `n` in front of `out`; a number has at most as many digits as its value.
unfoldable digits : (fuel n : ℕ) → String → String
unfolding digit
digits zero n out = out
digits (suc fuel) n out =
    let rest = digits fuel (n / 10) (String.◌∷◌ (digit (n % 10)) out) in
    if n == 0 then out else rest

-- `str(n)`
unfoldable pub str : ℕ → String
unfolding digits
str n = if n == 0 then "0" else digits n n ""

unfoldable scan : String → ℕ → Option ℕ
scan String.[] n = some n
scan (String.◌∷◌ c s) n =
    let rest = scan s (n * 10 + (code c - 48)) in
    if leb 48 (code c) && leb (code c) 57 then rest else none

-- `int(s)`, where `none` is its `ValueError`.
unfoldable pub int : String → Option ℕ
unfolding scan
int s = if is_empty s then none else scan s 0

code-digit : (d : ℕ) → d < 10 → code (digit d) ≡ 48 + d
unfolding digit
code-digit zero h = refl
code-digit (suc zero) h = refl
code-digit (suc (suc zero)) h = refl
code-digit (suc (suc (suc zero))) h = refl
code-digit (suc (suc (suc (suc zero)))) h = refl
code-digit (suc (suc (suc (suc (suc zero))))) h = refl
code-digit (suc (suc (suc (suc (suc (suc zero)))))) h = refl
code-digit (suc (suc (suc (suc (suc (suc (suc zero))))))) h = refl
code-digit (suc (suc (suc (suc (suc (suc (suc (suc zero)))))))) h = refl
code-digit (suc (suc (suc (suc (suc (suc (suc (suc (suc zero))))))))) h = refl
code-digit (suc (suc (suc (suc (suc (suc (suc (suc (suc (suc d)))))))))) h = absurd (omega arith)

scan-digits : (fuel n : ℕ) (out : String) → n ≤ fuel → scan (digits fuel n out) 0 ≡ scan out n
unfolding digits scan
scan-digits zero zero out h = refl
scan-digits zero (suc n) out h = absurd (omega arith)
scan-digits (suc fuel) n out h =
    ground (arith, scan-digits fuel (n / 10) (String.◌∷◌ (digit (n % 10)) out), code-digit (n % 10))

digits-not_empty :
    (fuel n : ℕ) (c : Char) (out : String) → is_empty (digits fuel n (String.◌∷◌ c out)) ≡ false
unfolding digits
digits-not_empty zero n c out = refl
digits-not_empty (suc fuel) n c out =
    ground (arith, digits-not_empty fuel (n / 10) (digit (n % 10)) (String.◌∷◌ c out))

-- The text of a number is read back as that number.
pub int-str : (n : ℕ) → int (str n) ≡ some n
unfolding int str
int-str zero = refl
int-str (suc n) =
    ground (
      arith,
      scan-digits (suc n) (suc n) "",
      digits-not_empty n (suc n / 10) (digit (suc n % 10)) "",
    )

str-42 : str 42 ≡ "42"
unfolding str
str-42 = refl
