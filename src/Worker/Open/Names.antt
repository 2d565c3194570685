-- ===== src/Worker/Open/Names.antt =====
-- worker.rs: the name that `allocate_handle` gives to a number, which no other number has.
pub mod Inherited
pub mod Unused
use Prim.Native.Nat.{◌/◌, ◌%◌}
use Prim.Native.Char.{code as char_code}
use text.Mathlib.TextLemmas.{append_cancel_left}
use native.Mathlib.Nat.{div-div-eq-div-mul, mod-eq-sub-div-mul, div-mul-le_self, pow-suc}
use pg_mcp.Prelude.{
  ℕ, zero, suc, String, Bool, true, false, ltb, ◌==◌, ◌+◌, ◌-◌, ◌*◌, ◌^◌, ◌<◌, if◌then◌else◌, ◌≡◌,
  refl, ap, sym, ◌∙◌, arith, Bool-cases, inl, inr,
}
use pg_mcp.Worker.Open.{prepend_digit, hex, handle_name}

abbrev digits_in : String → ℕ
digits_in String.[] = 0
digits_in (String.◌∷◌ c s) = suc (digits_in s)

abbrev head_code : String → ℕ
head_code String.[] = 0
head_code (String.◌∷◌ c s) = char_code c

abbrev tail_of : String → String
tail_of String.[] = ""
tail_of (String.◌∷◌ c s) = s

prepend_digit-tail :
    (digits : String) (n : ℕ) (rest : String)
    → n < digits_in digits
    → tail_of (prepend_digit n digits rest) ≡ rest
prepend_digit-tail String.[] n rest h = absurd (omega arith)
prepend_digit-tail (String.◌∷◌ c digits) n rest h = elim (Bool-cases (n == 0)) [
  | inl first ↦ rw first
  | inr later ↦ rw later (prepend_digit-tail digits (n - 1) rest (ground arith))
]

prepend_digit-head :
    (digits : String) (n : ℕ) (rest : String)
    → n < digits_in digits
    → head_code (prepend_digit n digits rest) ≡ head_code (prepend_digit n digits "")
prepend_digit-head String.[] n rest h = absurd (omega arith)
prepend_digit-head (String.◌∷◌ c digits) n rest h = elim (Bool-cases (n == 0)) [
  | inl first ↦ rw first
  | inr later ↦ rw later (prepend_digit-head digits (n - 1) rest (ground arith))
]

abbrev hex_digits : String
hex_digits = "0123456789abcdef"

abbrev digit_value : ℕ → ℕ
digit_value c = if ltb c 58 then c - 48 else c - 87

abbrev digit : ℕ → ℕ
digit n = digit_value (head_code (prepend_digit n hex_digits ""))

-- A test that every number under a bound passes.
passed_under : (ℕ → Bool) → ℕ → Bool
passed_under test zero = true
passed_under test (suc bound) = if test bound then passed_under test bound else false

passed_under_lem :
    (test : ℕ → Bool) (bound k : ℕ) → k < bound → passed_under test bound ≡ true → test k ≡ true
unfolding passed_under
passed_under_lem test zero k lower h = absurd (omega arith)
passed_under_lem test (suc bound) k lower h = ground (arith, passed_under_lem test bound k)

digits_read : passed_under (λ n. digit n == n) 16 ≡ true
unfolding passed_under
digits_read = refl

digit_lem : (n : ℕ) → n < 16 → digit n ≡ n
digit_lem n h = ground (arith, passed_under_lem (λ (m : ℕ). digit m == m) 16 n h digits_read)

-- The first digit of a number, and the others.
hex-head : (k n : ℕ) → digit_value (head_code (hex (suc k) n)) ≡ (n / 16 ^ k) % 16
hex-head k n =
    ap digit_value (prepend_digit-head hex_digits ((n / 16 ^ k) % 16) (hex k n) (omega arith))
    ∙ digit_lem ((n / 16 ^ k) % 16) (omega arith)

hex-tail : (k n : ℕ) → tail_of (hex (suc k) n) ≡ hex k n
hex-tail k n = prepend_digit-tail hex_digits ((n / 16 ^ k) % 16) (hex k n) (omega arith)

mod_step : (n p : ℕ) → n % (p * 16) ≡ ((n / p) % 16) * p + n % p
mod_step n p =
    let upper = ap (λ t. t * p) {x = n / p} {y = n / p / 16 * 16 + (n / p) % 16} (omega arith) in
    grind (
      arith,
      div-div-eq-div-mul n p 16,
      mod-eq-sub-div-mul n (p * 16),
      mod-eq-sub-div-mul n p,
      div-mul-le_self n p,
      upper,
    )

hex_injective : (k n m : ℕ) → hex k n ≡ hex k m → n % 16 ^ k ≡ m % 16 ^ k
hex_injective zero n m h = omega arith
hex_injective (suc k) n m h =
    let digits : (n / 16 ^ k) % 16 ≡ (m / 16 ^ k) % 16 =
      sym (hex-head k n) ∙ ap (λ s. digit_value (head_code s)) h ∙ hex-head k m in
    let rest : n % 16 ^ k ≡ m % 16 ^ k =
      hex_injective k n m (sym (hex-tail k n) ∙ ap tail_of h ∙ hex-tail k m) in
    rw (pow-suc 16 k)
      (omega (arith, mod_step n (16 ^ k), mod_step m (16 ^ k), ap (λ t. t * 16 ^ k) digits, rest))

pub handle_name_injective :
    (n m : ℕ) → n < 2 ^ 64 → m < 2 ^ 64 → handle_name n ≡ handle_name m → n ≡ m
unfolding handle_name
handle_name_injective n m small small' h =
    let same = hex_injective 16 n m (append_cancel_left "h-" (hex 16 n) (hex 16 m) h) in
    omega (arith, same)
