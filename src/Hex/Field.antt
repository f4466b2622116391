-- ===== src/Hex/Field.antt =====
-- The header fields of crates/elusive/src/newc.rs: the digits that a number is written with.
use elusive.Base.{
  ℕ, zero, suc, ◌+◌, ◌-◌, ◌*◌, ◌/◌, ◌%◌, ◌^◌, ◌<◌, ◌≤◌, ◌≡◌, ◌≢◌, refl, ap, ◌∙◌, sym, Option, none,
  some, [], ◌∷◌, ◌++◌, append_assoc, Bytes, arith, ==_iff, length, length-append, replicate,
}
use native.Mathlib.Nat.{pow-suc}
use native.Mathlib.Decide.{ℕ_discrete}
use elusive.Hex.{hex_digit, lower_hex, format_08x, hex_value, shift_in, read_hex}

-- The last `k` hexadecimal digits of a number, zeros included.
unfoldable pub digits : ℕ → ℕ → Bytes
digits zero n = []
digits (suc k) n = digits k (n / 16) ++ (hex_digit (n % 16) ∷ [])

pub length-digits : (k n : ℕ) → length (digits k n) ≡ k
unfolding digits
length-digits zero n = refl
length-digits (suc k) n =
    omega
      (arith, length-append (digits k (n / 16)) (hex_digit (n % 16) ∷ []), length-digits k (n / 16))

replicate_snoc : (k a : ℕ) → replicate (suc k) a ≡ replicate k a ++ (a ∷ [])
replicate_snoc zero a = refl
replicate_snoc (suc k) a = ap (λ xs. a ∷ xs) (replicate_snoc k a)

digits_zero : (k : ℕ) → digits k 0 ≡ replicate k b'0'
unfolding digits hex_digit
digits_zero zero = refl
digits_zero (suc k) = rw (digits_zero k) (sym (replicate_snoc k b'0'))

sixteenth_lt : (k n : ℕ) → n < 16 ^ suc k → n / 16 < 16 ^ k
sixteenth_lt k n h = omega (arith, pow-suc 16 k)

pow_pos : (k : ℕ) → 0 < 16 ^ k
pow_pos zero = omega arith
pow_pos (suc k) = omega (arith, pow-suc 16 k, pow_pos k)

sixteenth_le : (k n : ℕ) → 16 ^ suc k ≤ n → 16 ^ k ≤ n / 16
sixteenth_le k n h = omega (arith, pow-suc 16 k)

lower_hex_small : (fuel n : ℕ) → n / 16 ≡ 0 → lower_hex (suc fuel) n ≡ hex_digit (n % 16) ∷ []
unfolding lower_hex
lower_hex_small fuel n h = rw ((==_iff (n / 16) 0).1 h)

lower_hex_step :
    (fuel n : ℕ)
    → n / 16 ≢ 0
    → lower_hex (suc fuel) n ≡ lower_hex fuel (n / 16) ++ (hex_digit (n % 16) ∷ [])
unfolding lower_hex
lower_hex_step fuel n h = ground arith

one_less : (k : ℕ) → suc (suc k) - 1 ≡ suc k
one_less k = omega arith

pad_step : (k : ℕ) (ds : Bytes) (d : ℕ) → suc (suc k) - length (ds ++ (d ∷ [])) ≡ suc k - length ds
pad_step k ds d = omega (arith, length-append ds (d ∷ []))

-- With enough fuel the padded number is its last digits.
lower_hex-digits :
    (k fuel n : ℕ)
    → n < 16 ^ suc k
    → k < fuel
    → replicate (suc k - length (lower_hex fuel n)) b'0' ++ lower_hex fuel n ≡ digits (suc k) n
unfolding digits
lower_hex-digits k zero n h e = absurd (omega arith)
lower_hex-digits zero (suc fuel) n h e =
    rw (lower_hex_small fuel n (omega arith)) (ap (λ d. hex_digit d ∷ []) refl)
lower_hex-digits (suc k) (suc fuel) n h e = elim (ℕ_discrete (n / 16) 0) [
  | yes small ↦
      rw (lower_hex_small fuel n small, small)
        (ap (λ j. replicate j b'0' ++ (hex_digit (n % 16) ∷ [])) (one_less k)
          ∙ ap (λ ds. ds ++ (hex_digit (n % 16) ∷ [])) (sym (digits_zero (suc k))))
  | no large ↦ rw (lower_hex_step fuel n large) (
      ap (λ j. replicate j b'0' ++ (lower_hex fuel (n / 16) ++ (hex_digit (n % 16) ∷ [])))
        (pad_step k (lower_hex fuel (n / 16)) (hex_digit (n % 16)))
      ∙ sym (append_assoc (replicate (suc k - length (lower_hex fuel (n / 16))) b'0') _ _)
      ∙ ap (λ ds. ds ++ (hex_digit (n % 16) ∷ []))
          (lower_hex-digits k fuel (n / 16) (sixteenth_lt (suc k) n h) (omega arith)))
]

pub format_08x-digits : (n : ℕ) → n < 2 ^ 32 → format_08x n ≡ digits 8 n
unfolding format_08x
format_08x-digits n h = lower_hex-digits 7 16 n h (omega arith)

hex_value-hex_digit : (d : ℕ) → d < 16 → hex_value (hex_digit d) ≡ some d
unfolding hex_value hex_digit
hex_value-hex_digit d h = ground arith

read_hex-append : (o : Option ℕ) (s t : Bytes) → read_hex o (s ++ t) ≡ read_hex (read_hex o s) t
unfolding read_hex
read_hex-append none s t = refl
read_hex-append (some acc) [] t = refl
read_hex-append (some acc) (c ∷ s) t = read_hex-append (shift_in acc (hex_value c)) s t

read_hex_last : (acc d : ℕ) → d < 16 → read_hex (some acc) (hex_digit d ∷ []) ≡ some (acc * 16 + d)
unfolding read_hex
read_hex_last acc d h = ground (arith, hex_value-hex_digit d h)

read_hex-digits :
    (k n acc : ℕ) → n < 16 ^ k → read_hex (some acc) (digits k n) ≡ some (acc * 16 ^ k + n)
unfolding digits
read_hex-digits zero n acc h = unfold read_hex in ap some (omega arith)
read_hex-digits (suc k) n acc h =
    rw
      (
        read_hex-append (some acc) (digits k (n / 16)) (hex_digit (n % 16) ∷ []),
        read_hex-digits k (n / 16) acc (sixteenth_lt k n h),
      )
      (read_hex_last (acc * 16 ^ k + n / 16) (n % 16) (omega arith)
        ∙ ap some (omega (arith, pow-suc 16 k, ap (λ (t : ℕ). acc * t) (pow-suc 16 k))))

-- a header field below 2 ^ 32 is written as eight hexadecimal digits, which read back as its
-- value.
pub read_hex-format_08x :
    (n : ℕ) → n < 2 ^ 32 → (length (format_08x n) ≡ 8) × (read_hex (some 0) (format_08x n) ≡ some n)
read_hex-format_08x n h =
    rw (format_08x-digits n h) (length-digits 8 n, read_hex-digits 8 n 0 h ∙ ap some (omega arith))

sixteenth-ne-zero : (k n : ℕ) → 16 ^ suc k ≤ n → n / 16 ≢ 0
sixteenth-ne-zero k n h z = absurd (omega (arith, sixteenth_le k n h, pow_pos k))

length-lower_hex_large : (k fuel n : ℕ) → 16 ^ k ≤ n → k < fuel → k < length (lower_hex fuel n)
length-lower_hex_large k zero n h e = absurd (omega arith)
length-lower_hex_large zero (suc fuel) n h e =
    unfold lower_hex in
    ground (arith, length-append (lower_hex fuel (n / 16)) (hex_digit (n % 16) ∷ []))
length-lower_hex_large (suc k) (suc fuel) n h e =
    rw (lower_hex_step fuel n (sixteenth-ne-zero k n h)) (
      omega (
        arith,
        length-append (lower_hex fuel (n / 16)) (hex_digit (n % 16) ∷ []),
        length-lower_hex_large k fuel (n / 16) (sixteenth_le k n h) (omega arith),
      ))

-- a header field of 2 ^ 32 or more is written in more than eight digits, so it does not fit its
-- place in the header.
pub length-format_08x_large : (n : ℕ) → 2 ^ 32 ≤ n → 8 < length (format_08x n)
unfolding format_08x
length-format_08x_large n h = omega (
  arith,
  length-append (replicate (8 - length (lower_hex 16 n)) b'0') (lower_hex 16 n),
  length-lower_hex_large 8 16 n h (omega arith),
)
