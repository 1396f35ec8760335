-- ===== src/Json/Integers/Written.antt =====
-- Integers that `std::to_string` wrote, and the ranges of what is read.
use uidentity.Base.{
  ℕ, zero, suc, ◌+◌, ◌-◌, ◌*◌, ◌/◌, ◌%◌, ◌^◌, ◌≤◌, ◌<◌, Bool, true, false, [], ◌∷◌, ◌++◌, Option,
  none, some, Bytes, All, All-append, append-nil, decimal, is_space, to_string, ltb, if◌then◌else◌,
  ◌≡◌, ◌≢◌, refl, ◌∙◌, ap, arith, ok, Bool-cases, inl, inr,
}
use mathlib.Core.List.{cons-ne-nil}
use mathlib.Core.Path.{subst}
use uidentity.Base.Int.{ℤ, pos, negsuc}
use uidentity.Json.Skip.{skip_ws}
use uidentity.Json.Text.{IsBlank}
use uidentity.Json.Integers.{
  is_digit, read_digits, signed_natural, read_natural, in_range, read_signed, stoi, stoll,
  stoi_or_throw,
}

abbrev pub IsDigit : ℕ → Type 0
IsDigit c = (b'0' ≤ c) × (c ≤ b'9')

is_digit-IsDigit : (c : ℕ) → IsDigit c → is_digit c ≡ true
unfolding is_digit
is_digit-IsDigit c h = ground arith

read_digits-append :
    (n : ℕ) (s t : Bytes) → All IsDigit s → read_digits n (s ++ t) ≡ read_digits (read_digits n s) t
unfolding read_digits
read_digits-append n [] t h = refl
read_digits-append n (c ∷ s) t (d, h) =
    ground (arith, is_digit-IsDigit c d, read_digits-append (n * 10 + (c - b'0')) s t h)

read_digits_one : (n d : ℕ) → d < 10 → read_digits n ((b'0' + d) ∷ []) ≡ n * 10 + d
unfolding read_digits is_digit
read_digits_one n d h = ground arith

power_suc : (f : ℕ) → 10 ^ suc f ≡ 10 * 10 ^ f
power_suc f = omega arith

pub decimal-IsDigit : (f n : ℕ) → All IsDigit (decimal f n)
unfolding decimal
decimal-IsDigit zero n = tt
decimal-IsDigit (suc f) n = elim (Bool-cases (ltb n 10)) [
  | inl low ↦ rw (low, decimal) ((ground arith, ground arith), tt)
  | inr high ↦
      rw (high, decimal)
        (All-append IsDigit (decimal f (n / 10)) ((b'0' + n % 10) ∷ []) (decimal-IsDigit f (n / 10))
          ((omega arith, omega arith), tt))
]

-- The digits that were written spell the number.
pub read_digits-decimal : (f n : ℕ) → n < 10 ^ f → read_digits 0 (decimal f n) ≡ n
unfolding decimal read_digits
read_digits-decimal zero n h = ground arith
read_digits-decimal (suc f) n h = elim (Bool-cases (ltb n 10)) [
  | inl low ↦ rw (low, decimal) (read_digits_one 0 n (ground arith) ∙ omega arith)
  | inr high ↦
      let rest = read_digits-decimal f (n / 10) (omega (arith, power_suc f)) in
      rw (high, decimal)
        (read_digits-append 0 (decimal f (n / 10)) ((b'0' + n % 10) ∷ [])
            (decimal-IsDigit f (n / 10))
          ∙ ap (λ m. read_digits m ((b'0' + n % 10) ∷ [])) rest
          ∙ read_digits_one (n / 10) (n % 10) (omega arith)
          ∙ omega arith)
]

snoc-ne-nil : (s : Bytes) (c : ℕ) → s ++ c ∷ [] ≢ []
snoc-ne-nil [] c = cons-ne-nil c []
snoc-ne-nil (d ∷ s) c = cons-ne-nil d (s ++ c ∷ [])

pub decimal-ne-nil : (f n : ℕ) → decimal (suc f) n ≢ []
unfolding decimal
decimal-ne-nil f n = elim (Bool-cases (ltb n 10)) [
  | inl low ↦ rw (low, decimal) (cons-ne-nil _ [])
  | inr high ↦ rw (high, decimal) (snoc-ne-nil (decimal f (n / 10)) _)
]

read_digits_blank : (n : ℕ) (w : Bytes) → IsBlank w → read_digits n w ≡ n
unfolding read_digits is_digit is_space
read_digits_blank n [] h = refl
read_digits_blank n (c ∷ w) (e, h) = ground arith

-- Spaces behind the digits are left alone.
read_natural_digits :
    (s w : Bytes)
    → s ≢ []
    → All IsDigit s
    → IsBlank w
    → read_natural (s ++ w) ≡ some (read_digits 0 s)
unfolding read_natural
read_natural_digits [] w n h b = absurd (n refl)
read_natural_digits (c ∷ s) w n (d, h) b = ground (
  arith,
  is_digit-IsDigit c d,
  read_digits-append 0 (c ∷ s) w (d, h),
  read_digits_blank (read_digits 0 (c ∷ s)) w b,
)

-- A text of digits has no sign and no space in front.
read_signed_digits :
    (m : ℕ) (s w : Bytes)
    → s ≢ []
    → All IsDigit s
    → IsBlank w
    → read_signed m (skip_ws (s ++ w)) ≡ in_range m false (read_digits 0 s)
unfolding read_signed signed_natural skip_ws is_space
read_signed_digits m [] w n h b = absurd (n refl)
read_signed_digits m (c ∷ s) w n (d, h) b = ground (arith, read_natural_digits (c ∷ s) w n (d, h) b)

read_signed_minus :
    (m : ℕ) (s w : Bytes)
    → s ≢ []
    → All IsDigit s
    → IsBlank w
    → read_signed m (skip_ws (b'-' ∷ (s ++ w))) ≡ in_range m true (read_digits 0 s)
unfolding read_signed signed_natural skip_ws is_space
read_signed_minus m s w n h b = ground (arith, read_natural_digits s w n h b)

-- The values of a signed type with `m` of them from zero up.
abbrev pub InType : ℕ → ℤ → Type 0
InType m (pos n) = n < m
InType m (negsuc n) = n < m

-- An integer where it is of the type, and nothing where it is not.
abbrev pub fit : ℕ → ℤ → Option ℤ
fit m (pos n) = if ltb n m then some (pos n) else none
fit m (negsuc n) = if ltb n m then some (negsuc n) else none

pub fit-InType : (m : ℕ) (z : ℤ) → InType m z → fit m z ≡ some z
fit-InType m (pos n) h = ground arith
fit-InType m (negsuc n) h = ground arith

read_signed-to_string :
    (m : ℕ) (z : ℤ) (w : Bytes)
    → InType (10 ^ 19) z
    → IsBlank w
    → read_signed m (skip_ws (to_string z ++ w)) ≡ fit m z
unfolding to_string in_range
read_signed-to_string m (pos n) w h blank =
    read_signed_digits m (decimal 20 n) w (decimal-ne-nil 19 n) (decimal-IsDigit 20 n) blank
    ∙ ap (in_range m false) (read_digits-decimal 20 n (omega arith))
read_signed-to_string m (negsuc n) w h blank =
    read_signed_minus m (decimal 20 (suc n)) w (decimal-ne-nil 19 (suc n))
      (decimal-IsDigit 20 (suc n)) blank
    ∙ ap (in_range m true) (read_digits-decimal 20 (suc n) (omega arith))

in_range-InType :
    (m : ℕ) (minus : Bool) (n : ℕ) (z : ℤ) → m ≢ 0 → in_range m minus n ≡ some z → InType m z
unfolding in_range
in_range-InType m false n (pos k) p h = ground arith
in_range-InType m false n (negsuc k) p h = ground arith
in_range-InType m true zero (pos k) p h = ground arith
in_range-InType m true zero (negsuc k) p h = ground arith
in_range-InType m true (suc n) (pos k) p h = ground arith
in_range-InType m true (suc n) (negsuc k) p h = ground arith

signed_natural-InType :
    (m : ℕ) (minus : Bool) (o : Option ℕ) (z : ℤ)
    → m ≢ 0
    → signed_natural m minus o ≡ some z
    → InType m z
unfolding signed_natural
signed_natural-InType m minus none z p h = cc
signed_natural-InType m minus (some n) z p h = in_range-InType m minus n z p h

read_signed-InType : (m : ℕ) (raw : Bytes) (z : ℤ) → m ≢ 0 → read_signed m raw ≡ some z → InType m z
unfolding read_signed
read_signed-InType m [] z p h = cc
read_signed-InType m (c ∷ s) z p h = grind (
  arith,
  signed_natural-InType m true (read_natural s) z p,
  signed_natural-InType m false (read_natural s) z p,
  signed_natural-InType m false (read_natural (c ∷ s)) z p,
)

pub stoi-to_string :
    (z : ℤ) (w : Bytes) → InType (10 ^ 19) z → IsBlank w → stoi (to_string z ++ w) ≡ fit (2 ^ 31) z
unfolding stoi
stoi-to_string z w h b = read_signed-to_string (2 ^ 31) z w h b

pub stoi-InType : (raw : Bytes) (z : ℤ) → stoi raw ≡ some z → InType (2 ^ 31) z
unfolding stoi
stoi-InType raw z h = read_signed-InType (2 ^ 31) (skip_ws raw) z (omega arith) h

pub stoll-to_string :
    (z : ℤ) (w : Bytes) → InType (10 ^ 19) z → IsBlank w → stoll (to_string z ++ w) ≡ fit (2 ^ 63) z
unfolding stoll
stoll-to_string z w h b = read_signed-to_string (2 ^ 63) z w h b

pub stoll-InType : (raw : Bytes) (z : ℤ) → stoll raw ≡ some z → InType (2 ^ 63) z
unfolding stoll
stoll-InType raw z h = read_signed-InType (2 ^ 63) (skip_ws raw) z (omega arith) h

wider : (z : ℤ) → InType (2 ^ 31) z → InType (10 ^ 19) z
wider (pos n) h = omega arith
wider (negsuc n) h = omega arith

stoi_written : (z : ℤ) → InType (2 ^ 31) z → stoi (to_string z) ≡ some z
stoi_written z h =
    subst (λ s. stoi s ≡ fit (2 ^ 31) z) (append-nil (to_string z))
      (stoi-to_string z [] (wider z h) tt)
    ∙ fit-InType (2 ^ 31) z h

pub stoi_or_throw-to_string : (z : ℤ) → InType (2 ^ 31) z → stoi_or_throw (to_string z) ≡ ok z
unfolding stoi_or_throw
stoi_or_throw-to_string z h = ground (arith, stoi_written z h)
