-- ===== src/Base/Bits.antt =====
-- Facts on `bit_or` and `bit_xor` at variables, from the digit recursion that they stand for.
use Prim.Native.Nat.{
  ℕ, zero, suc, ◌+◌, ◌*◌, ◌/◌, ◌%◌, ◌^◌, ◌≤◌, ◌<◌, min, max, bit_and, bit_or, bit_xor, differ,
  digits, bitwise, bit_and-bitwise, bit_or-bitwise, bit_xor-bitwise,
}
use mathlib.Core.Path.{◌≡◌, refl, ap}
use native.Mathlib.Nat.{pow-suc}
use native.Mathlib.Omega.{arith}

-- The fuel of the digit recursion does not matter once it covers the first argument.
module _ (z : ℕ → ℕ) (f : ℕ → ℕ → ℕ) where
  digits_enough : (n m a b : ℕ) → a ≤ n → a ≤ m → digits z f n a b ≡ digits z f m a b
  digits_enough zero zero a b p q = refl
  digits_enough zero (suc m) zero b p q = refl
  digits_enough zero (suc m) (suc a) b p q = absurd (omega arith)
  digits_enough (suc n) zero zero b p q = refl
  digits_enough (suc n) zero (suc a) b p q = absurd (omega arith)
  digits_enough (suc n) (suc m) zero b p q = refl
  digits_enough (suc n) (suc m) (suc a) b p q =
      rw (digits_enough n m (suc a / 2) (b / 2) (omega arith) (omega arith))

  bitwise_lowest :
      (a b : ℕ)
      → bitwise z f (suc a) b ≡ bitwise z f (suc a / 2) (b / 2) * 2 + f (suc a % 2) (b % 2)
  bitwise_lowest a b =
      omega (arith, digits_enough a (suc a / 2) (suc a / 2) (b / 2) (omega arith) (omega arith))

pub bit_or_lowest : (a b : ℕ) → bit_or a b ≡ bit_or (a / 2) (b / 2) * 2 + max (a % 2) (b % 2)
bit_or_lowest zero b = simp bit_or-bitwise (omega arith)
bit_or_lowest (suc a) b = simp bit_or-bitwise (bitwise_lowest (λ y. y) max a b)

differ_bits : (p q : ℕ) → p < 2 → q < 2 → differ p q ≡ (p + q) % 2
differ_bits zero q hp hq = omega arith
differ_bits (suc zero) zero hp hq = refl
differ_bits (suc zero) (suc zero) hp hq = refl
differ_bits (suc zero) (suc (suc q)) hp hq = absurd (omega arith)
differ_bits (suc (suc p)) q hp hq = absurd (omega arith)

pub bit_xor_lowest : (a b : ℕ) → bit_xor a b ≡ bit_xor (a / 2) (b / 2) * 2 + (a + b) % 2
bit_xor_lowest zero b = simp bit_xor-bitwise (omega arith)
bit_xor_lowest (suc a) b = omega (
  arith,
  bit_xor-bitwise (suc a) b,
  bit_xor-bitwise (suc a / 2) (b / 2),
  bitwise_lowest (λ y. y) differ a b,
  differ_bits (suc a % 2) (b % 2) (omega arith) (omega arith),
)

bit_or-zero_below : (n a : ℕ) → a ≤ n → bit_or a 0 ≡ a
bit_or-zero_below n zero h = refl
bit_or-zero_below zero (suc a) h = absurd (omega arith)
bit_or-zero_below (suc n) (suc a) h =
    omega (arith, bit_or_lowest (suc a) 0, bit_or-zero_below n (suc a / 2) (omega arith))

double_half : (a : ℕ) → 2 * a / 2 ≡ a
double_half a = omega arith

bit_or_double : (a b : ℕ) → bit_or (2 * a) b ≡ 2 * bit_or a (b / 2) + b % 2
bit_or_double a b =
    let low : bit_or (2 * a) b ≡ bit_or (2 * a / 2) (b / 2) * 2 + max (2 * a % 2) (b % 2) =
      bit_or_lowest (2 * a) b in
    let half : bit_or (2 * a / 2) (b / 2) ≡ bit_or a (b / 2) =
      ap (λ (t : ℕ). bit_or t (b / 2)) (double_half a) in
    omega arith

-- A field of `k` bits or-ed in below a shifted value adds to it.
pub bit_or_below : (k v b : ℕ) → b < 2 ^ k → bit_or (2 ^ k * v) b ≡ 2 ^ k * v + b
bit_or_below zero v b h =
    let e : b ≡ 0 = omega arith in
    let f : 2 ^ 0 * v ≡ v = omega arith in
    rw (e, f, bit_or-zero_below v v (omega arith)) (omega arith)
bit_or_below (suc k) v b h =
    let e : 2 ^ suc k * v ≡ 2 * (2 ^ k * v) = omega (arith, ap (λ (t : ℕ). t * v) (pow-suc 2 k)) in
    let ih : bit_or (2 ^ k * v) (b / 2) ≡ 2 ^ k * v + b / 2 =
      bit_or_below k v (b / 2) (omega (arith, pow-suc 2 k)) in
    rw e (omega (arith, bit_or_double (2 ^ k * v) b))

bit_xor_cancel_below : (n a b : ℕ) → a ≤ n → b ≤ n → bit_xor (bit_xor a b) b ≡ a
bit_xor_cancel_below zero a b p q =
    let e : a ≡ 0 = omega arith in let f : b ≡ 0 = omega arith in rw (e, f)
bit_xor_cancel_below (suc n) a b p q =
    let ih : bit_xor (bit_xor (a / 2) (b / 2)) (b / 2) ≡ a / 2 =
      bit_xor_cancel_below n (a / 2) (b / 2) (omega arith) (omega arith) in
    let half : bit_xor a b / 2 ≡ bit_xor (a / 2) (b / 2) = omega (arith, bit_xor_lowest a b) in
    let shifted : bit_xor (bit_xor a b / 2) (b / 2) ≡ a / 2 = rw half ih in
    omega (arith, bit_xor_lowest a b, bit_xor_lowest (bit_xor a b) b)

-- Xor by the same word twice gives the first word back.
pub bit_xor_cancel : (a b : ℕ) → bit_xor (bit_xor a b) b ≡ a
bit_xor_cancel a b = bit_xor_cancel_below (max a b) a b (omega arith) (omega arith)

-- Xor with a word whose highest bit is bit `k` sets that bit in a word below it.
pub bit_xor_high :
    (k a b : ℕ)
    → a < 2 ^ k
    → 2 ^ k ≤ b
    → b < 2 ^ suc k
    → (2 ^ k ≤ bit_xor a b) × (bit_xor a b < 2 ^ suc k)
bit_xor_high zero a b p q r =
    let e : a ≡ 0 = omega arith in let f : b ≡ 1 = omega arith in rw (e, f) (omega arith)
bit_xor_high (suc k) a b p q r =
    let ih : (2 ^ k ≤ bit_xor (a / 2) (b / 2)) × (bit_xor (a / 2) (b / 2) < 2 ^ suc k) =
      bit_xor_high k (a / 2) (b / 2) (omega (arith, pow-suc 2 k)) (omega (arith, pow-suc 2 k))
        (omega (arith, pow-suc 2 (suc k))) in
    omega (arith, bit_xor_lowest a b, pow-suc 2 k, pow-suc 2 (suc k))

bit_xor_comm_below : (n a b : ℕ) → a ≤ n → b ≤ n → bit_xor a b ≡ bit_xor b a
bit_xor_comm_below zero a b p q =
    let e : a ≡ 0 = omega arith in let f : b ≡ 0 = omega arith in rw (e, f)
bit_xor_comm_below (suc n) a b p q =
    let ih : bit_xor (a / 2) (b / 2) ≡ bit_xor (b / 2) (a / 2) =
      bit_xor_comm_below n (a / 2) (b / 2) (omega arith) (omega arith) in
    omega (arith, bit_xor_lowest a b, bit_xor_lowest b a)

pub bit_xor_comm : (a b : ℕ) → bit_xor a b ≡ bit_xor b a
bit_xor_comm a b = bit_xor_comm_below (max a b) a b (omega arith) (omega arith)

bit_xor_half : (a b : ℕ) → bit_xor a b / 2 ≡ bit_xor (a / 2) (b / 2)
bit_xor_half a b = omega (arith, bit_xor_lowest a b)

bit_xor_swap_below :
    (n a b c : ℕ) → a ≤ n → b ≤ n → c ≤ n → bit_xor (bit_xor a b) c ≡ bit_xor (bit_xor a c) b
bit_xor_swap_below zero a b c p q r =
    let e : a ≡ 0 = omega arith in
    let f : b ≡ 0 = omega arith in let g : c ≡ 0 = omega arith in rw (e, f, g)
bit_xor_swap_below (suc n) a b c p q r =
    let ih : bit_xor (bit_xor (a / 2) (b / 2)) (c / 2) ≡ bit_xor (bit_xor (a / 2) (c / 2)) (b / 2) =
      bit_xor_swap_below n (a / 2) (b / 2) (c / 2) (omega arith) (omega arith) (omega arith) in
    let left : bit_xor (bit_xor a b / 2) (c / 2) ≡ bit_xor (bit_xor a c / 2) (b / 2) =
      rw (bit_xor_half a b, bit_xor_half a c) ih in
    omega (
      arith,
      bit_xor_lowest (bit_xor a b) c,
      bit_xor_lowest (bit_xor a c) b,
      bit_xor_lowest a b,
      bit_xor_lowest a c,
    )

pub bit_xor_swap : (a b c : ℕ) → bit_xor (bit_xor a b) c ≡ bit_xor (bit_xor a c) b
bit_xor_swap a b c = bit_xor_swap_below (a + b + c) a b c (omega arith) (omega arith) (omega arith)

pub bit_xor-lt : (k a b : ℕ) → a < 2 ^ k → b < 2 ^ k → bit_xor a b < 2 ^ k
bit_xor-lt zero a b p q =
    let e : a ≡ 0 = omega arith in let f : b ≡ 0 = omega arith in rw (e, f) (omega arith)
bit_xor-lt (suc k) a b p q =
    let ih : bit_xor (a / 2) (b / 2) < 2 ^ k =
      bit_xor-lt k (a / 2) (b / 2) (omega (arith, pow-suc 2 k)) (omega (arith, pow-suc 2 k)) in
    omega (arith, bit_xor_lowest a b, pow-suc 2 k)

pub bit_and_lowest : (a b : ℕ) → bit_and a b ≡ bit_and (a / 2) (b / 2) * 2 + min (a % 2) (b % 2)
bit_and_lowest zero b = simp bit_and-bitwise (omega arith)
bit_and_lowest (suc a) b = simp bit_and-bitwise (bitwise_lowest (λ y. 0) min a b)

bit_and-zero_below : (n a : ℕ) → a ≤ n → bit_and a 0 ≡ 0
bit_and-zero_below n zero h = refl
bit_and-zero_below zero (suc a) h = absurd (omega arith)
bit_and-zero_below (suc n) (suc a) h =
    omega (arith, bit_and_lowest (suc a) 0, bit_and-zero_below n (suc a / 2) (omega arith))

pub bit_and_one : (a : ℕ) → bit_and a 1 ≡ a % 2
bit_and_one a = omega (arith, bit_and_lowest a 1, bit_and-zero_below (a / 2) (a / 2) (omega arith))

pub bit_xor-zero : (a : ℕ) → bit_xor a 0 ≡ a
bit_xor-zero a = omega (arith, bit_xor_comm a 0, bit_xor-bitwise 0 a)

-- `x | f` keeps every bit of `f`.
pub bit_and-bit_or : (a b : ℕ) → bit_and (bit_or a b) b ≡ b
bit_and-bit_or a b = keep (max a b) a b (omega arith) (omega arith)
  where
    keep : (n x y : ℕ) → x ≤ n → y ≤ n → bit_and (bit_or x y) y ≡ y
    keep zero x y p q = let e : x ≡ 0 = omega arith in let f : y ≡ 0 = omega arith in rw (e, f)
    keep (suc n) x y p q =
        let ih : bit_and (bit_or (x / 2) (y / 2)) (y / 2) ≡ y / 2 =
          keep n (x / 2) (y / 2) (omega arith) (omega arith) in
        let half : bit_or x y / 2 ≡ bit_or (x / 2) (y / 2) = omega (arith, bit_or_lowest x y) in
        let shifted : bit_and (bit_or x y / 2) (y / 2) ≡ y / 2 = rw half ih in
        omega (arith, bit_or_lowest x y, bit_and_lowest (bit_or x y) y)

-- `x & 0xFF`
-- The lowest bits, one more at a time.
bit_and_3 : (a : ℕ) → bit_and a 3 ≡ a % 4
bit_and_3 a = omega (arith, bit_and_lowest a 3, bit_and_one (a / 2))

bit_and_7 : (a : ℕ) → bit_and a 7 ≡ a % 8
bit_and_7 a = omega (arith, bit_and_lowest a 7, bit_and_3 (a / 2))

bit_and_15 : (a : ℕ) → bit_and a 15 ≡ a % 16
bit_and_15 a = omega (arith, bit_and_lowest a 15, bit_and_7 (a / 2))

bit_and_31 : (a : ℕ) → bit_and a 31 ≡ a % 32
bit_and_31 a = omega (arith, bit_and_lowest a 31, bit_and_15 (a / 2))

bit_and_63 : (a : ℕ) → bit_and a 63 ≡ a % 64
bit_and_63 a = omega (arith, bit_and_lowest a 63, bit_and_31 (a / 2))

bit_and_127 : (a : ℕ) → bit_and a 127 ≡ a % 128
bit_and_127 a = omega (arith, bit_and_lowest a 127, bit_and_63 (a / 2))

pub bit_and_low_byte : (a : ℕ) → bit_and a 0xFF ≡ a % 256
bit_and_low_byte a = omega (arith, bit_and_lowest a 0xFF, bit_and_127 (a / 2))

bit_and_power : (k a : ℕ) → bit_and a (2 ^ suc k) ≡ bit_and (a / 2) (2 ^ k) * 2
bit_and_power k a =
    let p = pow-suc 2 k in
    let half : 2 ^ suc k / 2 ≡ 2 ^ k = omega (arith, p) in
    let even : 2 ^ suc k % 2 ≡ 0 = omega (arith, p) in
    omega (arith, bit_and_lowest a (2 ^ suc k), ap (bit_and (a / 2)) half, even)

-- A test of the highest bit.
pub bit_and_below : (k a : ℕ) → a < 2 ^ k → bit_and a (2 ^ k) ≡ 0
bit_and_below zero a h = let e : a ≡ 0 = omega arith in rw e
bit_and_below (suc k) a h =
    omega (arith, bit_and_power k a, bit_and_below k (a / 2) (omega (arith, pow-suc 2 k)))

pub bit_and_above : (k a : ℕ) → 2 ^ k ≤ a → a < 2 ^ suc k → bit_and a (2 ^ k) ≡ 2 ^ k
bit_and_above zero a h l = let e : a ≡ 1 = omega (arith, pow-suc 2 0) in rw e
bit_and_above (suc k) a h l =
    let p = pow-suc 2 k in
    let q = pow-suc 2 (suc k) in
    omega (
      arith,
      p,
      q,
      bit_and_power k a,
      bit_and_above k (a / 2) (omega (arith, p)) (omega (arith, p, q)),
    )

bit_and-le_below : (n a b : ℕ) → a ≤ n → bit_and a b ≤ b
bit_and-le_below n zero b h = simp bit_and-bitwise (omega arith)
bit_and-le_below zero (suc a) b h = absurd (omega arith)
bit_and-le_below (suc n) (suc a) b h =
    omega (arith, bit_and_lowest (suc a) b, bit_and-le_below n (suc a / 2) (b / 2) (omega arith))

pub bit_and-le : (a b : ℕ) → bit_and a b ≤ b
bit_and-le a b = bit_and-le_below a a b (omega arith)
