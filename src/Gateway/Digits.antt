-- ===== src/Gateway/Digits.antt =====
-- Exclusive or and or of bytes, as `constant_time_eq` of crates/bobaclaw-gateway/src/auth.rs uses them.
use boba_claw.Prelude.{ℕ, zero, suc, ◌/◌, ◌%◌, max, ◌≤◌, ◌≡◌, refl, sym, ◌∙◌, arith}
use Prim.Native.Nat.{digits, differ, bit_or, bit_xor, bit_or-bitwise, bit_xor-bitwise}

differ-zero : (x y : ℕ) → differ x y ≡ 0 → x ≡ y
differ-zero zero y h = omega arith
differ-zero (suc x) zero h = absurd (omega arith)
differ-zero (suc x) (suc y) h = let e = differ-zero x y h in omega arith

differ-same : (x : ℕ) → differ x x ≡ 0
differ-same zero = refl
differ-same (suc x) = differ-same x

xor_digits : (n a b : ℕ) → a ≤ n → digits (λ b. b) differ n a b ≡ 0 → a ≡ b
xor_digits zero a b le h = omega arith
xor_digits (suc n) zero b le h = omega arith
xor_digits (suc n) (suc a) b le h =
    let low = differ-zero (suc a % 2) (b % 2) (omega arith) in
    let high = xor_digits n (suc a / 2) (b / 2) (omega arith) (omega arith) in omega arith

xor_same : (n a : ℕ) → a ≤ n → digits (λ b. b) differ n a a ≡ 0
xor_same zero a le = omega arith
xor_same (suc n) zero le = refl
xor_same (suc n) (suc a) le =
    let low = differ-same (suc a % 2) in
    let high = xor_same n (suc a / 2) (omega arith) in omega arith

or_digits : (n a b : ℕ) → a ≤ n → digits (λ b. b) max n a b ≡ 0 → (a ≡ 0) × (b ≡ 0)
or_digits zero a b le h = (omega arith, h)
or_digits (suc n) zero b le h = (refl, h)
or_digits (suc n) (suc a) b le h =
    let (high, other) = or_digits n (suc a / 2) (b / 2) (omega arith) (omega arith) in
    absurd (omega arith)

xor_eq : (a b : ℕ) → bit_xor a b ≡ digits (λ b. b) differ a a b
xor_eq a b = λ i. bit_xor-bitwise a b i

or_eq : (a b : ℕ) → bit_or a b ≡ digits (λ b. b) max a a b
or_eq a b = λ i. bit_or-bitwise a b i

pub bit_xor-zero : (a b : ℕ) → bit_xor a b ≡ 0 → a ≡ b
bit_xor-zero a b h = xor_digits a a b (omega arith) (sym (xor_eq a b) ∙ h)

pub bit_xor-same : (a : ℕ) → bit_xor a a ≡ 0
bit_xor-same a = xor_eq a a ∙ xor_same a a (omega arith)

pub bit_or-zero : (a b : ℕ) → bit_or a b ≡ 0 → (a ≡ 0) × (b ≡ 0)
bit_or-zero a b h = or_digits a a b (omega arith) (sym (or_eq a b) ∙ h)
