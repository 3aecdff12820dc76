-- ===== src/E2ee/Bytes.antt =====
-- packages/e2ee/src/bytes.ts: sequences of bytes. A byte is a number below 256.
use vimla_ai.Common.{
  ℕ, zero, suc, ◌+◌, ◌*◌, ◌/◌, ◌%◌, ◌<◌, ◌≡◌, refl, ap, ◌^◌, Bool, true, false, ◌&&◌, List, [], ◌∷◌,
  ◌++◌, length, ◌==◌, arith,
}

abbrev pub Bytes : Type 0
Bytes = List ℕ

abbrev pub constant_time_equal : Bytes → Bytes → Bool
constant_time_equal [] [] = true
constant_time_equal (x ∷ xs) (y ∷ ys) = x == y && constant_time_equal xs ys
constant_time_equal _ _ = false

pub constant_time_equal_refl : (xs : Bytes) → constant_time_equal xs xs ≡ true
constant_time_equal_refl [] = refl
constant_time_equal_refl (x ∷ xs) = ground (arith, constant_time_equal_refl xs)

pub eq_of_equal : (xs ys : Bytes) → constant_time_equal xs ys ≡ true → xs ≡ ys
eq_of_equal [] [] h = refl
eq_of_equal [] (y ∷ ys) h = cc
eq_of_equal (x ∷ xs) [] h = cc
eq_of_equal (x ∷ xs) (y ∷ ys) h = ground (arith, eq_of_equal xs ys)

abbrev pub take : ℕ → Bytes → Bytes
take zero xs = []
take (suc n) [] = []
take (suc n) (x ∷ xs) = x ∷ take n xs

abbrev pub drop : ℕ → Bytes → Bytes
drop zero xs = xs
drop (suc n) [] = []
drop (suc n) (x ∷ xs) = drop n xs

-- `bytes.slice(first, last)`.
abbrev pub slice : ℕ → ℕ → Bytes → Bytes
slice first last bytes = drop first (take last bytes)

-- `value >>> 0` in big-endian order.
unfoldable pub u32be : ℕ → Bytes
u32be value =
    let v = value % 2 ^ 32 in v / 2 ^ 24 ∷ (v / 2 ^ 16) % 256 ∷ (v / 2 ^ 8) % 256 ∷ v % 256 ∷ []

-- The number in the first four bytes.
abbrev pub read_number : Bytes → ℕ
read_number (a ∷ b ∷ c ∷ d ∷ _) = a * 2 ^ 24 + b * 2 ^ 16 + c * 2 ^ 8 + d
read_number _ = 0

-- The caller has checked that four bytes follow.
unfoldable pub read_u32be : Bytes → ℕ → ℕ
read_u32be bytes offset = read_number (drop offset bytes)

pub read_number-u32be :
    (value : ℕ) (rest : Bytes) → value < 2 ^ 32 → read_number (u32be value ++ rest) ≡ value
unfolding u32be
read_number-u32be value rest h = omega arith

pub take-append : (xs ys : Bytes) → take (length xs) (xs ++ ys) ≡ xs
take-append [] ys = refl
take-append (x ∷ xs) ys = ap (λ l. x ∷ l) (take-append xs ys)

pub drop-append : (xs ys : Bytes) → drop (length xs) (xs ++ ys) ≡ ys
drop-append [] ys = refl
drop-append (x ∷ xs) ys = drop-append xs ys
