-- ===== src/Bmv2/Checksums.antt =====
-- The two loops of lib/bmv2/bmv2_net.cc that compute checksums: the sum of 16-bit words and
-- `checksum_fold`.
use fisslock_bmv2_java.Base.{
  ℕ, suc, ◌+◌, ◌-◌, ◌*◌, ◌/◌, ◌%◌, ◌^◌, ◌≤◌, ◌<◌, ◌≡◌, List, [], ◌∷◌, Option, some, ◌==◌, leb,
  Bool-cases, arith, ◌⊎◌, inl, inr, false, ◌∙◌, refl, length, All,
}
use fisslock_bmv2_java.Bmv2.Frame.{add_words, checksum_fold, fold_fuel}

abbrev pub IsByte : ℕ → Type 0
IsByte b = b < 2 ^ 8

-- The number of 16-bit words, a last byte counted as one.
unfoldable pub word_count : List ℕ → ℕ
word_count [] = 0
word_count (hi ∷ []) = 1
word_count (hi ∷ lo ∷ bytes) = suc (word_count bytes)

-- The sum of the words without a bound.
unfoldable pub word_sum : List ℕ → ℕ
word_sum [] = 0
word_sum (hi ∷ []) = hi * 2 ^ 8
word_sum (hi ∷ lo ∷ bytes) = hi * 2 ^ 8 + lo + word_sum bytes

pub word_count-le : (bytes : List ℕ) → word_count bytes ≤ length bytes
unfolding word_count
word_count-le [] = omega arith
word_count-le (hi ∷ []) = omega arith
word_count-le (hi ∷ lo ∷ bytes) = omega (arith, word_count-le bytes)

pub word_sum_bound :
    (bytes : List ℕ) → All IsByte bytes → word_sum bytes ≤ word_count bytes * 2 ^ 16
unfolding word_sum word_count
word_sum_bound [] h = omega arith
word_sum_bound (hi ∷ []) h = omega (arith, h.0)
word_sum_bound (hi ∷ lo ∷ bytes) h = omega (arith, h.0, h.1.0, word_sum_bound bytes h.1.1)

leb-cases : (a b : ℕ) → (a ≤ b) ⊎ (b < a)
leb-cases a b = elim (Bool-cases (leb a b)) [
  | inl e ↦ inl (ground arith)
  | inr e ↦ inr (ground arith)
]

-- Below 2^32 the loop of the code computes the sum.
pub add_words_lem :
    (sum : ℕ) (bytes : List ℕ)
    → sum + word_sum bytes < 2 ^ 32
    → add_words sum bytes ≡ sum + word_sum bytes
unfolding add_words word_sum
add_words_lem sum [] h = omega arith
add_words_lem sum (hi ∷ []) h = omega arith
add_words_lem sum (hi ∷ lo ∷ bytes) h =
    let small : (sum + (hi * 2 ^ 8 + lo)) % 2 ^ 32 ≡ sum + (hi * 2 ^ 8 + lo) = omega arith in
    rw small (omega (arith, add_words_lem (sum + (hi * 2 ^ 8 + lo)) bytes (omega arith)))

-- One round of the loop of `checksum_fold`.
abbrev round : ℕ → ℕ
round sum = sum % 2 ^ 16 + sum / 2 ^ 16

fold_done : (fuel sum : ℕ) → sum < 2 ^ 16 → checksum_fold (suc fuel) sum ≡ some sum
unfolding checksum_fold
fold_done fuel sum h = let e : sum / 2 ^ 16 ≡ 0 = omega arith in rw e refl

fold_round :
    (fuel sum : ℕ)
    → 2 ^ 16 ≤ sum
    → sum < 2 ^ 32
    → checksum_fold (suc fuel) sum ≡ checksum_fold fuel (round sum)
unfolding checksum_fold
fold_round fuel sum big h =
    let e : (sum / 2 ^ 16 == 0) ≡ false = ground arith in
    let small : round sum % 2 ^ 32 ≡ round sum = omega arith in rw (e, small) refl

round_mod : (sum : ℕ) → round sum % (2 ^ 16 - 1) ≡ sum % (2 ^ 16 - 1)
round_mod sum = omega arith

-- What a run of the loop leaves of a positive sum: 16 bits of the same remainder by 2^16 - 1.
unfoldable pub Folded : Option ℕ → ℕ → Type 0
Folded result sum =
    (r : ℕ) × (result ≡ some r) × (0 < r) × (r < 2 ^ 16) × (r % (2 ^ 16 - 1) ≡ sum % (2 ^ 16 - 1))

Folded-now : (fuel sum : ℕ) → 0 < sum → sum < 2 ^ 16 → Folded (checksum_fold (suc fuel) sum) sum
unfolding Folded
Folded-now fuel sum positive h = (sum, fold_done fuel sum h, positive, h, refl)

Folded-later :
    (fuel sum : ℕ)
    → 2 ^ 16 ≤ sum
    → sum < 2 ^ 32
    → Folded (checksum_fold fuel (round sum)) (round sum)
    → Folded (checksum_fold (suc fuel) sum) sum
unfolding Folded
Folded-later fuel sum big h (r, e, positive, small, same) =
    (r, fold_round fuel sum big h ∙ e, positive, small, same ∙ round_mod sum)

Folded-once :
    (fuel sum : ℕ) → 0 < sum → sum < 2 ^ 17 - 1 → Folded (checksum_fold (suc (suc fuel)) sum) sum
Folded-once fuel sum positive h = elim (leb-cases (2 ^ 16) sum) [
  | inl big ↦
      Folded-later (suc fuel) sum big (omega arith)
        (Folded-now fuel (round sum) (omega arith) (omega arith))
  | inr small ↦ Folded-now (suc fuel) sum positive small
]

-- The loop of `checksum_fold` ends after two rounds at most.
pub checksum_fold_ends :
    (sum : ℕ) → 0 < sum → sum < 2 ^ 32 → Folded (checksum_fold fold_fuel sum) sum
checksum_fold_ends sum positive h = elim (leb-cases (2 ^ 16) sum) [
  | inl big ↦ Folded-later 2 sum big h (Folded-once 0 (round sum) (omega arith) (omega arith))
  | inr small ↦ Folded-now 2 sum positive small
]

-- The two bytes of a number below 2^16 are the number as a word.
pub be16_word : (x : ℕ) → x < 2 ^ 16 → x / 2 ^ 8 % 2 ^ 8 * 2 ^ 8 + x % 2 ^ 8 ≡ x
be16_word x h = omega arith
