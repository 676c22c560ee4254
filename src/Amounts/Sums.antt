-- ===== src/Amounts/Sums.antt =====
-- Sums over assets.
use bewallet.Common.{
  ℕ, zero, suc, ◌+◌, ◌≤◌, ◌≡◌, refl, sym, false, List, [], ◌∷◌, ◌++◌, map, length, arith, All, ◌<◌,
  nat_eq, nat_beq, nat_beq_iff, if◌then◌else◌,
}
use bewallet.Map.{Amounts, Distinct, get, amount}
use bewallet.Amounts.{total, sum, has}

abbrev pub values : List (ℕ × ℕ) → List ℕ
values = map (λ e. e.1)

pub total-append : (a : ℕ) (xs ys : List (ℕ × ℕ)) → total a (xs ++ ys) ≡ total a xs + total a ys
unfolding total
total-append a [] ys = omega arith
total-append a ((b, v) ∷ xs) ys = ground (arith, total-append a xs ys)

pub sum-append :
    (xs ys : List (ℕ × ℕ)) → sum (values (xs ++ ys)) ≡ sum (values xs) + sum (values ys)
unfolding sum
sum-append [] ys = omega arith
sum-append (x ∷ xs) ys = omega (arith, sum-append xs ys)

-- Of distinct entries, the total of an asset is its amount.
pub total-Distinct : (a : ℕ) (m : Amounts) → Distinct m → total a m ≡ amount a m
unfolding total get
total-Distinct a [] d = refl
total-Distinct a ((b, v) ∷ m) d = ground (arith, total-Distinct a m d.1, nat_beq_iff b a)

without : ℕ → List (ℕ × ℕ) → List (ℕ × ℕ)
without a [] = []
without a ((b, v) ∷ xs) = let rest = without a xs in if nat_beq b a then rest else (b, v) ∷ rest

sum-without :
    (a : ℕ) (xs : List (ℕ × ℕ)) → sum (values xs) ≡ total a xs + sum (values (without a xs))
unfolding sum total without
sum-without a [] = refl
sum-without a ((b, v) ∷ xs) = ground (arith, sum-without a xs)

total-without :
    (a c : ℕ) (xs : List (ℕ × ℕ)) → total c (without a xs) ≡ (if nat_beq a c then 0 else total c xs)
unfolding total without
total-without a c [] = ground arith
total-without a c ((b, v) ∷ xs) =
    ground (arith, total-without a c xs, nat_beq_iff b a, nat_beq_iff b c, nat_beq_iff a c)

length-without : (a : ℕ) (xs : List (ℕ × ℕ)) → length (without a xs) ≤ length xs
unfolding without
length-without a [] = omega arith
length-without a (x ∷ xs) = ground (arith, length-without a xs)

sum_zero : (xs : List (ℕ × ℕ)) → ((a : ℕ) → total a xs ≡ 0) → sum (values xs) ≡ 0
unfolding sum total
sum_zero [] h = refl
sum_zero ((b, v) ∷ xs) h =
    ground (arith, sum_zero xs (λ a. ground (arith, h a)), h b, nat_beq_iff b b)

sums_equal :
    (n : ℕ) (xs ys : List (ℕ × ℕ))
    → length xs ≤ n
    → ((a : ℕ) → total a xs ≡ total a ys)
    → sum (values xs) ≡ sum (values ys)
unfolding total sum without
sums_equal n [] ys k h = sym (sum_zero ys (λ a. sym (h a)))
sums_equal zero (x ∷ xs) ys k h = absurd (omega (arith, k))
sums_equal (suc n) ((a, v) ∷ xs) ys k h =
    let less =
      sums_equal n (without a xs) (without a ys) (omega (arith, k, length-without a xs))
        (λ c. ground (arith, h c, total-without a c xs, total-without a c ys, nat_beq_iff a c)) in
    ground (arith, less, sum-without a xs, sum-without a ys, h a, nat_beq_iff a a)

pub sum-total :
    (xs ys : List (ℕ × ℕ)) → ((a : ℕ) → total a xs ≡ total a ys) → sum (values xs) ≡ sum (values ys)
sum-total xs ys h = sums_equal (length xs) xs ys (omega arith) h

pub has-total : (a : ℕ) (xs : List (ℕ × ℕ)) → has a xs ≡ false → total a xs ≡ 0
unfolding has total
has-total a [] h = refl
has-total a ((b, v) ∷ xs) h = ground (arith, has-total a xs)

pub total-le-sum : (a : ℕ) (xs : List (ℕ × ℕ)) → total a xs ≤ sum (values xs)
total-le-sum a xs = omega (arith, sum-without a xs)

-- An asset of which there is nothing does not occur, where no amount is 0.
pub has-positive :
    (a : ℕ) (xs : List (ℕ × ℕ))
    → All (λ (e : ℕ × ℕ). 0 < e.1) xs
    → total a xs ≡ 0
    → has a xs ≡ false
unfolding has total
has-positive a [] p h = refl
has-positive a ((b, v) ∷ xs) p h = ground (arith, has-positive a xs p.1, p.0)
