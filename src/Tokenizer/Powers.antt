-- ===== src/Tokenizer/Powers.antt =====
-- Powers of ten and the units of ethabi/src/token/lenient.rs.
use ethabi.Base.{
  ℕ, zero, suc, ◌+◌, ◌-◌, ◌*◌, ◌^◌, ◌≤◌, ◌<◌, ◌||◌, Bool-cases, some, none, Bytes, ◌≡◌, ap, ◌∙◌,
  inl, inr, arith, text, text_eq,
}
use ethabi.Tokenizer.Lenient.{unit_power}
use native.Mathlib.Nat.{pow-le-pow_right, pow-suc}

pub power_bound : (k : ℕ) → k ≤ 18 → 10 ^ k < 2 ^ 256
power_bound k h = let up : 10 ^ k ≤ 10 ^ 18 = pow-le-pow_right (omega arith) h in omega arith

pub bounded : (a k : ℕ) → some a ≡ some k → a ≤ 18 → k ≤ 18
bounded a k h b = let same : a ≡ k = cc in omega arith

pub unit_power_bound : (s : Bytes) (k : ℕ) → unit_power s ≡ some k → k ≤ 18
unfolding unit_power
unit_power_bound s k h = elim (Bool-cases (text_eq s (text "ether"))) [
  | inl e ↦ let h' : some 18 ≡ some k = (rw (e, unit_power) at h) in bounded 18 k h' (omega arith)
  | inr e ↦
      elim (Bool-cases
        (text_eq s (text "gwei") || text_eq s (text "nano") || text_eq s (text "nanoether"))) [
          | inl e2 ↦
              let h' : some 9 ≡ some k = (rw (e, e2, unit_power) at h) in
              bounded 9 k h' (omega arith)
          | inr e2 ↦ elim (Bool-cases (text_eq s (text "wei"))) [
            | inl e3 ↦
                let h' : some 0 ≡ some k = (rw (e, e2, e3, unit_power) at h) in
                bounded 0 k h' (omega arith)
            | inr e3 ↦ let h' : none ≡ some k = (rw (e, e2, e3, unit_power) at h) in absurd (cc)
          ]
        ]
]

pub products : (i f a b : ℕ) → (i * (a * b) + f * a) * b ≡ (i * b + f) * (a * b)
products i f a b = omega arith

pub swapped : (a b : ℕ) → a * b * 10 ≡ a * 10 * b
swapped a b = omega arith

pub add_back : (k l : ℕ) → l ≤ k → k ≡ k - l + l
add_back k l h = omega arith

pub power_of_sum : (m l : ℕ) → 10 ^ (m + l) ≡ 10 ^ m * 10 ^ l
power_of_sum zero l = let same : zero + l ≡ l = omega arith in rw same (omega arith)
power_of_sum (suc m) l =
    let rest = power_of_sum m l in
    let carry : suc m + l ≡ suc (m + l) = omega arith in
    let up = pow-suc 10 (m + l) in
    let one = pow-suc 10 m in rw (carry, up, one, rest) (swapped (10 ^ m) (10 ^ l))

pub scaled :
    (i f k l : ℕ) → l ≤ k → (i * 10 ^ k + f * 10 ^ (k - l)) * 10 ^ l ≡ (i * 10 ^ l + f) * 10 ^ k
scaled i f k l h =
    let split : 10 ^ k ≡ 10 ^ (k - l) * 10 ^ l =
      ap (λ n. 10 ^ n) (add_back k l h) ∙ power_of_sum (k - l) l in
    rw split (products i f (10 ^ (k - l)) (10 ^ l))
