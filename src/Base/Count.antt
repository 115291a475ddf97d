-- ===== src/Base/Count.antt =====
-- How many of the first numbers have a flag.
use Prim.Native.Nat.{ℕ, zero, suc, ◌+◌, ◌≤◌, ◌<◌}
use mathlib.Core.Path.{◌≡◌, refl}
use mathlib.Core.Logic.{inl, inr}
use mathlib.Core.Bool.{Bool, true, false}
use native.Mathlib.Omega.{arith}
use vnt.Base.Tests.{◌==◌, if◌then◌else◌, ==_iff, Bool-cases, ltb}

abbrev pub count_below : (ℕ → Bool) → ℕ → ℕ
count_below f zero = 0
count_below f (suc n) = count_below f n + (if f n then 1 else 0)

abbrev pub mark : (ℕ → Bool) → ℕ → ℕ → Bool
mark f c i = if i == c then true else f i

pub count_below-le : (f : ℕ → Bool) (n : ℕ) → count_below f n ≤ n
count_below-le f zero = omega arith
count_below-le f (suc n) = let h = count_below-le f n in ground arith

count_below-mark_above :
    (f : ℕ → Bool) (c n : ℕ) → n ≤ c → count_below (mark f c) n ≡ count_below f n
count_below-mark_above f c zero h = refl
count_below-mark_above f c (suc n) h =
    let k = count_below-mark_above f c n (omega arith) in ground arith

pub count_below-mark :
    (f : ℕ → Bool) (c n : ℕ) → c < n → f c ≡ false → count_below (mark f c) n ≡ count_below f n + 1
count_below-mark f c zero h v = absurd (omega arith)
count_below-mark f c (suc n) h v = elim (Bool-cases (n == c)) [
  | inl at ↦
      let e = (==_iff n c).0 at in
      let k = count_below-mark_above f c n (omega arith) in
      let v' : f n ≡ false = rw e v in ground arith
  | inr below ↦ let k = count_below-mark f c n (ground arith) v in ground arith
]

pub count_below_full : (f : ℕ → Bool) (n : ℕ) → count_below f n ≡ n → (i : ℕ) → i < n → f i ≡ true
count_below_full f zero h i lt = absurd (omega arith)
count_below_full f (suc n) h i lt =
    let bound = count_below-le f n in
    elim (Bool-cases (i == n)) [
      | inl at ↦ rw ((==_iff i n).0 at) (ground arith)
      | inr below ↦ count_below_full f n (ground arith) i (ground arith)
    ]

pub count_below_none : (n : ℕ) → count_below (λ i. false) n ≡ 0
count_below_none zero = refl
count_below_none (suc n) = let k = count_below_none n in ground arith

pub count_below_mono : (f : ℕ → Bool) (m n : ℕ) → m ≤ n → count_below f m ≤ count_below f n
count_below_mono f m zero h = let e : m ≡ 0 = omega arith in rw e (omega arith)
count_below_mono f m (suc n) h = elim (Bool-cases (m == suc n)) [
  | inl at ↦ rw ((==_iff m (suc n)).0 at) (omega arith)
  | inr below ↦ let k = count_below_mono f m n (ground arith) in ground arith
]

pub count_below_strict :
    (f : ℕ → Bool) (m n : ℕ) → m < n → f m ≡ true → count_below f m < count_below f n
count_below_strict f m n h on = let k = count_below_mono f (suc m) n (omega arith) in ground arith

-- The flagged number that has `j` flagged ones below it.
pub count_below_select :
    (f : ℕ → Bool) (n j : ℕ)
    → j < count_below f n
    → (i : ℕ) × (i < n) × (f i ≡ true) × (count_below f i ≡ j)
count_below_select f zero j h = absurd (omega arith)
count_below_select f (suc n) j h = elim (Bool-cases (ltb j (count_below f n))) [
  | inl lt ↦ let k = count_below_select f n j (ground arith) in (k.0, omega (arith, k.1), k.2, k.3)
  | inr ge ↦ (n, omega arith, ground arith, ground arith)
]
