-- ===== src/Tests/Reports.antt =====
-- Floats with six decimals, and the reports that `main` makes with them.
use Prim.Native.Nat.{◌%◌, ◌/◌, ◌^◌, ◌*◌}
use xbee_mqtt.Base.{
  ℕ, zero, suc, ◌+◌, ◌-◌, ◌≤◌, ◌≡◌, inl, inr, refl, subst, Bool, true, ◌&&◌, List, [], ◌∷◌, ◌++◌,
  length, ltb, leb, ◌==◌, if◌then◌else◌, u32, ℤ, pos, negsuc, ◌+ℤ◌, ◌-ℤ◌, arith, codes, Bool-cases,
}
use xbee_mqtt.Firmware.Report.{ReportLibrary, report_text}
use xbee_mqtt.Firmware.Fitting.{lat_after, lon_after, Narrow}

-- The decimal digits of a number: the last `n` of them, and all of them.
abbrev last_digits : ℕ → ℕ → List ℕ
last_digits zero k = []
last_digits (suc n) k = last_digits n (k / 10) ++ (48 + k % 10) ∷ []

abbrev digits : ℕ → ℕ → List ℕ
digits zero k = []
digits (suc fuel) k =
    let rest = digits fuel (k / 10) in
    if ltb k 10 then (48 + k) ∷ [] else rest ++ (48 + k % 10) ∷ []

abbrev decimal : ℕ → List ℕ
decimal k = digits 8 (k / 1000000) ++ b'.' ∷ last_digits 6 k

abbrev signed : ℤ → List ℕ
signed (pos k) = decimal k
signed (negsuc k) = b'-' ∷ decimal (k + 1)

abbrev pub stamp : List ℕ
stamp = codes "2023-05-09T13:05:59Z"

-- A float is a number of millionths; the clock of `strftime` stands still.
abbrev pub reports : ReportLibrary
reports = record {
  Float = ℤ;
  constant = λ k places. pos (k * 10 ^ (6 - places));
  plus_constant = λ x k places. x +ℤ pos (k * 10 ^ (6 - places));
  minus_constant = λ x k places. x -ℤ pos (k * 10 ^ (6 - places));
  show_float = signed;
  show_int = digits 10;
  timestamp = λ _. stamp;
}

abbrev widths : ℕ → ℕ
widths k =
    length (reports.show_float (lat_after reports k))
    + length (reports.show_float (lon_after reports k))
    + length (reports.show_int (u32 k))

abbrev all_at_most : ℕ → (ℕ → ℕ) → ℕ → Bool
all_at_most b f zero = leb (f zero) b
all_at_most b f (suc n) = leb (f (suc n)) b && all_at_most b f n

all_at_most_lem : (b : ℕ) (f : ℕ → ℕ) (n k : ℕ) → all_at_most b f n ≡ true → k ≤ n → f k ≤ b
all_at_most_lem b f zero k h le =
    let e : 0 ≡ k = omega arith in subst (λ j. f j ≤ b) e (ground (arith, h))
all_at_most_lem b f (suc n) k h le = elim (Bool-cases (k == suc n)) [
  | inl same ↦ let e : suc n ≡ k = ground arith in subst (λ j. f j ≤ b) e (ground (arith, h))
  | inr other ↦ all_at_most_lem b f n k (ground (arith, h)) (ground arith)
]

widths_20 : all_at_most 36 widths 20 ≡ true
unfolding ◌+ℤ◌ ◌-ℤ◌
widths_20 = refl

pub narrow : (epoch : ℤ) → Narrow reports epoch 20
narrow epoch = record {
  times = λ now. omega arith;
  numbers = λ k le. all_at_most_lem 36 widths 20 k widths_20 le;
}

first_report :
    report_text reports (reports.constant 150 1) (reports.constant 300 1) stamp 0 b','
    ≡ codes
        "{\"device_id\":\"tonitrus\",\"latitude\":15.000000,\"longitude\":30.000000,\"robotState\":\"Error\",\"timestamp\":\"2023-05-09T13:05:59Z\",\"cnt\":0},"
unfolding report_text
first_report = refl
