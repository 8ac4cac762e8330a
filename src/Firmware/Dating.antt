-- ===== src/Firmware/Dating.antt =====
-- The date in the firmware: the month of the compile time, and the time that a report bears.
use xbee_mqtt.Base.{
  ◌∙◌, ap, ℕ, zero, suc, ◌-◌, ◌*◌, ◌/◌, ◌%◌, ◌^◌, ◌<◌, ◌≡◌, ◌⊎◌, inl, inr, refl, Bool, true, false,
  ◌&&◌, Option, none, some, List, [], ◌∷◌, take, drop, arith, if◌then◌else◌, ltb, ◌==◌, u32, ℤ, pos,
  ◌+ℤ◌, ◌-ℤ◌, ◌/ℤ◌, int32,
}
use xbee_mqtt.Firmware.Epoch.{TimeLibrary, mon, compile_tm, compile_epoch, report_time}

-- `text` begins with `word`.
abbrev pub begins : List ℕ → List ℕ → Bool
begins text [] = true
begins [] (c ∷ word) = false
begins (d ∷ text) (c ∷ word) = d == c && begins text word

-- The first place from `i` on where the word stands.
abbrev pub search : ℕ → List ℕ → List ℕ → Option ℕ
search i [] word = if begins [] word then some i else none
search i (d ∷ text) word =
    let rest = search (suc i) text word in if begins (d ∷ text) word then some i else rest

-- What the C standard says of `strstr` where the word occurs.
abbrev pub FindsFirst : (List ℕ → List ℕ → ℤ) → Type 0
FindsFirst strstr =
    (text word : List ℕ) (i : ℕ) → search 0 text word ≡ some i → strstr text word ≡ pos i

-- The name of the k-th month, counted from 0.
abbrev pub month_name : ℕ → List ℕ
month_name k = take 3 (drop (3 * k) mon)

-- A test of the numbers below `n`.
all_below : ℕ → (ℕ → Bool) → Bool
all_below zero test = true
all_below (suc n) test = test n && all_below n test

all_below_lem :
    (n : ℕ) (test : ℕ → Bool) → all_below n test ≡ true → (k : ℕ) → k < n → test k ≡ true
unfolding all_below
all_below_lem zero test all k h = absurd (omega arith)
all_below_lem (suc n) test all k h = elim (nat-cases k n (omega arith)) [
  | inl e ↦ rw e (ground (arith, all))
  | inr less ↦ all_below_lem n test (ground (arith, all)) k less
]
  where
    nat-cases : (k n : ℕ) → k < suc n → (k ≡ n) ⊎ (k < n)
    nat-cases k n h = omega arith

is_some : ℕ → Option ℕ → Bool
is_some i none = false
is_some i (some j) = i == j

is_some_lem : (i : ℕ) (o : Option ℕ) → is_some i o ≡ true → o ≡ some i
unfolding is_some
is_some_lem i none h = cc
is_some_lem i (some j) h = ground arith

month_place : (k : ℕ) → k < 12 → search 0 mon (month_name k) ≡ some (3 * k)
unfolding all_below is_some
month_place k h =
    is_some_lem (3 * k) _
      (all_below_lem 12 (λ k. is_some (3 * k) (search 0 mon (month_name k))) refl k h)

-- What `mktime` is given for the k-th month, counted from 0.
compile_tm-month :
    (T : TimeLibrary) (compile_time : List ℕ) (k : ℕ)
    → FindsFirst T.strstr
    → k < 12
    → (T.sscanf compile_time).word ≡ month_name k
    → let scanned = T.sscanf compile_time in
      compile_tm T compile_time ≡ record {
        tm_sec = scanned.fifth;
        tm_min = scanned.fourth;
        tm_hour = scanned.third;
        tm_mday = scanned.first;
        tm_mon = pos k;
        tm_year = scanned.second -ℤ pos 1900;
      }
unfolding compile_tm ◌/ℤ◌
compile_tm-month T compile_time k first_place h e =
    let place : T.strstr mon (T.sscanf compile_time).word ≡ pos (3 * k) =
      rw e (first_place mon (month_name k) (3 * k) (month_place k h)) in
    let third : 3 * k / 3 ≡ k = omega arith in rw (place, third) refl

-- The time of a report, by the half of the clock's turn that it falls into.
report_time_lem :
    (epoch : ℤ) (d : ℕ)
    → let ms = d % 2 ^ 32 in
      report_time epoch (u32 d)
      ≡ (if ltb ms (2 ^ 31) then epoch +ℤ pos (ms / 1000) else epoch -ℤ pos ((2 ^ 32 - ms) / 1000))
unfolding report_time ◌/ℤ◌ int32 ◌+ℤ◌ ◌-ℤ◌
report_time_lem epoch d = ground arith

-- If `strstr` finds the first place of a word and `sscanf` reads the name of the k-th month, counted
-- from 0, then `d` milliseconds after the start of the clock a report bears what `mktime` makes of
-- month k, of the year counted from 1900 and of the day and the time of day as they were read, and the
-- whole seconds of `d`; but only for the first 2 ^ 31 ms (24 days, 20 hours and 31 minutes). For the
-- next 2 ^ 31 ms it bears a time before that, by the seconds that are left until 2 ^ 32 ms; and so on
-- with each turn of the clock.
pub report_date :
    (T : TimeLibrary) (compile_time : List ℕ) (k d : ℕ)
    → FindsFirst T.strstr
    → k < 12
    → (T.sscanf compile_time).word ≡ month_name k
    → let scanned = T.sscanf compile_time in
      let compiled : ℤ = T.mktime (record {
        tm_sec = scanned.fifth;
        tm_min = scanned.fourth;
        tm_hour = scanned.third;
        tm_mday = scanned.first;
        tm_mon = pos k;
        tm_year = scanned.second -ℤ pos 1900;
      }) in
      let ms = d % 2 ^ 32 in
      report_time (compile_epoch T compile_time) (u32 d) ≡ (
        if ltb ms (2 ^ 31)
        then compiled +ℤ pos (ms / 1000)
        else compiled -ℤ pos ((2 ^ 32 - ms) / 1000))
unfolding compile_epoch
report_date T compile_time k d first_place h e =
    ap (λ tm. report_time (T.mktime tm) (u32 d)) (compile_tm-month T compile_time k first_place h e)
    ∙ report_time_lem _ d
