-- ===== src/Firmware/Filling.antt =====
-- What the BRIDGE_DESTINATION build publishes.
use xbee_mqtt.Base.{
  ℕ, zero, suc, ◌+◌, ◌*◌, ◌≤◌, ◌≡◌, ◌∙◌, refl, sym, ap, List, [], ◌∷◌, ◌++◌, length, take, take-all,
  arith,
}
use mathlib.Core.List.{append-nil, append_assoc}
use xbee_mqtt.Firmware.Report.{write_at}
use xbee_mqtt.Firmware.Writing.{take-write_at, length-write_at}
use xbee_mqtt.Firmware.Bridge.{fill}

-- `n` times a blank, a zero and a NUL.
abbrev pub blanks : ℕ → List ℕ
blanks zero = []
blanks (suc n) = b' ' ∷ b'0' ∷ 0 ∷ blanks n

fill_lem :
    (n i : ℕ) (cnt_s : List ℕ)
    → i * 3 + n * 3 ≤ length cnt_s
    → (take (i * 3 + n * 3) (fill n i cnt_s) ≡ take (i * 3) cnt_s ++ blanks n)
      × (length (fill n i cnt_s) ≡ length cnt_s)
unfolding fill
fill_lem zero i cnt_s h =
    let none_left : i * 3 + 0 ≡ i * 3 = omega arith in
    (ap (λ k. take k cnt_s) none_left ∙ sym (append-nil (take (i * 3) cnt_s)), refl)
fill_lem (suc n) i cnt_s h =
    let entry : List ℕ = b' ' ∷ b'0' ∷ 0 ∷ [] in
    let written : List ℕ = write_at (i * 3) entry cnt_s in
    let size : length written ≡ length cnt_s = length-write_at (i * 3) entry cnt_s (omega arith) in
    let place : i * 3 + suc n * 3 ≡ (i + 1) * 3 + n * 3 = omega arith in
    let next : (i + 1) * 3 ≡ i * 3 + 3 = omega arith in
    let (filled, kept) = fill_lem n (i + 1) written (omega arith) in
    (
      ap (λ k. take k (fill n (i + 1) written)) place
          ∙ filled
          ∙ ap (λ k. take k written ++ blanks n) next
          ∙ ap (λ ys. ys ++ blanks n)
              (take-write_at (i * 3) 3 entry cnt_s (omega arith) (omega arith))
          ∙ append_assoc (take (i * 3) cnt_s) entry (blanks n),
      kept ∙ size,
    )

-- Whatever memory held for `cnt_s`, its 192 bytes are filled with 64 times a blank, a zero and a NUL:
-- the numbers are not printed.
pub fill-blanks : (cnt_s : List ℕ) → length cnt_s ≡ 192 → fill 64 0 cnt_s ≡ blanks 64
fill-blanks cnt_s h =
    let (filled, kept) = fill_lem 64 0 cnt_s (omega arith) in
    sym (take-all (fill 64 0 cnt_s) 192 (omega arith)) ∙ filled
