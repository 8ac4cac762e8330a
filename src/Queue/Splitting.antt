-- ===== src/Queue/Splitting.antt =====
-- One element of a chain and the cells around it.
use xbee_mqtt.Base.{
  ℕ, ◌≡◌, inl, inr, ap, true, false, Option, some, [], ◌∷◌, ◌++◌, arith, ◌==◌, Bool-cases,
}
use xbee_mqtt.Queue.Node.{Memory}
use xbee_mqtt.Queue.Chain.{Cells, has, Chain}
use xbee_mqtt.Queue.Removal.{has_at}

module _ {A : Type 0} where
  pub has-split :
      (p : ℕ) (xs : Cells A)
      → has p xs ≡ true
      → (ys : Cells A) × (v : A) × (zs : Cells A) × (xs ≡ ys ++ (p, v) ∷ zs)
  has-split p [] h = absurd (ground arith)
  has-split p ((a, u) ∷ xs) h = elim (Bool-cases (p == a)) [
    | inl same ↦ let at : a ≡ p = ground arith in ([], u, xs, ap (λ b. (b, u) ∷ xs) at)
    | inr other ↦
        let (ys, v, zs, e) = has-split p xs (ground arith) in
        ((a, u) ∷ ys, v, zs, ap (λ r. (a, u) ∷ r) e)
  ]

  pub removed_out :
      (m : Memory A) (p : ℕ) (v : A) (xs ys : Cells A) (prev : Option ℕ)
      → Chain m prev (xs ++ (p, v) ∷ ys)
      → has p (xs ++ ys) ≡ false
  removed_out m p v [] ys prev c = c.4
  removed_out m p v ((a, u) ∷ xs) ys prev c =
      let rest = removed_out m p v xs ys (some a) c.5 in
      let at : has p (xs ++ (p, v) ∷ ys) ≡ true = has_at m p v xs ys in ground (arith, c.4)

  pub has_with :
      (p a : ℕ) (v : A) (xs ys : Cells A)
      → has a (xs ++ ys) ≡ false
      → (a == p) ≡ false
      → has a (xs ++ (p, v) ∷ ys) ≡ false
  has_with p a v [] ys h k = ground arith
  has_with p a v ((b, w) ∷ xs) ys h k = ground (arith, has_with p a v xs ys)
