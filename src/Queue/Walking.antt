-- ===== src/Queue/Walking.antt =====
-- A client of a LinkedQueue that walks from peakNode() on by next(), and the element that it comes to.
use xbee_mqtt.Base.{
  ℕ, zero, suc, ◌≤◌, ◌<◌, ◌≡◌, ◌⊎◌, inl, inr, refl, ap, Option, none, some, [], ◌∷◌, ◌++◌, arith,
}
use xbee_mqtt.Base
use xbee_mqtt.Queue.Node.{Pointer, Memory}
use xbee_mqtt.Queue.Chain.{Cells, first, Chain}

module _ {A : Type 0} where
  -- `next()` called `i` times, up to nullptr.
  unfoldable pub walk : ℕ → Memory A → Pointer → Pointer
  walk i m none = none
  walk zero m (some p) = some p
  walk (suc i) m (some p) = walk i m (m p).next

  -- The element at a place of the cells, with those around it; or there is none.
  abbrev pub Reaches : ℕ → Cells A → Pointer → Type 0
  Reaches i xs r =
      ((ys : Cells A) × (p : ℕ) × (v : A) × (zs : Cells A) × (r ≡ some p)
        × (xs ≡ ys ++ (p, v) ∷ zs)
        × (Base.length ys ≡ i))
      ⊎ ((r ≡ none) × (Base.length xs ≤ i))

  Reaches-cons :
      (i : ℕ) (x : ℕ × A) (xs : Cells A) (r : Pointer) → Reaches i xs r → Reaches (suc i) (x ∷ xs) r
  Reaches-cons i x xs r (inl (ys, p, v, zs, e, f, k)) =
      inl (x ∷ ys, p, v, zs, e, ap (λ ws. x ∷ ws) f, ap suc k)
  Reaches-cons i x xs r (inr (e, k)) = inr (e, omega arith)

  -- A walk along a chain comes to the element at its place, or past the end.
  pub walk-Reaches :
      (i : ℕ) (m : Memory A) (prev : Pointer) (xs : Cells A)
      → Chain m prev xs
      → Reaches i xs (walk i m (first xs))
  unfolding walk
  walk-Reaches i m prev [] c = inr (refl, omega arith)
  walk-Reaches zero m prev ((p, v) ∷ xs) c = inl ([], p, v, xs, refl, refl, refl)
  walk-Reaches (suc i) m prev ((p, v) ∷ xs) c =
      let (l, b, w, next, out, rest) = c in
      rw next (Reaches-cons i (p, v) xs _ (walk-Reaches i m (some p) xs rest))
