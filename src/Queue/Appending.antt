-- ===== src/Queue/Appending.antt =====
-- LinkedNode::link of a new node behind the last one of a chain.
use xbee_mqtt.Base.{ℕ, ◌≡◌, refl, true, false, none, some, [], ◌∷◌, ◌++◌, arith, ◌==◌}
use xbee_mqtt.Queue.Node.{Pointer, Memory, new_node, update, link}
use xbee_mqtt.Queue.Chain.{Cells, has, Chain}

module _ {A : Type 0} where
  -- The last cell, if there is one, stands at `h`.
  abbrev pub EndsAt : ℕ → Cells A → Type 0
  EndsAt h [] = Unit {0}
  EndsAt h ((p, v) ∷ []) = h ≡ p
  EndsAt h ((p, v) ∷ y ∷ ys) = EndsAt h (y ∷ ys)

  pub has_end :
      (h p : ℕ) (v : A) (xs : Cells A) → EndsAt h ((p, v) ∷ xs) → has h ((p, v) ∷ xs) ≡ true
  has_end h p v [] e = ground arith
  has_end h p v ((b, w) ∷ xs) e = ground (arith, has_end h b w xs e)

  pub ne_of_lacks : (a b : ℕ) (xs : Cells A) → has a xs ≡ false → has b xs ≡ true → (a == b) ≡ false
  ne_of_lacks a b xs h k = ground arith

  pub has-append :
      (a c : ℕ) (v : A) (xs : Cells A)
      → has a xs ≡ false
      → (a == c) ≡ false
      → has a (xs ++ (c, v) ∷ []) ≡ false
  has-append a c v [] h k = ground arith
  has-append a c v ((b, w) ∷ xs) h k = ground (arith, has-append a c v xs)

  pub EndsAt-append : (c : ℕ) (v : A) (xs : Cells A) → EndsAt c (xs ++ (c, v) ∷ [])
  EndsAt-append c v [] = refl
  EndsAt-append c v ((b, w) ∷ []) = refl
  EndsAt-append c v ((b, w) ∷ y ∷ ys) = EndsAt-append c v (y ∷ ys)

module _ {A : Type 0} (m : Memory A) (h c : ℕ) (v : A) where
  -- The memory after a new node was copied to `c` and linked behind `h`.
  abbrev pub placed : Memory A
  placed = (link h c (update c (λ _. new_node v) m)).1

  -- A node is not linked to itself.
  pub placed_self :
      (h == c) ≡ true → placed c ≡ record { linked = true; next = none; prev = none; value = v }
  unfolding link new_node
  placed_self e = ground arith

  module _ (apart : (h == c) ≡ false) where
    pub placed-new : placed c ≡ record { linked = true; next = none; prev = some h; value = v }
    unfolding link new_node
    placed-new = ground arith

    pub placed-last : placed h ≡ record (m h) { linked = true; next = some c }
    unfolding link new_node
    placed-last = ground arith

    pub placed-spares : (a : ℕ) → (a == h) ≡ false → (a == c) ≡ false → placed a ≡ m a
    unfolding link new_node
    placed-spares a k l = ground arith

    pub placed-Chain :
        (p : ℕ) (u : A) (xs : Cells A) (prev : Pointer)
        → Chain m prev ((p, u) ∷ xs)
        → EndsAt h ((p, u) ∷ xs)
        → has c ((p, u) ∷ xs) ≡ false
        → Chain placed prev ((p, u) ∷ xs ++ (c, v) ∷ [])
    placed-Chain p u [] prev ch e out = ground (arith, placed-new, placed-last)
    placed-Chain p u ((b, w) ∷ xs) prev ch e out =
        let (l, d, x, n, fresh, rest) = ch in
        let same =
          placed-spares p (ne_of_lacks p h ((b, w) ∷ xs) fresh (has_end h b w xs e))
            (ground arith) in
        (
          ground arith,
          ground arith,
          ground arith,
          ground arith,
          has-append p c v ((b, w) ∷ xs) fresh (ground arith),
          placed-Chain b w xs (some p) rest e (ground arith),
        )
