-- ===== src/Queue/Pointers.antt =====
-- The pointers among the slots of a StaticQueue, before and after a node is linked or unlinked.
use xbee_mqtt.Base.{
  ℕ, ◌<◌, ◌≡◌, inl, inr, sym, subst, Bool-cases, refl, true, false, none, [], ◌∷◌, ◌++◌, arith,
  ◌==◌,
}
use xbee_mqtt.Queue.Node.{Memory, Node, unlink}
use xbee_mqtt.Queue.Chain.{Cells, has, Chain, unlink-spares, ne_of_has}
use xbee_mqtt.Queue.Unlinking.{unlink_self, unlink-Chain, neighbours_out}
use xbee_mqtt.Queue.Appending.{
  EndsAt, has_end, ne_of_lacks, placed, placed_self, placed-new, placed-last, placed-Chain,
}
use xbee_mqtt.Queue.Filling.{placed_others}
use xbee_mqtt.Queue.Splitting.{has_with}

module _ {A : Type 0} where
  -- No pointers lead from the node.
  abbrev pub IsAlone : Node A → Type 0
  IsAlone x = (x.next ≡ none) × (x.prev ≡ none)

  abbrev pub IsFree : Node A → Type 0
  IsFree x = (x.linked ≡ false) × IsAlone x

  -- All the pointers among the n slots are those of one chain.
  abbrev pub OneChain : ℕ → Memory A → Cells A → Type 0
  OneChain n m xs = Chain m none xs × ((p : ℕ) → p < n → has p xs ≡ false → IsAlone (m p))

  -- What holds of the node that was unlinked, and of the others, holds of all.
  pub unlink_every :
      (P : Node A → Type 0) (m : Memory A) (i p : ℕ)
      → P (record (m i) { linked = false; next = none; prev = none })
      → ((p == i) ≡ false → P (unlink i m p))
      → P (unlink i m p)
  unlink_every P m i p here there = elim (Bool-cases (p == i)) [
    | inl same ↦
        let at : i ≡ p = ground arith in
        subst (λ a. P (unlink i m a)) at (subst P (sym (unlink_self m i)) here)
    | inr other ↦ there other
  ]

  has-append_parts :
      (p c : ℕ) (v : A) (xs : Cells A)
      → has p (xs ++ (c, v) ∷ []) ≡ false
      → (has p xs ≡ false) × ((p == c) ≡ false)
  has-append_parts p c v [] h = ground arith
  has-append_parts p c v ((b, w) ∷ xs) h = ground (arith, has-append_parts p c v xs)

module _ {A : Type 0} (n : ℕ) (m : Memory A) (h c : ℕ) (v : A) where
  -- A new node behind the last of the chain.
  pub placed-OneChain :
      (p : ℕ) (u : A) (xs : Cells A)
      → OneChain n m ((p, u) ∷ xs)
      → EndsAt h ((p, u) ∷ xs)
      → has c ((p, u) ∷ xs) ≡ false
      → OneChain n (placed m h c v) ((p, u) ∷ xs ++ (c, v) ∷ [])
  placed-OneChain p u xs one e out =
      let here = has_end h p u xs e in
      let apart : (h == c) ≡ false = ne_of_has h c ((p, u) ∷ xs) here out in
      (
        placed-Chain m h c v apart p u xs none one.0 e out,
        λ a k l.
            let (o, other) = has-append_parts a c v ((p, u) ∷ xs) l in
            rw (placed_others n m h c a v (ne_of_lacks a h ((p, u) ∷ xs) o here) other)
              (one.1 a k o),
      )

  -- A new node behind one that no pointers lead from, or at its place.
  pub placed-alone :
      ((a : ℕ) → a < n → IsAlone (m a))
      → h < n
      → (h == c) ≡ false
      → OneChain n (placed m h c v) ((h, (m h).value) ∷ (c, v) ∷ [])
  placed-alone all k apart =
      let new = placed-new m h c v apart in
      let last = placed-last m h c v apart in
      let (next, prev) = all h k in
      (
        (
          ground (arith, last),
          ground (arith, last),
          ground (arith, last),
          ground (arith, last),
          ground arith,
          (
            ground (arith, new),
            ground (arith, new),
            ground (arith, new),
            ground (arith, new),
            refl,
            tt,
          ),
        ),
        λ a l o. rw (placed_others n m h c a v (ground arith) (ground arith)) (all a l),
      )

  pub placed-again :
      ((a : ℕ) → a < n → IsAlone (m a))
      → (h == c) ≡ true
      → OneChain n (placed m h c v) ((c, v) ∷ [])
  placed-again all same =
      let new = placed_self m h c v same in
      (
        (
          ground (arith, new),
          ground (arith, new),
          ground (arith, new),
          ground (arith, new),
          refl,
          tt,
        ),
        λ a l o. rw (placed_others n m h c a v (ground arith) (ground arith)) (all a l),
      )

module _ {A : Type 0} (m : Memory A) (i : ℕ) (v : A) (xs ys : Cells A)
    (chain : Chain m none (xs ++ (i, v) ∷ ys)) where
  -- Taking a node out of a chain spares what is not in the chain.
  pub unlink_spared : (a : ℕ) → (a == i) ≡ false → has a (xs ++ ys) ≡ false → unlink i m a ≡ m a
  unlink_spared a k l =
      let (apart, next, prev) =
        neighbours_out m i v ys none xs a chain refl (has_with i a v xs ys l k) in
      unlink-spares m i a apart next prev

module _ {A : Type 0} (n : ℕ) (m : Memory A) (i : ℕ) (v : A) where
  pub unlink-OneChain :
      (xs ys : Cells A) → OneChain n m (xs ++ (i, v) ∷ ys) → OneChain n (unlink i m) (xs ++ ys)
  unlink-OneChain xs ys one = (
    unlink-Chain m i v xs ys none one.0 refl,
    λ p k l.
        unlink_every IsAlone m i p (refl, refl)
          (λ e. rw (unlink_spared m i v xs ys one.0 p e l) (one.1 p k (has_with i p v xs ys l e))),
  )
