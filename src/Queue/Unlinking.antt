-- ===== src/Queue/Unlinking.antt =====
-- LinkedNode::unlink on a node of a chain.
use xbee_mqtt.Base.{ℕ, ◌≡◌, true, false, none, some, [], ◌∷◌, ◌++◌, arith, ◌==◌}
use xbee_mqtt.Queue.Node.{Pointer, Memory, points_to, unlink}
use xbee_mqtt.Queue.Chain.{
  Cells, has, leads_into, Chain, Chain-frame, unlink-spares, points_to-first, ne_of_has,
  points_to_out,
}

module _ {A : Type 0} (m : Memory A) (p : ℕ) (v : A) (ys : Cells A) where
  -- The neighbours of a node in a chain are in the chain, or before it.
  pub neighbours_out :
      (prev : Pointer) (xs : Cells A) (a : ℕ)
      → Chain m prev (xs ++ (p, v) ∷ ys)
      → points_to a prev ≡ false
      → has a (xs ++ (p, v) ∷ ys) ≡ false
      → ((a == p) ≡ false) × (points_to a (m p).next ≡ false) × (points_to a (m p).prev ≡ false)
  neighbours_out prev [] a c h k =
      let (l, b, w, n, out, rest) = c in ground (arith, points_to-first a ys)
  neighbours_out prev ((b, w) ∷ xs) a c h k = ground (arith, neighbours_out (some b) xs a)

module _ {A : Type 0} (m : Memory A) (p : ℕ) where
  -- The node after it gets its `prev`, and the node before it its `next`.
  pub unlink-next :
      (n : ℕ)
      → (m p).next ≡ some n
      → (n == p) ≡ false
      → points_to n (m p).prev ≡ false
      → unlink p m n ≡ record (m n) { linked = true; prev = (m p).prev }
  unfolding unlink
  unlink-next n h k l = ground arith

  pub unlink-prev :
      (z : ℕ)
      → (m p).prev ≡ some z
      → (z == p) ≡ false
      → points_to z (m p).next ≡ false
      → unlink p m z ≡ record (m z) { linked = true; next = (m p).next }
  unfolding unlink
  unlink-prev z h k l = ground arith

  pub unlink_self : unlink p m p ≡ record (m p) { linked = false; next = none; prev = none }
  unfolding unlink
  unlink_self = ground arith

  pub unlink_first :
      (v : A) (ys : Cells A) (prev : Pointer)
      → Chain m prev ((p, v) ∷ ys)
      → leads_into prev ((p, v) ∷ ys) ≡ false
      → Chain (unlink p m) prev ys
  unlink_first v [] prev c h = tt
  unlink_first v ((n, w) ∷ ys) prev c h =
      let (l, b, u, e, out, rest) = c in
      let (l', b', u', e', out', rest') = rest in
      let apart : (n == p) ≡ false = ground arith in
      let away : (a : ℕ) → has a ((n, w) ∷ ys) ≡ true → points_to a (m p).prev ≡ false =
        (λ a i. rw b (points_to_out a prev ((p, v) ∷ (n, w) ∷ ys) (ground arith) h)) in
      let changed = unlink-next n e apart (away n (ground arith)) in
      let spared : (a : ℕ) → has a ys ≡ true → unlink p m a ≡ m a = (λ a i.
        unlink-spares m p a (ne_of_has a p ys i (ground arith)) (rw e (ne_of_has a n ys i out'))
          (away a (ground arith))) in
      (
        ground arith,
        ground arith,
        ground arith,
        ground arith,
        out',
        Chain-frame m (unlink p m) (some n) ys spared rest',
      )

  pub has_without :
      (v : A) (xs ys : Cells A) (a : ℕ)
      → has a (xs ++ (p, v) ∷ ys) ≡ false
      → has a (xs ++ ys) ≡ false
  has_without v [] ys a h = ground arith
  has_without v ((b, w) ∷ xs) ys a h = ground (arith, has_without v xs ys a)

  pub unlink-Chain :
      (v : A) (xs ys : Cells A) (prev : Pointer)
      → Chain m prev (xs ++ (p, v) ∷ ys)
      → leads_into prev (xs ++ (p, v) ∷ ys) ≡ false
      → Chain (unlink p m) prev (xs ++ ys)
  unlink-Chain v [] ys prev c h = unlink_first v ys prev c h
  unlink-Chain v ((a, u) ∷ []) ys prev c h =
      let (l, b, w, e, out, rest) = c in
      let changed =
        unlink-prev a rest.1 (ground arith) (rw rest.3 (points_to-first a ys (ground arith))) in
      (
        ground arith,
        ground arith,
        ground arith,
        ground (arith, rest.3),
        ground arith,
        unlink_first v ys (some a) rest out,
      )
  unlink-Chain v ((a, u) ∷ (b, t) ∷ xs) ys prev c h =
      let (l, d, w, e, out, rest) = c in
      let (apart, behind, before) =
        neighbours_out m p v ys (some b) xs a rest.5 (ground arith) (ground arith) in
      let spared = unlink-spares m p a apart behind before in
      (
        ground arith,
        ground arith,
        ground arith,
        ground arith,
        has_without v ((b, t) ∷ xs) ys a out,
        unlink-Chain v ((b, t) ∷ xs) ys (some a) rest out,
      )
