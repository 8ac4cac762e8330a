-- ===== src/Queue/Counting.antt =====
-- LinkedQueue::length of a StaticQueue.
use xbee_mqtt.Base.{
  ℕ, zero, suc, ◌+◌, ◌≤◌, ◌<◌, ◌≡◌, refl, sym, subst, true, false, Option, none, some, [], ◌∷◌,
  ◌++◌, arith, ◌==◌, Bool-cases, inl, inr, length-append,
}
use xbee_mqtt.Base
use xbee_mqtt.Queue.Node.{Memory, unlink}
use xbee_mqtt.Queue.Linked.{length}
use xbee_mqtt.Queue.Static.{StaticQueue}
use xbee_mqtt.Queue.Chain.{Cells, has, Chain, ne_of_has}
use xbee_mqtt.Queue.Unlinking.{unlink-Chain}
use xbee_mqtt.Queue.Splitting.{has-split, removed_out}
use xbee_mqtt.Queue.Length.{length-Holds}
use xbee_mqtt.Queue.Withdrawal.{Inside-without}
use xbee_mqtt.Queue.Sound.{Inside, Sound, led}

module _ {A : Type 0} where
  Inside-fewer : (n : ℕ) (xs : Cells A) → Inside (suc n) xs → has n xs ≡ false → Inside n xs
  Inside-fewer n xs i o p h = ground (arith, i p h, ne_of_has p n xs h o)

  length-Inside :
      (n : ℕ) (m : Memory A) (xs : Cells A) → Chain m none xs → Inside n xs → Base.length xs ≤ n
  length-Inside zero m [] c i = omega arith
  length-Inside zero m ((p, v) ∷ xs) c i = absurd (omega (arith, i p (ground arith)))
  length-Inside (suc n) m xs c i = elim (Bool-cases (has n xs)) [
    | inl here ↦
        let (ys, v, zs, e) = has-split n xs here in
        let c' : Chain m none (ys ++ (n, v) ∷ zs) = subst (Chain m none) e c in
        let i' : Inside (suc n) (ys ++ (n, v) ∷ zs) = subst (Inside (suc n)) e i in
        let rest = length-Inside n (unlink n m) (ys ++ zs) (unlink-Chain m n v ys zs none c' refl) (
          Inside-fewer n (ys ++ zs) (Inside-without (suc n) m n v ys zs i')
            (removed_out m n v ys zs none c')) in
        subst (λ ws. Base.length ws ≤ suc n) (sym e)
          (omega (arith, length-append ys ((n, v) ∷ zs), length-append ys zs))
    | inr out ↦ omega (arith, length-Inside n m xs c (Inside-fewer n xs i out))
  ]

  length-led : (lead : Option (ℕ × A)) (xs : Cells A) → Base.length xs ≤ Base.length (led lead xs)
  length-led none xs = omega arith
  length-led (some x) xs = omega arith

  -- `length` of a sound queue counts its elements, which are at most N_MEMB, in at most N_MEMB rounds
  -- of its loop.
  pub length-Sound :
      (n : ℕ) (q : StaticQueue A) (xs : Cells A)
      → Sound n q xs
      → (Base.length xs ≤ n) × (length n q.queue ≡ some (Base.length xs))
  length-Sound n q xs s =
      let all = length-Inside n q.queue.memory (led s.lead xs) s.one.0 s.inside in
      let few : Base.length xs ≤ n = omega (arith, length-led s.lead xs) in
      (few, length-Holds n n q.queue xs s.rep.holds few)
