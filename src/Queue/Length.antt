-- ===== src/Queue/Length.antt =====
-- LinkedQueue::length on what a LinkedQueue holds.
use xbee_mqtt.Base.{
  ℕ, zero, suc, ◌+◌, ap, ◌∙◌, ◌≤◌, ◌≡◌, refl, Option, none, some, List, [], ◌∷◌, arith,
}
use xbee_mqtt.Base
use xbee_mqtt.Queue.Node.{Pointer, Memory}
use xbee_mqtt.Queue.Linked.{LinkedQueue, count_from, length}
use xbee_mqtt.Queue.Chain.{Cells, first, Chain}
use xbee_mqtt.Queue.Contents.{Holds}

module _ {A : Type 0} where
  count_from_lem :
      (fuel : ℕ) (m : Memory A) (prev : Pointer) (xs : Cells A) (len : ℕ)
      → Base.length xs ≤ fuel
      → Chain m prev xs
      → count_from fuel (first xs) m len ≡ some (len + Base.length xs)
  unfolding count_from
  count_from_lem fuel m prev [] len k c = ground arith
  count_from_lem zero m prev ((p, v) ∷ xs) len k c = ground arith
  count_from_lem (suc fuel) m prev ((p, v) ∷ xs) len k c =
      let (l, b, w, e, out, rest) = c in
      rw e (rw (count_from_lem fuel m (some p) xs (len + 1) (omega arith) rest) (ground arith))

  -- `length` counts what a LinkedQueue holds, in as many rounds of its loop as there are elements.
  pub length-Holds :
      (n fuel : ℕ) (q : LinkedQueue A) (xs : Cells A)
      → Holds n q xs
      → Base.length xs ≤ fuel
      → length fuel q ≡ some (Base.length xs)
  unfolding length
  length-Holds n fuel q xs h k =
      rw h.tail (count_from_lem fuel q.memory h.anchor xs 0 k h.chain ∙ ap some (omega arith))
