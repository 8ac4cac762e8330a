-- ===== src/Queue/Leak.antt =====
-- LinkedQueue::enqueueNode on an empty queue, where `m_head` is a node that has left it.
use xbee_mqtt.Base.{
  ℕ, suc, ◌≡◌, true, false, none, some, [], ◌∷◌, refl, ap, ◌∙◌, sym, subst, arith, ◌==◌,
}
use xbee_mqtt.Queue.Node.{Pointer, Memory}
use xbee_mqtt.Queue.Static.{StaticQueue, insert, dequeue}
use xbee_mqtt.Queue.Appending.{placed, placed-last}
use xbee_mqtt.Queue.Contents.{enqueued, enqueued-Holds}
use xbee_mqtt.Queue.Removal.{dequeue_lem, unlink-linked}
use xbee_mqtt.Queue.Slots.{
  Represents, Ready, inserted, find_empty_slot_total, insert_at_lem, inserted-Represents,
}
use xbee_mqtt.Queue.Insertion.{insert_at_hand, slot_not_full}
use xbee_mqtt.Queue.Departure.{dequeue-Represents}

module _ {A : Type 0} (n : ℕ) where
  pub inserted-memory :
      (q : StaticQueue A) (r : Pointer) → (inserted n q r).queue.memory ≡ q.queue.memory
  inserted-memory q none = refl
  inserted-memory q (some i) = refl

  left_linked :
      (m : Memory A) (last left slot : ℕ) (v : A) {head : Pointer}
      → head ≡ some last
      → head ≡ some left
      → (left == slot) ≡ false
      → (placed m last slot v left).linked ≡ true
  left_linked m last left slot v h e apart = ground (arith, placed-last m left slot v apart)

  -- A linked node other than the one dequeued stays linked.
  dequeue-linked :
      (q : StaticQueue A) (p a : ℕ) (v : A)
      → Represents n q ((p, v) ∷ [])
      → (a == p) ≡ false
      → (q.queue.memory a).linked ≡ true
      → ((dequeue q).1.queue.memory a).linked ≡ true
  unfolding dequeue
  dequeue-linked q p a v h apart l =
      let e = dequeue_lem n q.queue p v [] h.holds in
      subst (λ m. (m a).linked ≡ true) (sym (ap (λ r. r.1.memory) e))
        (unlink-linked q.queue.memory p a apart l)

  -- An element put into an empty well-formed queue at another slot than the one that left last, and
  -- taken out again, leaves an empty well-formed queue in which the slot that left before it is linked.
  pub slot_leak :
      (q : StaticQueue A) (v : A) (slot left : ℕ)
      → Represents n q []
      → q.queue.m_head ≡ some left
      → q.m_next_available_slot ≡ some slot
      → (left == slot) ≡ false
      → (q' : StaticQueue A) × (insert n (suc n) v q ≡ some (true, q'))
        × ((dequeue q').0 ≡ some v)
        × Represents n (dequeue q').1 []
        × (((dequeue q').1.queue.memory left).linked ≡ true)
  slot_leak q v slot left h e k apart =
      let free : Ready q.queue.memory (some slot) = subst (Ready q.queue.memory) k h.ready in
      let full = slot_not_full n v [] q slot h.full k in
      let q1 : StaticQueue A = record q { queue = enqueued q.queue h.holds.last slot v } in
      let (r, s, found) = find_empty_slot_total n q1 h.index in
      let holds = enqueued-Holds n q.queue slot v free [] h.holds in
      let after = inserted-Represents n q1 ((slot, v) ∷ []) r holds h.index full s in
      let (value, empty) = dequeue-Represents n (inserted n q1 r) slot v [] after in
      (
        inserted n q1 r,
        insert_at_hand n v [] q slot k ∙ insert_at_lem n q [] slot v r h.holds full found,
        value,
        empty,
        dequeue-linked (inserted n q1 r) slot left v after apart (
            subst (λ m. (m left).linked ≡ true) (sym (inserted-memory q1 r))
              (left_linked q.queue.memory h.holds.last left slot v h.holds.head e apart)),
      )
