-- ===== src/Queue/Departure.antt =====
-- LinkedQueue::dequeue and LinkedQueue::remove of a StaticQueue.
use xbee_mqtt.Base.{ℕ, arith, ◌≡◌, inl, false, none, some, [], ◌∷◌, ◌++◌, ap}
use xbee_mqtt.Queue.Node.{Pointer, unlink}
use xbee_mqtt.Queue.Linked
use xbee_mqtt.Queue.Linked.{LinkedQueue}
use xbee_mqtt.Queue.Static.{StaticQueue, dequeue, remove}
use xbee_mqtt.Queue.Chain.{Cells}
use xbee_mqtt.Queue.Contents.{Holds}
use xbee_mqtt.Queue.Removal.{dequeue_lem, dequeue-Holds, remove-Holds, remove-unlink, unlink-free}
use xbee_mqtt.Queue.Slots.{Ready, Represents}

module _ {A : Type 0} (n : ℕ) (q : StaticQueue A) (p : ℕ) (v : A) (xs ys : Cells A)
    (h : Represents n q (xs ++ (p, v) ∷ ys)) where
  Ready-unlink : (slot : Pointer) → Ready q.queue.memory slot → Ready (unlink p q.queue.memory) slot
  Ready-unlink none r = tt
  Ready-unlink (some slot) r = unlink-free n q.queue p v xs ys slot h.holds r

  -- A queue with `p` unlinked and the full flag cleared.
  Represents-unlink :
      (queue : LinkedQueue A)
      → Holds n queue (xs ++ ys)
      → queue.memory ≡ unlink p q.queue.memory
      → queue.m_full ≡ false
      → Represents n (record q { queue = queue }) (xs ++ ys)
  Represents-unlink queue k e f = record {
    holds = k;
    index = h.index;
    ready = rw e (Ready-unlink q.m_next_available_slot h.ready);
    full = inl f;
  }

  -- `remove` of any element of a well-formed queue leaves the others in their order, and the queue
  -- well formed.
  pub remove-Represents : Represents n (remove p q) (xs ++ ys)
  unfolding remove
  remove-Represents =
      let (e, f) = remove-unlink n q.queue p v xs ys h.holds in
      Represents-unlink (Linked.remove p q.queue) (remove-Holds n q.queue p v xs ys h.holds) e f

module _ {A : Type 0} (n : ℕ) (q : StaticQueue A) where
  -- `dequeue` returns the oldest value and leaves the others.
  pub dequeue-Represents :
      (p : ℕ) (v : A) (ys : Cells A)
      → Represents n q ((p, v) ∷ ys)
      → ((dequeue q).0 ≡ some v) × Represents n (dequeue q).1 ys
  unfolding dequeue
  dequeue-Represents p v ys h =
      let e = dequeue_lem n q.queue p v ys h.holds in
      let (value, k) = dequeue-Holds n q.queue p v ys h.holds in
      (
        value,
        Represents-unlink n q p v [] ys h (Linked.dequeue q.queue).1 k (ap (λ r. r.1.memory) e)
            (ap (λ r. r.1.m_full) e),
      )

  empty_lem : q.queue.m_tail ≡ none → dequeue q ≡ (none, q)
  unfolding dequeue Linked.dequeue Linked.dequeue_node
  empty_lem e = ground arith

  -- Of an empty queue it returns null and changes nothing.
  pub dequeue-empty : Represents n q [] → dequeue q ≡ (none, q)
  dequeue-empty h = empty_lem h.holds.tail
