-- ===== src/Queue/Removal.antt =====
-- Taking an element out of a LinkedQueue: the oldest by `dequeue`, any by `remove`.
use xbee_mqtt.Base.{
  ℕ, ◌≡◌, refl, true, false, none, some, [], ◌∷◌, ◌++◌, arith, ◌==◌, if◌then◌else◌,
}
use xbee_mqtt.Queue.Node.{Pointer, Memory, points_to, unlink}
use xbee_mqtt.Queue.Linked.{LinkedQueue, dequeue_node, dequeue, remove}
use xbee_mqtt.Queue.Chain.{
  Cells, first, has, leads_into, Chain, ne_of_has, unlinked_out, unlink-spares,
}
use xbee_mqtt.Queue.Unlinking.{unlink_self, unlink-Chain, has_without, neighbours_out}
use xbee_mqtt.Queue.Appending.{EndsAt, has_end, ne_of_lacks}
use xbee_mqtt.Queue.Contents.{IsAnchor, Holds}

module _ {A : Type 0} (m : Memory A) (p : ℕ) where
  pub unlink-linked :
      (a : ℕ) → (a == p) ≡ false → (m a).linked ≡ true → (unlink p m a).linked ≡ true
  unfolding unlink
  unlink-linked a k l = ground arith

  -- An anchor outside a chain that has `p` stays linked.
  unlink-IsAnchor :
      (z : Pointer) (xs : Cells A)
      → has p xs ≡ true
      → leads_into z xs ≡ false
      → IsAnchor m z
      → IsAnchor (unlink p m) z
  unlink-IsAnchor none xs i h a = tt
  unlink-IsAnchor (some z) xs i h a = unlink-linked z (ground arith) a

  leads_without :
      (v : A) (xs ys : Cells A) (z : Pointer)
      → leads_into z (xs ++ (p, v) ∷ ys) ≡ false
      → leads_into z (xs ++ ys) ≡ false
  leads_without v xs ys none h = refl
  leads_without v xs ys (some z) h = has_without m p v xs ys z h

  pub has_at : (v : A) (xs ys : Cells A) → has p (xs ++ (p, v) ∷ ys) ≡ true
  has_at v [] ys = ground arith
  has_at v ((b, w) ∷ xs) ys = ground (arith, has_at v xs ys)

module _ {A : Type 0} (n : ℕ) (q : LinkedQueue A) (p : ℕ) (v : A) where
  -- The queue after `p` was unlinked, with its new ends.
  abbrev pub unlinked : Pointer → Pointer → LinkedQueue A
  unlinked head tail = record {
    memory = unlink p q.memory;
    m_head = head;
    m_tail = tail;
    m_full = false;
  }

  -- What holds of the rest of the chain, wherever `p` stands in it.
  unlinked-Holds :
      (xs ys : Cells A) (l : ℕ) (h : Holds n q (xs ++ (p, v) ∷ ys))
      → EndsAt l (xs ++ ys)
      → Holds n (unlinked (some l) (first (xs ++ ys))) (xs ++ ys)
  unlinked-Holds xs ys l h e = record {
    anchor = h.anchor;
    last = l;
    chain = unlink-Chain q.memory p v xs ys h.anchor h.chain h.outside;
    outside = leads_without q.memory p v xs ys h.anchor h.outside;
    anchored =
        unlink-IsAnchor q.memory p h.anchor (xs ++ (p, v) ∷ ys) (has_at q.memory p v xs ys)
          h.outside h.anchored;
    tail = refl;
    head = refl;
    ends = e;
    guard =
        unlink-linked q.memory p n (ground (arith, has_at q.memory p v xs ys, h.inside)) h.guard;
    inside = has_without q.memory p v xs ys n h.inside;
  }

  EndsAt-tail : (ys : Cells A) (l : ℕ) → EndsAt l ((p, v) ∷ ys) → EndsAt l ys
  EndsAt-tail [] l e = tt
  EndsAt-tail (y ∷ ys) l e = e

  dequeue_node_lem :
      q.m_tail ≡ some p → dequeue_node q ≡ (some p, unlinked q.m_head (q.memory p).next)
  unfolding dequeue_node
  dequeue_node_lem t = rw t refl

  pub dequeue_lem :
      (ys : Cells A) → Holds n q ((p, v) ∷ ys) → dequeue q ≡ (some v, unlinked q.m_head (first ys))
  unfolding dequeue
  dequeue_lem ys h =
      let (l, b, w, e, out, rest) = h.chain in
      rw (dequeue_node_lem h.tail, dequeue_node_lem h.tail, unlink_self q.memory p, w, e) refl

  -- `dequeue` returns the oldest value and leaves the others.
  pub dequeue-Holds :
      (ys : Cells A) → Holds n q ((p, v) ∷ ys) → ((dequeue q).0 ≡ some v) × Holds n (dequeue q).1 ys
  dequeue-Holds ys h =
      let rest = unlinked-Holds [] ys h.last h (EndsAt-tail ys h.last h.ends) in
      rw (dequeue_lem ys h, h.head) (refl, rest)

module _ {A : Type 0} (m : Memory A) (p : ℕ) (v : A) where
  -- The last of the cells stands in the memory behind the one before it.
  prev-EndsAt :
      (a : ℕ) (u : A) (xs : Cells A) (prev : Pointer)
      → Chain m prev ((a, u) ∷ xs ++ (p, v) ∷ [])
      → (l : ℕ) × ((m p).prev ≡ some l) × EndsAt l ((a, u) ∷ xs ++ [])
  prev-EndsAt a u [] prev c = let (l, b, w, e, out, rest) = c in (a, rest.1, refl)
  prev-EndsAt a u ((b, w) ∷ xs) prev c = prev-EndsAt b w xs (some a) c.5

  EndsAt-last : (l : ℕ) (xs : Cells A) → EndsAt l (xs ++ (p, v) ∷ []) → l ≡ p
  EndsAt-last l [] e = e
  EndsAt-last l ((a, u) ∷ []) e = e
  EndsAt-last l ((a, u) ∷ x ∷ xs) e = EndsAt-last l (x ∷ xs) e

  EndsAt-without :
      (l b : ℕ) (w : A) (xs ys : Cells A)
      → EndsAt l (xs ++ (p, v) ∷ (b, w) ∷ ys)
      → EndsAt l (xs ++ (b, w) ∷ ys)
  EndsAt-without l b w [] ys e = e
  EndsAt-without l b w ((a, u) ∷ []) ys e = e
  EndsAt-without l b w ((a, u) ∷ x ∷ xs) ys e = EndsAt-without l b w (x ∷ xs) ys e

  not_last :
      (l b : ℕ) (w : A) (xs ys : Cells A) (prev : Pointer)
      → Chain m prev (xs ++ (p, v) ∷ (b, w) ∷ ys)
      → EndsAt l (xs ++ (p, v) ∷ (b, w) ∷ ys)
      → (p == l) ≡ false
  not_last l b w [] ys prev c e = ne_of_lacks p l ((b, w) ∷ ys) c.4 (has_end l b w ys e)
  not_last l b w ((a, u) ∷ []) ys prev c e = not_last l b w [] ys (some a) c.5 e
  not_last l b w ((a, u) ∷ x ∷ xs) ys prev c e = not_last l b w (x ∷ xs) ys (some a) c.5 e

module _ {A : Type 0} (n : ℕ) (q : LinkedQueue A) (p : ℕ) (v : A) where
  pub remove_oldest : points_to p q.m_tail ≡ true → remove p q ≡ (dequeue q).1
  unfolding remove
  remove_oldest e = rw e refl

  remove_unlinks :
      points_to p q.m_tail ≡ false
      → remove p q ≡ record q {
        m_head = if points_to p q.m_head then (q.memory p).prev else q.m_head;
        memory = unlink p q.memory;
        m_full = false;
      }
  unfolding remove
  remove_unlinks e = rw e refl

  remove_other :
      (l : ℕ)
      → points_to p q.m_tail ≡ false
      → (if points_to p q.m_head then (q.memory p).prev else q.m_head) ≡ some l
      → remove p q ≡ unlinked n q p v (some l) q.m_tail
  remove_other l e k = rw (remove_unlinks e, k) refl

  not_first :
      (a : ℕ) (u : A) (xs ys : Cells A)
      → Holds n q ((a, u) ∷ xs ++ (p, v) ∷ ys)
      → points_to p q.m_tail ≡ false
  not_first a u xs ys h =
      rw h.tail (ne_of_has p a (xs ++ (p, v) ∷ ys) (has_at q.memory p v xs ys) h.chain.4)

  remove_last :
      (a : ℕ) (u : A) (xs : Cells A)
      → Holds n q ((a, u) ∷ xs ++ (p, v) ∷ [])
      → Holds n (remove p q) ((a, u) ∷ xs ++ [])
  remove_last a u xs h =
      let (l, e, ends) = prev-EndsAt q.memory p v a u xs h.anchor h.chain in
      let here : (p == p) ≡ true = ground arith in
      let same = EndsAt-last q.memory p v h.last ((a, u) ∷ xs) h.ends in
      let rest = unlinked-Holds n q p v ((a, u) ∷ xs) [] l h ends in
      rw (remove_other l (not_first a u xs [] h) (rw (h.head, same, here) e), h.tail) rest

  remove_inner :
      (a b : ℕ) (u w : A) (xs ys : Cells A)
      → Holds n q ((a, u) ∷ xs ++ (p, v) ∷ (b, w) ∷ ys)
      → Holds n (remove p q) ((a, u) ∷ xs ++ (b, w) ∷ ys)
  remove_inner a b u w xs ys h =
      let apart = not_last q.memory p v h.last b w ((a, u) ∷ xs) ys h.anchor h.chain h.ends in
      let ends = EndsAt-without q.memory p v h.last b w ((a, u) ∷ xs) ys h.ends in
      let rest = unlinked-Holds n q p v ((a, u) ∷ xs) ((b, w) ∷ ys) h.last h ends in
      rw (remove_other h.last (not_first a u xs ((b, w) ∷ ys) h) (rw (h.head, apart) refl), h.tail)
        rest

  -- `remove` of any element of the queue leaves the others, in their order.
  pub remove-Holds :
      (xs ys : Cells A) → Holds n q (xs ++ (p, v) ∷ ys) → Holds n (remove p q) (xs ++ ys)
  remove-Holds [] ys h =
      let here : (p == p) ≡ true = ground arith in
      rw (remove_oldest (rw h.tail here)) (dequeue-Holds n q p v ys h).1
  remove-Holds ((a, u) ∷ xs) [] h = remove_last a u xs h
  remove-Holds ((a, u) ∷ xs) ((b, w) ∷ ys) h = remove_inner a b u w xs ys h

  -- What `remove` does to the memory and to the full flag.
  pub remove-unlink :
      (xs ys : Cells A)
      → Holds n q (xs ++ (p, v) ∷ ys)
      → ((remove p q).memory ≡ unlink p q.memory) × ((remove p q).m_full ≡ false)
  remove-unlink [] ys h =
      let here : (p == p) ≡ true = ground arith in
      rw (remove_oldest (rw h.tail here), dequeue_lem n q p v ys h) (refl, refl)
  remove-unlink ((a, u) ∷ xs) ys h = rw (remove_unlinks (not_first a u xs ys h)) (refl, refl)

  not_anchor :
      (z : Pointer) (a : ℕ)
      → IsAnchor q.memory z
      → (q.memory a).linked ≡ false
      → points_to a z ≡ false
  not_anchor none a i l = refl
  not_anchor (some z) a i l = ground arith

  -- A free slot stays free when an element leaves the queue.
  pub unlink-free :
      (xs ys : Cells A) (a : ℕ)
      → Holds n q (xs ++ (p, v) ∷ ys)
      → (q.memory a).linked ≡ false
      → (unlink p q.memory a).linked ≡ false
  unlink-free xs ys a h l =
      let out = unlinked_out q.memory h.anchor (xs ++ (p, v) ∷ ys) a h.chain l in
      let (apart, behind, before) =
        neighbours_out q.memory p v ys h.anchor xs a h.chain (not_anchor h.anchor a h.anchored l)
          out in
      rw (unlink-spares q.memory p a apart behind before) l

  -- Taking out the oldest leaves `m_head` as it is.
  pub remove_oldest-head : (ys : Cells A) → Holds n q ((p, v) ∷ ys) → (remove p q).m_head ≡ q.m_head
  remove_oldest-head ys h =
      let here : (p == p) ≡ true = ground arith in
      rw (remove_oldest (rw h.tail here), dequeue_lem n q p v ys h) refl
