-- ===== src/Queue/Contents.antt =====
-- What a LinkedQueue stands for, and what its two operations make of it.
use xbee_mqtt.Base.{
  ℕ, ◌≡◌, refl, true, false, none, some, [], ◌∷◌, ◌++◌, arith, ◌==◌, inl, inr, Bool-cases,
}
use xbee_mqtt.Queue.Node.{Pointer, Memory, new_node, update, link}
use xbee_mqtt.Queue.Linked.{LinkedQueue, enqueue_node}
use xbee_mqtt.Queue.Chain.{Cells, first, has, leads_into, Chain, unlinked_out, ne_of_has}
use xbee_mqtt.Queue.Appending.{
  EndsAt, EndsAt-append, has_end, has-append, placed, placed_self, placed-new, placed-last,
  placed-Chain,
}

module _ {A : Type 0} where
  abbrev pub IsAnchor : Memory A → Pointer → Type 0
  IsAnchor m none = Unit {0}
  IsAnchor m (some z) = (m z).linked ≡ true

  -- The queue holds the cells: they stand in a chain from `m_tail` to `m_head`. The first cell may
  -- point back to a node that left the queue and was linked again (`anchor`). An empty queue still
  -- has a head. The node behind the array, at `n`, is none of them and reads as linked.
  pub record Holds (n : ℕ) (q : LinkedQueue A) (xs : Cells A) : Type 0 where
    pub anchor : Pointer
    pub last : ℕ
    pub chain : Chain q.memory anchor xs
    pub outside : leads_into anchor xs ≡ false
    pub anchored : IsAnchor q.memory anchor
    pub tail : q.m_tail ≡ first xs
    pub head : q.m_head ≡ some last
    pub ends : EndsAt last xs
    pub guard : (q.memory n).linked ≡ true
    pub inside : has n xs ≡ false

  -- The queue after a new node was copied to `c` and enqueued.
  abbrev pub enqueued : LinkedQueue A → ℕ → ℕ → A → LinkedQueue A
  enqueued q h c v = record q {
    memory = placed q.memory h c v;
    m_head = some c;
    m_tail = elim q.m_tail [ none ↦ some c | some t ↦ some t ];
  }

  pub enqueue_node_lem :
      (q : LinkedQueue A) (h c : ℕ) (v : A)
      → q.m_head ≡ some h
      → q.m_full ≡ false
      → enqueue_node c (record q { memory = update c (λ _. new_node v) q.memory })
        ≡ some (true, enqueued q h c v)
  unfolding enqueue_node
  enqueue_node_lem q h c v e f = ground arith

module _ {A : Type 0} (n : ℕ) (q : LinkedQueue A) (c : ℕ) (v : A)
    (free : (q.memory c).linked ≡ false) where
  -- The anchor stays linked, and the node behind the array too.
  placed-linked : (h a : ℕ) → (q.memory a).linked ≡ true → (placed q.memory h c v a).linked ≡ true
  unfolding link
  placed-linked h a l = ground arith

  not_guard : (q.memory n).linked ≡ true → (n == c) ≡ false
  not_guard g = ground arith

  placed-IsAnchor : (h : ℕ) (z : Pointer) → IsAnchor q.memory z → IsAnchor (placed q.memory h c v) z
  placed-IsAnchor h none a = tt
  placed-IsAnchor h (some z) a = placed-linked h z a

  enqueued-Holds_first : (h : Holds n q []) → Holds n (enqueued q h.last c v) ((c, v) ∷ [])
  enqueued-Holds_first h = elim (Bool-cases (h.last == c)) [
    | inl same ↦ record {
      anchor = none;
      last = c;
      chain = ground (arith, placed_self q.memory h.last c v same);
      outside = refl;
      anchored = tt;
      tail = rw h.tail refl;
      head = refl;
      ends = refl;
      guard = placed-linked h.last n h.guard;
      inside = ground (arith, not_guard h.guard);
    }
    | inr apart ↦ record {
      anchor = some h.last;
      last = c;
      chain = ground (arith, placed-new q.memory h.last c v apart);
      outside = ground arith;
      anchored = ground (arith, placed-last q.memory h.last c v apart);
      tail = rw h.tail refl;
      head = refl;
      ends = refl;
      guard = placed-linked h.last n h.guard;
      inside = ground (arith, not_guard h.guard);
    }
  ]

  unlinked_apart : (a : ℕ) → (q.memory a).linked ≡ true → (a == c) ≡ false
  unlinked_apart a l = ground arith

  outside_append :
      (z : Pointer) (xs : Cells A)
      → IsAnchor q.memory z
      → leads_into z xs ≡ false
      → leads_into z (xs ++ (c, v) ∷ []) ≡ false
  outside_append none xs a h = refl
  outside_append (some z) xs a h = has-append z c v xs h (unlinked_apart z a)

  enqueued-Holds_next :
      (p : ℕ) (u : A) (xs : Cells A) (h : Holds n q ((p, u) ∷ xs))
      → Holds n (enqueued q h.last c v) ((p, u) ∷ xs ++ (c, v) ∷ [])
  enqueued-Holds_next p u xs h =
      let out = unlinked_out q.memory h.anchor ((p, u) ∷ xs) c h.chain free in
      let apart : (h.last == c) ≡ false =
        ne_of_has h.last c ((p, u) ∷ xs) (has_end h.last p u xs h.ends) out in
      record {
        anchor = h.anchor;
        last = c;
        chain = placed-Chain q.memory h.last c v apart p u xs h.anchor h.chain h.ends out;
        outside = outside_append h.anchor ((p, u) ∷ xs) h.anchored h.outside;
        anchored = placed-IsAnchor h.last h.anchor h.anchored;
        tail = rw h.tail refl;
        head = refl;
        ends = EndsAt-append c v ((p, u) ∷ xs);
        guard = placed-linked h.last n h.guard;
        inside = has-append n c v ((p, u) ∷ xs) h.inside (not_guard h.guard);
      }

  -- A new node that is enqueued is the last of what the queue holds.
  pub enqueued-Holds :
      (xs : Cells A) (h : Holds n q xs) → Holds n (enqueued q h.last c v) (xs ++ (c, v) ∷ [])
  enqueued-Holds [] h = enqueued-Holds_first h
  enqueued-Holds ((p, u) ∷ xs) h = enqueued-Holds_next p u xs h
