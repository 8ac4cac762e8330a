-- ===== src/Queue/Filling.antt =====
-- StaticQueue::insert on a new queue: one step of filling it.
use xbee_mqtt.Base.{
  ℕ, suc, ◌+◌, ◌≤◌, ◌<◌, ◌≡◌, ◌∙◌, refl, subst, true, false, none, some, [], ◌∷◌, ◌++◌, arith, ◌==◌,
}
use native.Mathlib.Decide.{dec_lt}
use xbee_mqtt.Queue.Node.{Pointer, Memory, new_node, link}
use xbee_mqtt.Queue.Static.{StaticQueue, search_from, insert}
use xbee_mqtt.Queue.Chain.{Cells}
use xbee_mqtt.Queue.Appending.{placed}
use xbee_mqtt.Queue.Contents.{enqueued, enqueued-Holds}
use xbee_mqtt.Queue.Slots.{
  Represents, search, inserted, find_empty_slot_found, insert_at_lem, inserted-Represents,
}
use xbee_mqtt.Queue.Insertion.{insert_at_hand, slot_not_full}
use xbee_mqtt.Queue.Overrun.{search_skips}

module _ {A : Type 0} (n : ℕ) where
  -- The slots below `k` are in use, those from `k` on are free, and `k` is next.
  pub record Filled (k : ℕ) (q : StaticQueue A) (xs : Cells A) : Type 0 where
    pub rep : Represents n q xs
    pub next : q.m_next_available_slot ≡ some k
    pub at : q.m_slot_index ≡ k
    pub behind : (l : ℕ) → q.queue.m_head ≡ some l → l ≤ k
    pub used : (p : ℕ) → p < k → (q.queue.memory p).linked ≡ true
    pub free : (p : ℕ) → k ≤ p → p < n → (q.queue.memory p).linked ≡ false

  pub placed_others :
      (m : Memory A) (h c a : ℕ) (v : A)
      → (a == h) ≡ false
      → (a == c) ≡ false
      → placed m h c v a ≡ m a
  unfolding link
  placed_others m h c a v k l = ground arith

  pub placed_linked :
      (m : Memory A) (h c a : ℕ) (v : A)
      → (m a).linked ≡ true
      → (a == c) ≡ false
      → (placed m h c v a).linked ≡ true
  unfolding link
  placed_linked m h c a v l k = ground arith

  placed_mark : (m : Memory A) (h c : ℕ) (v : A) → (placed m h c v c).linked ≡ true
  unfolding link new_node
  placed_mark m h c v = ground arith

  module _ (k : ℕ) (q : StaticQueue A) (xs : Cells A) (v : A) (f : Filled k q xs)
      (room : k < n) where
    -- The queue with a new node linked at slot `k`.
    abbrev pub linked_at : StaticQueue A
    linked_at = record q { queue = enqueued q.queue f.rep.holds.last k v }

    used_after : (p : ℕ) → p < k + 1 → (linked_at.queue.memory p).linked ≡ true
    used_after p h = elim (dec_lt p k) [
      | yes less ↦
          placed_linked q.queue.memory f.rep.holds.last k p v (f.used p less) (ground arith)
      | no more ↦
          subst (λ a. (linked_at.queue.memory a).linked ≡ true) {x = k} (omega arith)
            (placed_mark q.queue.memory f.rep.holds.last k v)
    ]

    free_after : (p : ℕ) → k + 1 ≤ p → p < n → (linked_at.queue.memory p).linked ≡ false
    free_after p h l =
        let head = f.behind f.rep.holds.last f.rep.holds.head in
        rw (placed_others q.queue.memory f.rep.holds.last k p v (ground arith) (ground arith))
          (f.free p (omega arith) l)

    insert_slot :
        (r : Pointer)
        → search n linked_at ≡ some r
        → (insert n (suc n) v q ≡ some (true, inserted n linked_at r))
          × Represents n (inserted n linked_at r) (xs ++ (k, v) ∷ [])
    insert_slot r e =
        let h = f.rep.holds in
        let full = slot_not_full n v xs q k f.rep.full f.next in
        let holds = enqueued-Holds n q.queue k v (f.free k (omega arith) room) xs h in
        (
          insert_at_hand n v xs q k f.next
              ∙ insert_at_lem n q xs k v r h full (find_empty_slot_found n linked_at r e),
          inserted-Represents n linked_at (xs ++ (k, v) ∷ []) r holds f.rep.index full e,
        )

    search_next : k + 1 < n → search n linked_at ≡ some (some (k + 1))
    unfolding search_from
    search_next h = ground (arith, f.at, free_after (k + 1) (omega arith) h)

    pub search_last : k + 1 ≡ n → search n linked_at ≡ some none
    search_last h =
        let guard =
          placed_linked q.queue.memory f.rep.holds.last k n v f.rep.holds.guard (ground arith) in
        search_skips n linked_at.queue.memory q.m_slot_index (omega (arith, f.at)) guard
          (λ p a b. used_after p (omega (arith, f.at)))

    pub fill_next :
        k + 1 < n
        → (insert n (suc n) v q ≡ some (true, inserted n linked_at (some (k + 1))))
          × Filled (k + 1) (inserted n linked_at (some (k + 1))) (xs ++ (k, v) ∷ [])
    fill_next h =
        let (run, rep) = insert_slot (some (k + 1)) (search_next h) in
        (
          run,
          record {
            rep = rep;
            next = refl;
            at = refl;
            behind = λ l e. ground arith;
            used = used_after;
            free = free_after;
          },
        )

    pub fill_end :
        k + 1 ≡ n
        → (insert n (suc n) v q ≡ some (true, inserted n linked_at none))
          × Represents n (inserted n linked_at none) (xs ++ (k, v) ∷ [])
    fill_end h = insert_slot none (search_last h)
