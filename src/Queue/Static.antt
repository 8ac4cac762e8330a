-- ===== src/Queue/Static.antt =====
-- libs/static_queue/static_queue.h: class StaticQueue<T, N_MEMB>.
use xbee_mqtt.Base.{
  ℕ, zero, suc, ◌+◌, ◌%◌, Bool, true, false, Option, none, some, ltb, ◌==◌, if◌then◌else◌,
}
use xbee_mqtt.Queue.Node.{Pointer, Memory, new_node, update, unlink}
use xbee_mqtt.Queue.Linked
use xbee_mqtt.Queue.Linked.{LinkedQueue}

pub record StaticQueue (A : Type 0) : Type 0 where
  pub queue : LinkedQueue A
  pub m_next_available_slot : Pointer
  pub m_slot_index : ℕ

module _ {A : Type 0} (n_memb : ℕ) where
  -- The array's nodes are unlinked (LinkedNode::LinkedNode); their values, and the memory behind the
  -- array, are what `raw` holds.
  unfoldable pub new_memory : Memory A → Memory A
  unfolding new_node
  new_memory raw p = if ltb p n_memb then new_node (raw p).value else raw p

  -- StaticQueue::StaticQueue
  unfoldable pub new_static_queue : Memory A → StaticQueue A
  unfolding new_memory
  new_static_queue raw = record {
    queue = record { memory = new_memory raw; m_head = some 0; m_tail = none; m_full = false };
    m_next_available_slot = some 0;
    m_slot_index = 0;
  }

  -- The loop of StaticQueue::findEmptySlot, from `i`: outside `none` where the fuel runs out, inside
  -- `none` where there is no slot.
  unfoldable pub search_from : ℕ → ℕ → ℕ → Memory A → Option Pointer
  search_from zero i stop m = none
  search_from (suc fuel) i stop m =
      let rest = search_from fuel ((i + 1) % n_memb) stop m in
      if i == stop then some none else if (m i).linked then rest else some (some i)

  -- StaticQueue::findEmptySlot
  unfoldable pub find_empty_slot : ℕ → StaticQueue A → Option (Pointer × StaticQueue A)
  unfolding search_from
  find_empty_slot fuel q =
      elim (search_from fuel (q.m_slot_index + 1) q.m_slot_index q.queue.memory) [
        | none ↦ none
        | some none ↦ some (none, q)
        | some (some i) ↦ some (some i, record q { m_slot_index = i })
      ]

  -- From the copy of the node into its slot to the end of StaticQueue::insert.
  unfoldable pub insert_at : ℕ → A → ℕ → StaticQueue A → Option (Bool × StaticQueue A)
  insert_at fuel elem slot q =
      let placed = record q.queue { memory = update slot (λ _. new_node elem) q.queue.memory } in
      elim (Linked.enqueue_node slot placed) [
        | none ↦ none
        | some (_, linked) ↦ elim (find_empty_slot fuel (record q { queue = linked })) [
          | none ↦ none
          | some (found, q') ↦ some (
            true,
            record q' {
              m_next_available_slot = found;
              queue = elim found [ none ↦ Linked.set_full true q'.queue | some _ ↦ q'.queue ];
            },
          )
        ]
      ]

  -- StaticQueue::insert
  unfoldable pub insert : ℕ → A → StaticQueue A → Option (Bool × StaticQueue A)
  unfolding insert_at
  insert fuel elem q = elim q.m_next_available_slot [
    | some slot ↦ insert_at fuel elem slot q
    | none ↦ elim (find_empty_slot fuel q) [
      | none ↦ none
      | some (none, q') ↦ some (false, record q' { m_next_available_slot = none })
      | some (some slot, q') ↦
          insert_at fuel elem slot (record q' { m_next_available_slot = some slot })
    ]
  ]

  -- StaticQueue::insert of a T const *, which is followed once there is a slot; `none` for elem is
  -- nullptr.
  unfoldable pub insert_pointee : ℕ → Option A → ℕ → StaticQueue A → Option (Bool × StaticQueue A)
  unfolding insert_at
  insert_pointee fuel none slot q = none
  insert_pointee fuel (some elem) slot q = insert_at fuel elem slot q

  unfoldable pub insert_pointer : ℕ → Option A → StaticQueue A → Option (Bool × StaticQueue A)
  unfolding insert_pointee
  insert_pointer fuel elem q = elim q.m_next_available_slot [
    | some slot ↦ insert_pointee fuel elem slot q
    | none ↦ elim (find_empty_slot fuel q) [
      | none ↦ none
      | some (none, q') ↦ some (false, record q' { m_next_available_slot = none })
      | some (some slot, q') ↦
          insert_pointee fuel elem slot (record q' { m_next_available_slot = some slot })
    ]
  ]

  -- The loop of StaticQueue::reset, from `i`.
  unfoldable pub unlink_from : ℕ → ℕ → Memory A → Memory A
  unlink_from zero i m = m
  unlink_from (suc k) i m = unlink_from k (i + 1) (unlink i m)

  -- StaticQueue::reset
  unfoldable pub reset : StaticQueue A → StaticQueue A
  unfolding unlink_from Linked.init
  reset q = record {
    queue =
        Linked.init (some 0) none (record q.queue { memory = unlink_from n_memb 0 q.queue.memory });
    m_next_available_slot = some 0;
    m_slot_index = 0;
  }

module _ {A : Type 0} where
  -- StaticQueue::getElem; what its result points to.
  abbrev pub get_elem : ℕ → StaticQueue A → A
  get_elem idx q = (q.queue.memory idx).value

  -- LinkedQueue::dequeue and LinkedQueue::remove of a StaticQueue.
  unfoldable pub dequeue : StaticQueue A → Option A × StaticQueue A
  unfolding Linked.dequeue
  dequeue q = let (elem, queue) = Linked.dequeue q.queue in (elem, record q { queue = queue })

  unfoldable pub remove : ℕ → StaticQueue A → StaticQueue A
  unfolding Linked.remove
  remove elem q = record q { queue = Linked.remove elem q.queue }
