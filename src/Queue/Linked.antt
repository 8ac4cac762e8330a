-- ===== src/Queue/Linked.antt =====
-- libs/static_queue/linked_queue.h: class LinkedQueue. `m_tail` is the oldest element and `m_head`
-- the newest.
use xbee_mqtt.Base.{ℕ, zero, suc, ◌+◌, Bool, true, false, Option, none, some, if◌then◌else◌}
use xbee_mqtt.Queue.Node.{Pointer, Memory, points_to, link, unlink}

pub record LinkedQueue (A : Type 0) : Type 0 where
  pub memory : Memory A
  pub m_head : Pointer
  pub m_tail : Pointer
  pub m_full : Bool

module _ {A : Type 0} where
  -- LinkedQueue::init
  unfoldable pub init : Pointer → Pointer → LinkedQueue A → LinkedQueue A
  init head_init tail_init q = record q { m_head = head_init; m_tail = tail_init; m_full = false }

  abbrev pub is_empty : LinkedQueue A → Bool
  is_empty q = elim q.m_tail [ none ↦ true | some _ ↦ false ]

  abbrev pub is_full : LinkedQueue A → Bool
  is_full q = q.m_full

  abbrev pub set_full : Bool → LinkedQueue A → LinkedQueue A
  set_full full q = record q { m_full = full }

  -- LinkedQueue::enqueueNode; `none` where `m_head` is null and is followed.
  unfoldable pub enqueue_node : ℕ → LinkedQueue A → Option (Bool × LinkedQueue A)
  unfolding link
  enqueue_node elem q = if q.m_full then some (false, q) else elim q.m_head [
    | none ↦ none
    | some head ↦ some (
      true,
      record q {
        memory = (link head elem q.memory).1;
        m_head = some elem;
        m_tail = elim q.m_tail [ none ↦ some elem | some t ↦ some t ];
      },
    )
  ]

  -- LinkedQueue::peakNode
  abbrev pub peak_node : LinkedQueue A → Pointer
  peak_node q = q.m_tail

  -- LinkedQueue::peak; what its result points to.
  unfoldable pub peak : LinkedQueue A → Option A
  peak q = elim q.m_tail [ none ↦ none | some p ↦ some (q.memory p).value ]

  -- LinkedQueue::dequeueNode
  unfoldable pub dequeue_node : LinkedQueue A → Pointer × LinkedQueue A
  unfolding unlink
  dequeue_node q = elim q.m_tail [
    | none ↦ (none, q)
    | some elem ↦ (
      some elem,
      record q { m_tail = (q.memory elem).next; memory = unlink elem q.memory; m_full = false },
    )
  ]

  -- LinkedQueue::dequeue; what its result points to.
  unfoldable pub dequeue : LinkedQueue A → Option A × LinkedQueue A
  unfolding dequeue_node
  dequeue q =
      let (elem, q') = dequeue_node q in
      (elim elem [ none ↦ none | some p ↦ some (q'.memory p).value ], q')

  -- LinkedQueue::remove
  unfoldable pub remove : ℕ → LinkedQueue A → LinkedQueue A
  unfolding dequeue unlink
  remove elem q = if points_to elem q.m_tail then (dequeue q).1 else record q {
    m_head = if points_to elem q.m_head then (q.memory elem).prev else q.m_head;
    memory = unlink elem q.memory;
    m_full = false;
  }

  -- The loop of LinkedQueue::length: `none` where the fuel runs out.
  unfoldable pub count_from : ℕ → Pointer → Memory A → ℕ → Option ℕ
  count_from fuel none m len = some len
  count_from zero (some elem) m len = none
  count_from (suc fuel) (some elem) m len = count_from fuel (m elem).next m (len + 1)

  -- LinkedQueue::length
  unfoldable pub length : ℕ → LinkedQueue A → Option ℕ
  unfolding count_from
  length fuel q = count_from fuel q.m_tail q.memory 0
