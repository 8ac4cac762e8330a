-- ===== src/Tests/Queue.antt =====
-- The theorems on the queue, applied to queues of three slots.
use xbee_mqtt.Base.{
  ℕ, ◌≡◌, Bool, true, false, none, some, List, [], ◌∷◌, refl, inl, arith, ◌==◌, if◌then◌else◌,
}
use mathlib.Core.List.{tail}
use xbee_mqtt.Queue.Node.{Node, Memory, Pointer}
use xbee_mqtt.Queue.Static.{StaticQueue, new_static_queue, find_empty_slot, insert, dequeue}
use xbee_mqtt.Queue.Slots.{Represents}
use xbee_mqtt.Queue.Sound.{Sound}
use xbee_mqtt.Queue.Answers.{Op, Reply, History}
use xbee_mqtt.Queue.Fifo.{run, run-Fifo}
use xbee_mqtt.Queue.Overrun.{find_empty_slot_forever}
use xbee_mqtt.Queue.Capacity.{inserts, accepted, FullOf, fills}
use xbee_mqtt.Queue.Leak.{slot_leak}

abbrev node : Bool → Pointer → Pointer → ℕ → Node ℕ
node linked next prev value = record { linked = linked; next = next; prev = prev; value = value }

abbrev queue_in : Memory ℕ → Pointer → Pointer → Pointer → ℕ → StaticQueue ℕ
queue_in m head tail next index = record {
  queue = record { memory = m; m_head = head; m_tail = tail; m_full = false };
  m_next_available_slot = next;
  m_slot_index = index;
}

-- Every node, also behind the array, reads as linked.
abbrev all_linked : Memory ℕ
all_linked p = node true none none 0

-- 7 in slot 0 and 8 in slot 1.
abbrev two_cells : Memory ℕ
two_cells p =
    if p == 0
    then node true (some 1) none 7
    else if p == 1
    then node true none (some 0) 8
    else if p == 2
    then node false none none 0
    else node true none none 0

abbrev two : StaticQueue ℕ
two = queue_in two_cells (some 1) (some 0) (some 2) 2

-- The element at slot 0 has come and gone.
abbrev left_cells : Memory ℕ
left_cells p = if p == 3 then node true none none 0 else node false none none 0

abbrev left : StaticQueue ℕ
left = queue_in left_cells (some 0) none (some 1) 1

left-Represents : Represents 3 left []
left-Represents = record {
  holds = record {
    anchor = none;
    last = 0;
    chain = tt;
    outside = refl;
    anchored = tt;
    tail = refl;
    head = refl;
    ends = tt;
    guard = refl;
    inside = refl;
  };
  index = omega arith;
  ready = refl;
  full = inl refl;
}

abbrev calls : List (Op ℕ)
calls =
    Op.insert 1
    ∷ Op.insert_pointer 2
    ∷ Op.insert 3
    ∷ Op.remove 1
    ∷ Op.remove 1
    ∷ Op.length
    ∷ Op.dequeue
    ∷ []

run-Fifo_example :
    (replies : List (Reply ℕ)) × (q' : StaticQueue ℕ) × (xs : List ℕ) × (run 2 calls
        (new_static_queue 2 all_linked)
      ≡ some (replies, q'))
    × History [] calls replies xs
run-Fifo_example = run-Fifo 2 all_linked calls (omega arith) refl

fills_example :
    (q' : StaticQueue ℕ) × (run 2 (inserts (4 ∷ 5 ∷ [])) (new_static_queue 2 all_linked)
      ≡ some (accepted (4 ∷ 5 ∷ []), q'))
    × FullOf 2 (4 ∷ 5 ∷ []) q'
fills_example = fills 2 all_linked 4 (5 ∷ []) refl refl

find_empty_slot_forever_example :
    find_empty_slot 2 1000000 (queue_in all_linked (some 0) none none 2) ≡ none
find_empty_slot_forever_example =
    find_empty_slot_forever 2 (queue_in all_linked (some 0) none none 2) 1000000 (omega arith) refl
      refl (λ p _. refl)

slot_leak_example :
    (q' : StaticQueue ℕ) × (insert 3 4 5 left ≡ some (true, q'))
    × ((dequeue q').0 ≡ some 5)
    × Represents 3 (dequeue q').1 []
    × (((dequeue q').1.queue.memory 0).linked ≡ true)
slot_leak_example = slot_leak 3 left 5 1 0 left-Represents refl refl refl
