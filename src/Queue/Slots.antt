-- ===== src/Queue/Slots.antt =====
-- The slots of a StaticQueue, and what `insert` does once it has one.
use native.Mathlib.Nat.{mod-lt}
use xbee_mqtt.Base.{
  ℕ, zero, suc, ◌+◌, ◌%◌, ◌≤◌, ◌<◌, ◌≡◌, ◌⊎◌, inl, inr, refl, Bool, true, false, Option, none, some,
  arith, some_of_ne,
}
use xbee_mqtt.Queue.Node.{Pointer, Memory}
use xbee_mqtt.Queue.Linked.{LinkedQueue}
use xbee_mqtt.Queue.Static.{StaticQueue, search_from, find_empty_slot, insert_at}
use xbee_mqtt.Queue.Search.{search-unlinked, search_ends}
use xbee_mqtt.Queue.Chain.{Cells}
use xbee_mqtt.Queue.Contents.{Holds, enqueued, enqueue_node_lem}

module _ {A : Type 0} where
  -- The slot for the next element, if it is known, is free.
  abbrev pub Ready : Memory A → Pointer → Type 0
  Ready m none = Unit {0}
  Ready m (some slot) = (m slot).linked ≡ false

  -- A full queue has no slot for the next element, and a search finds none.
  pub record Exhausted (n : ℕ) (q : StaticQueue A) : Type 0 where
    pub no_slot : q.m_next_available_slot ≡ none
    pub no_other :
        search_from n (suc n) (q.m_slot_index + 1) q.m_slot_index q.queue.memory ≡ some none

  -- The queue holds the cells and its own bookkeeping agrees with them.
  pub record Represents (n : ℕ) (q : StaticQueue A) (xs : Cells A) : Type 0 where
    pub holds : Holds n q.queue xs
    pub index : q.m_slot_index < n
    pub ready : Ready q.queue.memory q.m_next_available_slot
    pub full : (q.queue.m_full ≡ false) ⊎ Exhausted n q

module _ {A : Type 0} (n : ℕ) (m : Memory A) (stop : ℕ) (guard : (m n).linked ≡ true) where
  -- From inside the array, or right behind it, the loop finds a slot inside.
  search-guarded :
      (fuel i j : ℕ) → i ≤ n → 0 < n → search_from n fuel i stop m ≡ some (some j) → j < n
  unfolding search_from
  search-guarded zero i j k z h = cc
  search-guarded (suc fuel) i j k z h =
      ground (arith, mod-lt (i + 1) {m = n} z, search-guarded fuel ((i + 1) % n) j)

  -- The slot that a search finds is in the array and free.
  pub search_from_slot :
      (j : ℕ)
      → stop < n
      → search_from n (suc n) (stop + 1) stop m ≡ some (some j)
      → (j < n) × ((m j).linked ≡ false)
  search_from_slot j k e = (
    search-guarded (suc n) (stop + 1) j (omega arith) (omega arith) e,
    (search-unlinked n m stop (suc n) (stop + 1) j e).0,
  )

module _ {A : Type 0} (n : ℕ) where
  -- The queue after a search that found `r`.
  abbrev pub searched : Pointer → StaticQueue A → StaticQueue A
  searched none q = q
  searched (some i) q = record q { m_slot_index = i }

  abbrev pub search : StaticQueue A → Option Pointer
  search q = search_from n (suc n) (q.m_slot_index + 1) q.m_slot_index q.queue.memory

  pub find_empty_slot_found :
      (q : StaticQueue A) (r : Pointer)
      → search q ≡ some r
      → find_empty_slot n (suc n) q ≡ some (r, searched r q)
  unfolding find_empty_slot
  find_empty_slot_found q none e = rw (e, find_empty_slot) refl
  find_empty_slot_found q (some i) e = rw (e, find_empty_slot) refl

  -- The search for a slot returns.
  pub find_empty_slot_total :
      (q : StaticQueue A)
      → q.m_slot_index < n
      → (r : Pointer) × (search q ≡ some r) × (find_empty_slot n (suc n) q ≡ some (r, searched r q))
  find_empty_slot_total q k =
      let (r, e) = some_of_ne (search q) (search_ends n q.queue.memory q.m_slot_index k) in
      (r, e, find_empty_slot_found q r e)

  -- The queue at the end of `insert`, whose last search found `r`.
  abbrev pub inserted : StaticQueue A → Pointer → StaticQueue A
  inserted q none = record q {
    m_next_available_slot = none;
    queue = record q.queue { m_full = true };
  }
  inserted q (some i) = record q { m_next_available_slot = some i; m_slot_index = i }

  pub insert_at_lem :
      (q : StaticQueue A) (xs : Cells A) (slot : ℕ) (v : A) (r : Pointer) (h : Holds n q.queue xs)
      → q.queue.m_full ≡ false
      → find_empty_slot n (suc n) (record q { queue = enqueued q.queue h.last slot v })
        ≡ some (r, searched r (record q { queue = enqueued q.queue h.last slot v }))
      → insert_at n (suc n) v slot q
        ≡ some (true, inserted (record q { queue = enqueued q.queue h.last slot v }) r)
  unfolding insert_at
  insert_at_lem q xs slot v none h f e =
      rw (enqueue_node_lem q.queue h.last slot v h.head f, insert_at, e) refl
  insert_at_lem q xs slot v (some i) h f e =
      rw (enqueue_node_lem q.queue h.last slot v h.head f, insert_at, e) refl

  Holds-full :
      (full : Bool) (q : LinkedQueue A) (xs : Cells A)
      → Holds n q xs
      → Holds n (record q { m_full = full }) xs
  Holds-full full q xs h = record {
    anchor = h.anchor;
    last = h.last;
    chain = h.chain;
    outside = h.outside;
    anchored = h.anchored;
    tail = h.tail;
    head = h.head;
    ends = h.ends;
    guard = h.guard;
    inside = h.inside;
  }

  pub inserted-Represents :
      (q : StaticQueue A) (xs : Cells A) (r : Pointer)
      → Holds n q.queue xs
      → q.m_slot_index < n
      → q.queue.m_full ≡ false
      → search q ≡ some r
      → Represents n (inserted q r) xs
  inserted-Represents q xs none h k f e = record {
    holds = Holds-full true q.queue xs h;
    index = k;
    ready = tt;
    full = inr (record { no_slot = refl; no_other = e });
  }
  inserted-Represents q xs (some i) h k f e =
      let found = search_from_slot n q.queue.memory q.m_slot_index h.guard i k e in
      record { holds = h; index = found.0; ready = found.1; full = inl f }
