-- ===== src/Queue/Insertion.antt =====
-- StaticQueue::insert: which slot it takes.
use xbee_mqtt.Base.{ℕ, suc, ◌≡◌, ◌⊎◌, inl, inr, false, none, some, refl, arith}
use xbee_mqtt.Queue.Static.{StaticQueue, insert, insert_at, find_empty_slot}
use xbee_mqtt.Queue.Chain.{Cells}
use xbee_mqtt.Queue.Slots.{Exhausted, search}

module _ {A : Type 0} (n : ℕ) (v : A) (xs : Cells A) where
  pub slot_not_full :
      (q : StaticQueue A) (slot : ℕ)
      → (q.queue.m_full ≡ false) ⊎ Exhausted n q
      → q.m_next_available_slot ≡ some slot
      → q.queue.m_full ≡ false
  slot_not_full q slot (inl f) e = f
  slot_not_full q slot (inr x) e = let k = x.no_slot in cc

  pub found_not_full :
      (q : StaticQueue A) (slot : ℕ)
      → (q.queue.m_full ≡ false) ⊎ Exhausted n q
      → search n q ≡ some (some slot)
      → q.queue.m_full ≡ false
  found_not_full q slot (inl f) e = f
  found_not_full q slot (inr x) e = let k = x.no_other in cc

  pub insert_at_hand :
      (q : StaticQueue A) (slot : ℕ)
      → q.m_next_available_slot ≡ some slot
      → insert n (suc n) v q ≡ insert_at n (suc n) v slot q
  unfolding insert
  insert_at_hand q slot e = rw e refl

  pub insert_nowhere :
      (q : StaticQueue A)
      → q.m_next_available_slot ≡ none
      → find_empty_slot n (suc n) q ≡ some (none, q)
      → insert n (suc n) v q ≡ some (false, q)
  unfolding insert
  insert_nowhere q e f = rw (insert, e) (ground arith)

  pub insert_found :
      (q : StaticQueue A) (slot : ℕ)
      → q.m_next_available_slot ≡ none
      → find_empty_slot n (suc n) q ≡ some (some slot, record q { m_slot_index = slot })
      → insert n (suc n) v q
        ≡ insert_at n
            (suc n)
            v
            slot
            (record q { m_slot_index = slot; m_next_available_slot = some slot })
  unfolding insert insert_at
  insert_found q slot e f = rw (insert, e, f) refl
