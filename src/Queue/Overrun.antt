-- ===== src/Queue/Overrun.antt =====
-- StaticQueue::findEmptySlot at the end of the array: the loop starts at `m_slot_index + 1`, which is
-- not reduced modulo N_MEMB.
use native.Mathlib.Nat.{mod-eq_of_lt, add-mod_left, mod-lt}
use native.Mathlib.Decide.{dec_lt}
use xbee_mqtt.Base.{
  ℕ, zero, suc, ◌+◌, ◌%◌, ◌≤◌, ◌<◌, ◌≡◌, ◌∙◌, ap, refl, true, false, none, some, arith,
}
use xbee_mqtt.Queue.Node.{Memory}
use xbee_mqtt.Queue.Static.{StaticQueue, search_from, find_empty_slot}
use xbee_mqtt.Queue.Search.{step_inside}

module _ {A : Type 0} (n : ℕ) (m : Memory A) (stop : ℕ) where
  -- Past linked slots only, the loop reaches the place where it stops, or goes round for ever.
  pub search_below-none :
      (fuel i : ℕ)
      → i ≤ stop
      → stop < n
      → stop < i + fuel
      → ((p : ℕ) → i ≤ p → p < stop → (m p).linked ≡ true)
      → search_from n fuel i stop m ≡ some none
  unfolding search_from
  search_below-none zero i h k l a = ground arith
  search_below-none (suc fuel) i h k l a =
      ground (arith, step_inside n i, search_below-none fuel (i + 1), a i)

  -- From the last slot the loop goes over a linked node behind the array, and on at slot 1 if there
  -- is one.
  pub search_skips :
      stop + 1 ≡ n
      → (m n).linked ≡ true
      → ((p : ℕ) → 0 < p → p < stop → (m p).linked ≡ true)
      → search_from n (suc n) (stop + 1) stop m ≡ some none
  unfolding search_from
  search_skips h g a = elim (dec_lt 1 n) [
    | yes k ↦
        let one : (stop + 1 + 1) % n ≡ 1 =
          ap (λ s. (s + 1) % n) h ∙ add-mod_left n 1 ∙ mod-eq_of_lt k in
        ground (
          arith,
          search_below-none n 1 (omega arith) (omega arith) (omega arith)
              (λ p b c. a p (omega arith) c),
        )
    | no k ↦
        let one : (stop + 1 + 1) % n < n = mod-lt (stop + 1 + 1) {m = n} (omega arith) in
        ground (
          arith,
          search_below-none n ((stop + 1 + 1) % n) (omega arith) (omega arith) (omega arith)
              (λ p b c. a p (omega arith) c),
        )
  ]

  search_round :
      (fuel i : ℕ)
      → 0 < n
      → n ≤ stop
      → i < n
      → ((p : ℕ) → p < n → (m p).linked ≡ true)
      → search_from n fuel i stop m ≡ none
  unfolding search_from
  search_round zero i h k l a = refl
  search_round (suc fuel) i h k l a =
      let inside : (i + 1) % n < n = mod-lt (i + 1) {m = n} h in
      rw (a i l, search_round fuel ((i + 1) % n) h k inside a) (ground arith)

module _ {A : Type 0} (n : ℕ) (q : StaticQueue A) where
  -- With its index on the array's last slot, the search reads the memory behind the array; if that
  -- reads as an unlinked node, the search returns a slot behind the array and puts the index there.
  pub find_empty_slot_behind :
      (fuel : ℕ)
      → q.m_slot_index + 1 ≡ n
      → (q.queue.memory n).linked ≡ false
      → find_empty_slot n (suc fuel) q ≡ some (some n, record q { m_slot_index = n })
  unfolding find_empty_slot search_from
  find_empty_slot_behind fuel h k = ground arith

  -- With its index on the array's last slot and a linked node read behind the array, the search starts
  -- over at slot 1: it finds none although slot 0 may be free.
  pub find_empty_slot_skips :
      q.m_slot_index + 1 ≡ n
      → (q.queue.memory n).linked ≡ true
      → ((p : ℕ) → 0 < p → p < q.m_slot_index → (q.queue.memory p).linked ≡ true)
      → find_empty_slot n (suc n) q ≡ some (none, q)
  unfolding find_empty_slot
  find_empty_slot_skips h g a =
      rw (search_skips n q.queue.memory q.m_slot_index h g a, find_empty_slot) refl

  -- With its index behind the array, every slot linked and the node after that place linked, the
  -- search never ends.
  pub find_empty_slot_forever :
      (fuel : ℕ)
      → 0 < n
      → q.m_slot_index ≡ n
      → (q.queue.memory (n + 1)).linked ≡ true
      → ((p : ℕ) → p < n → (q.queue.memory p).linked ≡ true)
      → find_empty_slot n fuel q ≡ none
  unfolding find_empty_slot search_from
  find_empty_slot_forever zero z h g a = refl
  find_empty_slot_forever (suc fuel) z h g a = ground (
    arith,
    search_round n q.queue.memory q.m_slot_index fuel ((q.m_slot_index + 1 + 1) % n) z (omega arith)
        (mod-lt (q.m_slot_index + 1 + 1) {m = n} z) a,
  )
