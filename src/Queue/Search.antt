-- ===== src/Queue/Search.antt =====
-- StaticQueue::findEmptySlot: what its loop finds, and when it ends.
use native.Mathlib.Nat.{mod-eq_of_lt, mod_self, mod-lt}
use xbee_mqtt.Base.{
  ℕ, zero, suc, ◌+◌, ◌%◌, ◌≤◌, ◌<◌, ◌≡◌, ◌≢◌, ◌⊎◌, ap, ◌∙◌, true, false, none, some, arith,
}
use native.Mathlib.Decide.{dec_lt}
use xbee_mqtt.Queue.Node.{Memory}
use xbee_mqtt.Queue.Static.{StaticQueue, search_from, find_empty_slot}

-- `i` steps on to `i + 1` inside the array, and from its end to 0.
pub step_inside : (n i : ℕ) → i + 1 < n → (i + 1) % n ≡ i + 1
step_inside n i h = mod-eq_of_lt h

step_round : (n i : ℕ) → i + 1 ≡ n → (i + 1) % n ≡ 0
step_round n i h = ap (λ k. k % n) h ∙ mod_self n

module _ {A : Type 0} (n : ℕ) (m : Memory A) (stop : ℕ) where
  -- From below the place where it stops, and from behind it, the loop ends.
  search_below_ends :
      (fuel i : ℕ) → i ≤ stop → stop < n → stop < i + fuel → search_from n fuel i stop m ≢ none
  unfolding search_from
  search_below_ends zero i h k l e = omega arith
  search_below_ends (suc fuel) i h k l e =
      ground (arith, step_inside n i, search_below_ends fuel (i + 1))

  search_behind_ends :
      (fuel i : ℕ) → stop < i → i < n → n + stop < i + fuel → search_from n fuel i stop m ≢ none
  unfolding search_from
  search_behind_ends zero i h k l e = omega arith
  search_behind_ends (suc fuel) i h k l e = ground (
    arith,
    step_inside n i,
    step_round n i,
    search_behind_ends fuel (i + 1),
    search_below_ends fuel 0,
  )

  -- A slot that it returns is not linked and is not the one where it stops.
  pub search-unlinked :
      (fuel i j : ℕ)
      → search_from n fuel i stop m ≡ some (some j)
      → ((m j).linked ≡ false) × (j ≢ stop)
  unfolding search_from
  search-unlinked zero i j h = cc
  search-unlinked (suc fuel) i j h = ground (arith, search-unlinked fuel ((i + 1) % n) j)

  -- From inside the array it stays there.
  search-inside : (fuel i j : ℕ) → i < n → search_from n fuel i stop m ≡ some (some j) → j < n
  unfolding search_from
  search-inside zero i j k h = cc
  search-inside (suc fuel) i j k h =
      ground (arith, mod-lt (i + 1) {m = n} (omega arith), search-inside fuel ((i + 1) % n) j)

  -- Where it finds none, all the slots that it passes are linked.
  search_below-linked :
      (fuel i p : ℕ)
      → i ≤ stop
      → stop < n
      → search_from n fuel i stop m ≡ some none
      → i ≤ p
      → p < stop
      → (m p).linked ≡ true
  unfolding search_from
  search_below-linked zero i p h k e a b = cc
  search_below-linked (suc fuel) i p h k e a b =
      ground (arith, step_inside n i, search_below-linked fuel (i + 1) p)

  search_behind-linked :
      (fuel i p : ℕ)
      → stop < i
      → i < n
      → search_from n fuel i stop m ≡ some none
      → ((i ≤ p) × (p < n)) ⊎ (p < stop)
      → (m p).linked ≡ true
  unfolding search_from
  search_behind-linked zero i p h k e a = cc
  search_behind-linked (suc fuel) i p h k e a = ground (
    arith,
    step_inside n i,
    step_round n i,
    search_behind-linked fuel (i + 1) p,
    search_below-linked fuel 0 p,
  )

  search_last_ends : stop + 1 ≡ n → search_from n (suc n) (stop + 1) stop m ≢ none
  unfolding search_from
  search_last_ends h e =
      ground (
        arith,
        mod-lt (stop + 1 + 1) {m = n} (omega arith),
        search_below_ends n ((stop + 1 + 1) % n),
      )

  pub search_ends : stop < n → search_from n (suc n) (stop + 1) stop m ≢ none
  search_ends h = elim (dec_lt (stop + 1) n) [
    | yes k ↦ search_behind_ends (suc n) (stop + 1) (omega arith) k (omega arith)
    | no k ↦ search_last_ends (omega arith)
  ]

module _ {A : Type 0} (n : ℕ) (q : StaticQueue A) where
  -- With its index inside the array the search for a slot ends, within n_memb + 1 rounds.
  pub find_empty_slot-ends : q.m_slot_index < n → find_empty_slot n (suc n) q ≢ none
  unfolding find_empty_slot
  find_empty_slot-ends h e = ground (arith, search_ends n q.queue.memory q.m_slot_index h)

  -- With an index that is not the array's last, a slot that the search returns lies in the array, is
  -- not linked, and becomes the new index; nothing else of the queue changes.
  pub find_empty_slot-some :
      (fuel j : ℕ) (q' : StaticQueue A)
      → q.m_slot_index + 1 < n
      → find_empty_slot n fuel q ≡ some (some j, q')
      → (j < n) × ((q.queue.memory j).linked ≡ false) × (q' ≡ record q { m_slot_index = j })
  unfolding find_empty_slot
  find_empty_slot-some fuel j q' h e =
      let m = q.queue.memory in
      let s = q.m_slot_index in
      ground (arith, search-unlinked n m s fuel (s + 1) j, search-inside n m s fuel (s + 1) j)

  -- If it returns none, every other slot of the array is linked.
  pub find_empty_slot-none :
      (fuel p : ℕ) (q' : StaticQueue A)
      → q.m_slot_index + 1 < n
      → find_empty_slot n fuel q ≡ some (none, q')
      → p < n
      → p ≢ q.m_slot_index
      → (q.queue.memory p).linked ≡ true
  unfolding find_empty_slot
  find_empty_slot-none fuel p q' h e k ne =
      let m = q.queue.memory in
      let s = q.m_slot_index in ground (arith, search_behind-linked n m s fuel (s + 1) p)
