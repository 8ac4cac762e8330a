-- ===== src/Queue/Upkeep.antt =====
-- StaticQueue::insert on a sound queue.
use xbee_mqtt.Base.{
  ℕ, suc, ◌<◌, ◌≡◌, ◌⊎◌, inl, inr, sym, subst, Bool, true, false, Option, none, some, [], ◌∷◌, ◌++◌,
  arith, Option-cases,
}
use xbee_mqtt.Queue.Node.{Pointer}
use xbee_mqtt.Queue.Static.{StaticQueue, insert, insert_at, find_empty_slot}
use xbee_mqtt.Queue.Chain.{Cells}
use xbee_mqtt.Queue.Contents.{enqueued, enqueued-Holds}
use xbee_mqtt.Queue.Slots.{
  Ready, search, searched, inserted, search_from_slot, find_empty_slot_total, insert_at_lem,
  inserted-Represents,
}
use xbee_mqtt.Queue.Insertion.{
  insert_at_hand, insert_nowhere, insert_found, slot_not_full, found_not_full,
}
use xbee_mqtt.Queue.Sound.{Sound, placed-led}

module _ {A : Type 0} (n : ℕ) (v : A) where
  abbrev pub Appended : Cells A → StaticQueue A → Option (Bool × StaticQueue A) → Type 0
  Appended xs q result =
      (slot : ℕ) × (q' : StaticQueue A) × (result ≡ some (true, q'))
      × ((q.queue.memory slot).linked ≡ false)
      × Sound n q' (xs ++ (slot, v) ∷ [])

  abbrev pub Refused : StaticQueue A → Option (Bool × StaticQueue A) → Type 0
  Refused q result =
      (q.m_next_available_slot ≡ none) × (search n q ≡ some none) × (result ≡ some (false, q))

  -- The slot that the last search of `insert` found becomes the next one.
  inserted-Sound :
      (q : StaticQueue A) (xs : Cells A) (r : Pointer)
      → Sound n q xs
      → q.queue.m_full ≡ false
      → search n q ≡ some r
      → Sound n (inserted n q r) xs
  inserted-Sound q xs none s f e = record {
    rep = inserted-Represents n q xs none s.rep.holds s.rep.index f e;
    lead = s.lead;
    one = s.one;
    inside = s.inside;
    slot = λ a k. absurd (ground arith);
    newest = s.newest;
  }
  inserted-Sound q xs (some i) s f e =
      let found =
        search_from_slot n q.queue.memory q.m_slot_index s.rep.holds.guard i s.rep.index e in
      record {
        rep = inserted-Represents n q xs (some i) s.rep.holds s.rep.index f e;
        lead = s.lead;
        one = s.one;
        inside = s.inside;
        slot = λ a k. ground (arith, found.0);
        newest = s.newest;
      }

  -- The queue with a new node linked, before the search for the next slot.
  enqueued-Sound :
      (q : StaticQueue A) (xs : Cells A) (slot : ℕ) (s : Sound n q xs)
      → q.queue.m_full ≡ false
      → (q.queue.memory slot).linked ≡ false
      → slot < n
      → Sound n
          (record q {
            queue = enqueued q.queue s.rep.holds.last slot v;
            m_next_available_slot = none;
          })
          (xs ++ (slot, v) ∷ [])
  enqueued-Sound q xs slot s f free room =
      let h = s.rep.holds in
      let (lead, one, inside) =
        placed-led n q.queue.memory h.last slot v (s.newest h.last h.head) room s.lead xs s.one
          s.inside h.ends free in
      record {
        rep = record {
          holds = enqueued-Holds n q.queue slot v free xs h;
          index = s.rep.index;
          ready = tt;
          full = inl f;
        };
        lead = lead;
        one = one;
        inside = inside;
        slot = λ a k. absurd (ground arith);
        newest = λ l k. ground arith;
      }

  inserted-none :
      (q : StaticQueue A) (xs : Cells A) (r : Pointer)
      → Sound n (inserted n (record q { m_next_available_slot = none }) r) xs
      → Sound n (inserted n q r) xs
  inserted-none q xs none s = s
  inserted-none q xs (some i) s = s

  insert_at-Sound :
      (q : StaticQueue A) (xs : Cells A) (slot : ℕ)
      → Sound n q xs
      → q.queue.m_full ≡ false
      → (q.queue.memory slot).linked ≡ false
      → slot < n
      → Appended xs q (insert_at n (suc n) v slot q)
  insert_at-Sound q xs slot s f free room =
      let h = s.rep.holds in
      let next = enqueued-Sound q xs slot s f free room in
      let q1 : StaticQueue A = record q { queue = enqueued q.queue h.last slot v } in
      let (r, e, found) = find_empty_slot_total n q1 s.rep.index in
      (
        slot,
        inserted n q1 r,
        insert_at_lem n q xs slot v r h f found,
        free,
        inserted-none q1 (xs ++ (slot, v) ∷ []) r (
            inserted-Sound (record q1 { m_next_available_slot = none }) (xs ++ (slot, v) ∷ []) r
              next f e),
      )

  insert_without_slot :
      (q : StaticQueue A) (xs : Cells A) (r : Pointer)
      → Sound n q xs
      → q.m_next_available_slot ≡ none
      → search n q ≡ some r
      → find_empty_slot n (suc n) q ≡ some (r, searched n r q)
      → Appended xs q (insert n (suc n) v q) ⊎ Refused q (insert n (suc n) v q)
  insert_without_slot q xs none s e k f = inr (e, k, insert_nowhere n v xs q e f)
  insert_without_slot q xs (some slot) s e k f =
      let found =
        search_from_slot n q.queue.memory q.m_slot_index s.rep.holds.guard slot s.rep.index k in
      let full = found_not_full n v xs q slot s.rep.full k in
      let q1 : StaticQueue A = record q {
        m_slot_index = slot;
        m_next_available_slot = some slot;
      } in
      let sound : Sound n q1 xs = record {
        rep = record { holds = s.rep.holds; index = found.0; ready = found.1; full = inl full };
        lead = s.lead;
        one = s.one;
        inside = s.inside;
        slot = λ a b. ground (arith, found.0);
        newest = s.newest;
      } in
      inl (
        subst (Appended xs q) (sym (insert_found n v xs q slot e f))
          (insert_at-Sound q1 xs slot sound full found.1 found.0))

  pub insert-Sound :
      (q : StaticQueue A) (xs : Cells A)
      → Sound n q xs
      → Appended xs q (insert n (suc n) v q) ⊎ Refused q (insert n (suc n) v q)
  insert-Sound q xs s = elim (Option-cases q.m_next_available_slot) [
    | inl e ↦
        let (r, k, f) = find_empty_slot_total n q s.rep.index in insert_without_slot q xs r s e k f
    | inr (slot, e) ↦
        let free = subst (Ready q.queue.memory) e s.rep.ready in
        let full = slot_not_full n v xs q slot s.rep.full e in
        inl (
          subst (Appended xs q) (sym (insert_at_hand n v xs q slot e))
            (insert_at-Sound q xs slot s full free (s.slot slot e)))
  ]
