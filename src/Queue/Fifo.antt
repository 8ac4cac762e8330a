-- ===== src/Queue/Fifo.antt =====
-- A StaticQueue as its clients see it: sequences of calls and their answers, beside a first-in
-- first-out queue.
use xbee_mqtt.Base.{
  ℕ, suc, ◌<◌, ◌≡◌, ◌∙◌, ◌⊎◌, inl, inr, subst, Bool, true, false, Option, none, some, List, [], ◌∷◌,
  ◌++◌, refl, ap, arith,
}
use xbee_mqtt.Base
use xbee_mqtt.Queue.Node.{Memory, new_node}
use xbee_mqtt.Queue.Linked
use xbee_mqtt.Queue.Static
use xbee_mqtt.Queue.Static.{StaticQueue, new_memory, new_static_queue}
use xbee_mqtt.Queue.Chain.{Cells}
use xbee_mqtt.Queue.Walking.{walk, Reaches, walk-Reaches}
use xbee_mqtt.Queue.Answers.{
  Op, Reply, Fifo, appended, refused, appended_pointee, refused_pointee, oldest, exhausted, seen,
  unseen, some_left, none_left, counted, cleared, taken, beyond, History, done, also, values,
  values-append, length-values,
}
use xbee_mqtt.Queue.Slots.{Represents}
use xbee_mqtt.Queue.Departure.{dequeue-empty}
use xbee_mqtt.Queue.Sound.{Sound}
use xbee_mqtt.Queue.Upkeep.{Appended, Refused, insert-Sound}
use xbee_mqtt.Queue.Counting.{length-Sound}
use xbee_mqtt.Queue.Withdrawal.{dequeue-Sound, reset-Sound, remove-Sound}

module _ {A : Type 0} (n : ℕ) where
  -- An operation and a sequence of them, with fuel n_memb + 1 for the searches and n_memb for `length`.
  unfoldable pub step : Op A → StaticQueue A → Option (Reply A × StaticQueue A)
  step (Op.insert v) q = elim (Static.insert n (suc n) v q) [
    | none ↦ none
    | some (ok, q') ↦ some (Reply.inserted ok, q')
  ]
  step (Op.insert_pointer v) q = elim (Static.insert_pointer n (suc n) (some v) q) [
    | none ↦ none
    | some (ok, q') ↦ some (Reply.inserted ok, q')
  ]
  step Op.dequeue q = let (elem, q') = Static.dequeue q in some (Reply.element elem, q')
  step Op.peak q = some (Reply.element (Linked.peak q.queue), q)
  step Op.length q = elim (Linked.length n q.queue) [
    | none ↦ none
    | some len ↦ some (Reply.count len, q)
  ]
  step Op.reset q = some (Reply.nothing, Static.reset n q)
  step (Op.remove i) q = elim (walk i q.queue.memory (Linked.peak_node q.queue)) [
    | none ↦ some (Reply.removed false, q)
    | some p ↦ some (Reply.removed true, Static.remove p q)
  ]
  step Op.is_empty q = some (Reply.empty (Linked.is_empty q.queue), q)

  unfoldable pub run : List (Op A) → StaticQueue A → Option (List (Reply A) × StaticQueue A)
  unfolding step
  run [] q = some ([], q)
  run (op ∷ ops) q = elim (step op q) [
    | none ↦ none
    | some (reply, q1) ↦ elim (run ops q1) [
      | none ↦ none
      | some (replies, q') ↦ some (reply ∷ replies, q')
    ]
  ]

  -- What a step of the queue comes to.
  abbrev pub Answers : Cells A → Op A → StaticQueue A → Type 0
  Answers xs op q =
      (reply : Reply A) × (q' : StaticQueue A) × (ys : Cells A) × (step op q ≡ some (reply, q'))
      × Fifo (values xs) op reply (values ys)
      × Sound n q' ys

  -- The two overloads of `insert` do the same, given a pointer to a value.
  pub insert_pointer-insert :
      (v : A) (q : StaticQueue A)
      → Static.insert_pointer n (suc n) (some v) q ≡ Static.insert n (suc n) v q
  unfolding Static.insert_pointer Static.insert
  insert_pointer-insert v q = ground arith

  -- What either overload comes to, given how it is answered.
  step-insert :
      (op : Op A) (xs : Cells A) (v : A) (q : StaticQueue A)
      → Sound n q xs
      → ((ok : Bool) (q' : StaticQueue A)
          → Static.insert n (suc n) v q ≡ some (ok, q')
          → step op q ≡ some (Reply.inserted ok, q'))
      → ((ys : List A) → Fifo ys op (Reply.inserted true) (ys ++ v ∷ []))
      → ((ys : List A) → Fifo ys op (Reply.inserted false) ys)
      → Appended n v xs q (Static.insert n (suc n) v q)
        ⊎ Refused n v q (Static.insert n (suc n) v q)
      → Answers xs op q
  step-insert op xs v q h by last same (inl (slot, q', went, free, k)) = (
    Reply.inserted true,
    q',
    xs ++ (slot, v) ∷ [],
    by true q' went,
    rw (values-append xs ((slot, v) ∷ [])) (last (values xs)),
    k,
  )
  step-insert op xs v q h by last same (inr (next, none_found, went)) =
      (Reply.inserted false, q, xs, by false q went, same (values xs), h)

  step-length :
      (xs : Cells A) (q : StaticQueue A)
      → Sound n q xs
      → Linked.length n q.queue ≡ some (Base.length xs)
      → Answers xs Op.length q
  unfolding step
  step-length xs q h e =
      (Reply.count (Base.length xs), q, xs, rw (step, e) refl, rw (← length-values xs) counted, h)

  step-remove :
      (i : ℕ) (xs : Cells A) (q : StaticQueue A)
      → Sound n q xs
      → Reaches i xs (walk i q.queue.memory (Linked.peak_node q.queue))
      → Answers xs (Op.remove i) q
  unfolding step
  step-remove i xs q h (inl (ys, p, v, zs, e, f, k)) =
      let sound = subst (Sound n q) f h in
      (
        Reply.removed true,
        Static.remove p q,
        ys ++ zs,
        rw (step, e) refl,
        rw (values-append ys zs) (
            taken (values ys) (values zs) v (ap values f ∙ values-append ys ((p, v) ∷ zs))
              (length-values ys ∙ k)),
        remove-Sound n q p v ys zs sound,
      )
  step-remove i xs q h (inr (e, k)) =
      (Reply.removed false, q, xs, rw (step, e) refl, beyond (rw (length-values xs) k), h)

  step-Fifo : (xs : Cells A) (op : Op A) (q : StaticQueue A) → Sound n q xs → Answers xs op q
  unfolding step Linked.peak
  step-Fifo xs (Op.insert v) q h =
      step-insert (Op.insert v) xs v q h (λ ok q' e. rw (step, e) refl) (λ ys. appended)
        (λ ys. refused) (insert-Sound n v q xs h)
  step-Fifo xs (Op.insert_pointer v) q h =
      step-insert (Op.insert_pointer v) xs v q h
        (λ ok q' e. rw (step, insert_pointer-insert v q, e) refl) (λ ys. appended_pointee)
        (λ ys. refused_pointee) (insert-Sound n v q xs h)
  step-Fifo [] Op.dequeue q h =
      (Reply.element none, q, [], rw (dequeue-empty n q h.rep) refl, exhausted, h)
  step-Fifo ((p, v) ∷ xs) Op.dequeue q h =
      let (value, k) = dequeue-Sound n q p v xs h in
      (Reply.element (some v), (Static.dequeue q).1, xs, rw value refl, oldest, k)
  step-Fifo [] Op.peak q h =
      (Reply.element none, q, [], ground (arith, h.rep.holds.tail), unseen, h)
  step-Fifo ((p, v) ∷ xs) Op.peak q h = (
    Reply.element (some v),
    q,
    (p, v) ∷ xs,
    ground (arith, h.rep.holds.tail, h.rep.holds.chain),
    seen,
    h,
  )
  step-Fifo [] Op.is_empty q h =
      (Reply.empty true, q, [], ground (arith, h.rep.holds.tail), none_left, h)
  step-Fifo ((p, v) ∷ xs) Op.is_empty q h =
      (Reply.empty false, q, (p, v) ∷ xs, ground (arith, h.rep.holds.tail), some_left, h)
  step-Fifo xs Op.length q h = step-length xs q h (length-Sound n q xs h).1
  step-Fifo xs (Op.remove i) q h =
      let held = h.rep.holds in
      step-remove i xs q h (rw held.tail (walk-Reaches i q.queue.memory held.anchor xs held.chain))
  step-Fifo xs Op.reset q h =
      (Reply.nothing, Static.reset n q, [], refl, cleared, (reset-Sound n q xs h).0)

  run-History :
      (ops : List (Op A)) (xs : Cells A) (q : StaticQueue A)
      → Sound n q xs
      → (replies : List (Reply A)) × (q' : StaticQueue A) × (ys : Cells A) × (run ops q
          ≡ some (replies, q'))
        × History (values xs) ops replies (values ys)
        × Sound n q' ys
  unfolding run
  run-History [] xs q h = ([], q, xs, refl, done, h)
  run-History (op ∷ ops) xs q h =
      let (reply, q1, ys, e, here, k) = step-Fifo xs op q h in
      let (replies, q', zs, f, later, l) = run-History ops ys q1 k in
      (reply ∷ replies, q', zs, rw (run, e, f) refl, also here later, l)

module _ {A : Type 0} (n : ℕ) (raw : Memory A) where
  pub new-Represents : 0 < n → (raw n).linked ≡ true → Represents n (new_static_queue n raw) []
  unfolding new_static_queue new_memory new_node
  new-Represents k g = record {
    holds = record {
      anchor = none;
      last = 0;
      chain = tt;
      outside = refl;
      anchored = tt;
      tail = refl;
      head = refl;
      ends = tt;
      guard = ground arith;
      inside = refl;
    };
    index = k;
    ready = ground arith;
    full = inl refl;
  }

  pub new-Sound : 0 < n → (raw n).linked ≡ true → Sound n (new_static_queue n raw) []
  unfolding new_static_queue new_memory new_node
  new-Sound k g = record {
    rep = new-Represents k g;
    lead = none;
    one = (tt, λ p l o. (ground arith, ground arith));
    inside = λ p h. absurd (ground arith);
    slot = λ a e. ground arith;
    newest = λ a e. ground arith;
  }

  -- From a new StaticQueue with at least one slot, behind whose array the memory reads as a linked
  -- node, every sequence of insert, dequeue, peak, isEmpty, length, reset and remove (of the element
  -- that a client comes to from the oldest by next()) returns, each search for a slot within N_MEMB + 1
  -- rounds, and answers as a first-in first-out queue that may refuse an element, and from whose middle
  -- elements can be taken.
  pub run-Fifo :
      (ops : List (Op A))
      → 0 < n
      → (raw n).linked ≡ true
      → (replies : List (Reply A)) × (q' : StaticQueue A) × (xs : List A) × (run n ops
            (new_static_queue n raw)
          ≡ some (replies, q'))
        × History [] ops replies xs
  run-Fifo ops k g =
      let (replies, q', xs, e, history, h) =
        run-History n ops [] (new_static_queue n raw) (new-Sound k g) in
      (replies, q', values xs, e, history)
