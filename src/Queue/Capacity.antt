-- ===== src/Queue/Capacity.antt =====
-- StaticQueue::insert called on a new queue, as often as there are slots.
use xbee_mqtt.Base.{
  ℕ, zero, suc, ◌+◌, ◌<◌, ◌≡◌, ◌∙◌, refl, sym, ap, Bool, true, false, Option, none, some, List, [],
  ◌∷◌, ◌++◌, arith, replicate, if◌then◌else◌, ltb,
}
use xbee_mqtt.Base
use mathlib.Core.List.{append_assoc}
use xbee_mqtt.Queue.Node.{Memory, new_node}
use xbee_mqtt.Queue.Static.{StaticQueue, insert, new_static_queue, new_memory}
use xbee_mqtt.Queue.Chain.{Cells}
use xbee_mqtt.Queue.Slots.{Represents, inserted, find_empty_slot_found}
use xbee_mqtt.Queue.Insertion.{insert_nowhere}
use xbee_mqtt.Queue.Filling.{Filled, linked_at, search_last, fill_next, fill_end}
use xbee_mqtt.Queue.Answers.{Op, Reply, values, values-append}
use xbee_mqtt.Queue.Fifo.{step, run, new-Represents}

module _ {A : Type 0} where
  abbrev pub inserts : List A → List (Op A)
  inserts [] = []
  inserts (v ∷ vs) = Op.insert v ∷ inserts vs

  abbrev pub accepted : List A → List (Reply A)
  accepted [] = []
  accepted (v ∷ vs) = Reply.inserted true ∷ accepted vs

module _ {A : Type 0} (n : ℕ) where
  run-insert :
      (v : A) (ops : List (Op A)) (q q1 q' : StaticQueue A) (replies : List (Reply A))
      → insert n (suc n) v q ≡ some (true, q1)
      → run n ops q1 ≡ some (replies, q')
      → run n (Op.insert v ∷ ops) q ≡ some (Reply.inserted true ∷ replies, q')
  unfolding run step
  run-insert v ops q q1 q' replies e f = rw (run, step, e, f) refl

  -- The queue holds the values and has no slot left.
  abbrev pub FullOf : List A → StaticQueue A → Type 0
  FullOf vs q =
      (xs : Cells A) × (values xs ≡ vs)
      × Represents n q xs
      × ((u : A) → insert n (suc n) u q ≡ some (false, q))

  fill_last :
      (v : A) (k : ℕ) (q : StaticQueue A) (xs : Cells A)
      → Filled n k q xs
      → k + 1 ≡ n
      → (q' : StaticQueue A) × (run n (inserts (v ∷ [])) q ≡ some (accepted (v ∷ []), q'))
        × FullOf (values xs ++ v ∷ []) q'
  unfolding run
  fill_last v k q xs f h =
      let (e, rep) = fill_end n k q xs v f (omega arith) h in
      let q' : StaticQueue A = inserted n (linked_at n k q xs v f (omega arith)) none in
      (
        q',
        run-insert v [] q q' q' [] e refl,
        (
          xs ++ (k, v) ∷ [],
          values-append xs ((k, v) ∷ []),
          rep,
          λ u.
              insert_nowhere n u xs q' refl
                (find_empty_slot_found n q' none (search_last n k q xs v f (omega arith) h)),
        ),
      )

  fill_from :
      (v : A) (vs : List A) (k : ℕ) (q : StaticQueue A) (xs : Cells A)
      → Filled n k q xs
      → k + Base.length (v ∷ vs) ≡ n
      → (q' : StaticQueue A) × (run n (inserts (v ∷ vs)) q ≡ some (accepted (v ∷ vs), q'))
        × FullOf (values xs ++ v ∷ vs) q'
  fill_from v [] k q xs f h = fill_last v k q xs f (omega arith)
  fill_from v (u ∷ vs) k q xs f h =
      let room : k + 1 < n = omega arith in
      let (e, g) = fill_next n k q xs v f (omega arith) room in
      let q1 : StaticQueue A = inserted n (linked_at n k q xs v f (omega arith)) (some (k + 1)) in
      let (q', went, (ys, same, rep, refused)) =
        fill_from u vs (k + 1) q1 (xs ++ (k, v) ∷ []) g (omega arith) in
      (
        q',
        run-insert v (inserts (u ∷ vs)) q q1 q' (accepted (u ∷ vs)) e went,
        (
          ys,
          same ∙ rw (values-append xs ((k, v) ∷ [])) (append_assoc (values xs) (v ∷ []) (u ∷ vs)),
          rep,
          refused,
        ),
      )

  pub new-Filled :
      (raw : Memory A) → 0 < n → (raw n).linked ≡ true → Filled n 0 (new_static_queue n raw) []
  unfolding new_static_queue new_memory new_node
  new-Filled raw k g = record {
    rep = new-Represents n raw k g;
    next = refl;
    at = refl;
    behind = λ l e. ground arith;
    used = λ p h. absurd (omega arith);
    free = λ p h l. ground arith;
  }

  -- A new StaticQueue of n slots, n at least 1, behind whose array the memory reads as a linked node,
  -- accepts n elements in a row, holds them in their order, and refuses any other and changes nothing
  -- then.
  pub fills :
      (raw : Memory A) (v : A) (vs : List A)
      → Base.length (v ∷ vs) ≡ n
      → (raw n).linked ≡ true
      → (q' : StaticQueue A) × (run n (inserts (v ∷ vs)) (new_static_queue n raw)
          ≡ some (accepted (v ∷ vs), q'))
        × FullOf (v ∷ vs) q'
  fills raw v vs h g =
      fill_from v vs 0 (new_static_queue n raw) [] (new-Filled raw (omega arith) g) (omega arith)
