-- ===== src/Queue/Withdrawal.antt =====
-- `remove`, `dequeue` and `reset` on a sound StaticQueue.
use xbee_mqtt.Base.{
  ℕ, ◌<◌, ◌≡◌, ◌∙◌, inl, inr, ap, sym, subst, true, Option, none, some, [], ◌∷◌, ◌++◌, arith, ◌==◌,
  Bool-cases,
}
use xbee_mqtt.Queue.Node.{Memory, unlink, points_to}
use xbee_mqtt.Queue.Linked
use xbee_mqtt.Queue.Static.{StaticQueue, dequeue, remove, reset}
use xbee_mqtt.Queue.Chain.{Cells, has}
use xbee_mqtt.Queue.Unlinking.{has_without}
use xbee_mqtt.Queue.Appending.{has_end}
use xbee_mqtt.Queue.Contents.{Holds}
use xbee_mqtt.Queue.Removal.{remove-unlink, remove_oldest, remove_oldest-head}
use xbee_mqtt.Queue.Slots.{Represents}
use xbee_mqtt.Queue.Departure.{dequeue-Represents, remove-Represents}
use xbee_mqtt.Queue.Pointers.{IsFree, OneChain}
use xbee_mqtt.Queue.Resetting.{reset-Represents}
use xbee_mqtt.Queue.Pointers.{unlink-OneChain}
use xbee_mqtt.Queue.Sound.{led, Inside, Sound}

module _ {A : Type 0} (n : ℕ) (m : Memory A) (p : ℕ) (v : A) (xs ys : Cells A) where
  unlink-led :
      (lead : Option (ℕ × A))
      → OneChain n m (led lead (xs ++ (p, v) ∷ ys))
      → OneChain n (unlink p m) (led lead (xs ++ ys))
  unlink-led none one = unlink-OneChain n m p v xs ys one
  unlink-led (some x) one = unlink-OneChain n m p v (x ∷ xs) ys one

  pub Inside-without : Inside n (xs ++ (p, v) ∷ ys) → Inside n (xs ++ ys)
  Inside-without i a h = elim (Bool-cases (has a (xs ++ (p, v) ∷ ys))) [
    | inl here ↦ i a here
    | inr out ↦ let k = has_without m p v xs ys a out in absurd (ground (arith, k, h))
  ]

module _ {A : Type 0} (n : ℕ) where
  Inside-led : (lead : Option (ℕ × A)) (xs : Cells A) → Inside n (led lead xs) → Inside n xs
  Inside-led none xs i = i
  Inside-led (some x) xs i = λ a h. i a (ground arith)

  Inside-led_without :
      (m : Memory A) (p : ℕ) (v : A) (xs ys : Cells A) (lead : Option (ℕ × A))
      → Inside n (led lead (xs ++ (p, v) ∷ ys))
      → Inside n (led lead (xs ++ ys))
  Inside-led_without m p v xs ys none i = Inside-without n m p v xs ys i
  Inside-led_without m p v xs ys (some x) i = Inside-without n m p v (x ∷ xs) ys i

  -- The newest element of a queue that is not empty stands inside the array.
  newest-Inside :
      (q : Linked.LinkedQueue A) (a : ℕ) (u : A) (xs : Cells A) (l : ℕ)
      → Holds n q ((a, u) ∷ xs)
      → Inside n ((a, u) ∷ xs)
      → q.m_head ≡ some l
      → l < n
  newest-Inside q a u xs l h i e =
      let at : h.last ≡ l = ground (arith, h.head) in
      subst (λ k. k < n) at (i h.last (has_end h.last a u xs h.ends))

  newest_after :
      (q : StaticQueue A) (p : ℕ) (v : A) (xs ys : Cells A)
      → Sound n q (xs ++ (p, v) ∷ ys)
      → Represents n (remove p q) (xs ++ ys)
      → Inside n (xs ++ ys)
      → (l : ℕ) → (remove p q).queue.m_head ≡ some l
      → l < n
  unfolding remove
  newest_after q p v [] ys s r i l e =
      s.newest l (sym (remove_oldest-head n q.queue p v ys s.rep.holds) ∙ e)
  newest_after q p v ((a, u) ∷ xs) ys s r i l e =
      newest-Inside (Linked.remove p q.queue) a u (xs ++ ys) l r.holds i e

  -- `remove` of any element of a sound queue leaves the others in their order, and the queue sound.
  pub remove-Sound :
      (q : StaticQueue A) (p : ℕ) (v : A) (xs ys : Cells A)
      → Sound n q (xs ++ (p, v) ∷ ys)
      → Sound n (remove p q) (xs ++ ys)
  unfolding remove
  remove-Sound q p v xs ys s =
      let rep = remove-Represents n q p v xs ys s.rep in
      let inside = Inside-led_without q.queue.memory p v xs ys s.lead s.inside in
      record {
        rep = rep;
        lead = s.lead;
        one =
            subst (λ m. OneChain n m (led s.lead (xs ++ ys)))
              (sym (remove-unlink n q.queue p v xs ys s.rep.holds).0)
              (unlink-led n q.queue.memory p v xs ys s.lead s.one);
        inside = inside;
        slot = s.slot;
        newest = newest_after q p v xs ys s rep (Inside-led s.lead (xs ++ ys) inside);
      }

  dequeue-remove :
      (q : StaticQueue A) (p : ℕ) (v : A) → q.queue.m_tail ≡ some p → (dequeue q).1 ≡ remove p q
  unfolding dequeue remove
  dequeue-remove q p v e =
      let here : (p == p) ≡ true = ground arith in
      let oldest : points_to p q.queue.m_tail ≡ true = rw e here in
      ap (λ x. record q { queue = x }) (sym (remove_oldest n q.queue p v oldest))

  -- `dequeue` returns the oldest value and leaves the others.
  pub dequeue-Sound :
      (q : StaticQueue A) (p : ℕ) (v : A) (ys : Cells A)
      → Sound n q ((p, v) ∷ ys)
      → ((dequeue q).0 ≡ some v) × Sound n (dequeue q).1 ys
  dequeue-Sound q p v ys s = (
    (dequeue-Represents n q p v ys s.rep).0,
    subst (λ x. Sound n x ys) (sym (dequeue-remove q p v s.rep.holds.tail))
        (remove-Sound q p v [] ys s),
  )

  -- `reset` of a sound queue leaves an empty sound queue, with no slot linked and no pointers among
  -- the slots.
  pub reset-Sound :
      (q : StaticQueue A) (xs : Cells A)
      → Sound n q xs
      → Sound n (reset n q) [] × ((p : ℕ) → p < n → IsFree ((reset n q).queue.memory p))
  unfolding reset Linked.init
  reset-Sound q xs s =
      let k : 0 < n = omega (arith, s.rep.index) in
      let (rep, free) = reset-Represents n q (led s.lead xs) s.one s.rep.holds.guard k in
      (
        record {
          rep = rep;
          lead = none;
          one = (tt, λ p l o. (free p l).1);
          inside = λ p h. absurd (ground arith);
          slot = λ a e. ground arith;
          newest = λ a e. ground arith;
        },
        free,
      )
