-- ===== src/Queue/Sound.antt =====
-- What a StaticQueue keeps besides the elements it represents: where its pointers lead.
use xbee_mqtt.Base.{
  ℕ, ◌<◌, ◌≡◌, inl, inr, refl, subst, true, false, Option, none, some, [], ◌∷◌, ◌++◌, arith, ◌==◌,
  Bool-cases,
}
use xbee_mqtt.Queue.Node.{Memory}
use xbee_mqtt.Queue.Static.{StaticQueue}
use xbee_mqtt.Queue.Chain.{Cells, has, unlinked_out}
use xbee_mqtt.Queue.Appending.{EndsAt, has-append, placed}
use xbee_mqtt.Queue.Slots.{Represents}
use xbee_mqtt.Queue.Pointers.{IsAlone, OneChain}
use xbee_mqtt.Queue.Pointers.{placed-OneChain, placed-alone, placed-again}

module _ {A : Type 0} where
  -- The cells, behind one that left the queue and was linked again, if there is one.
  abbrev pub led : Option (ℕ × A) → Cells A → Cells A
  led none xs = xs
  led (some x) xs = x ∷ xs

  abbrev pub Inside : ℕ → Cells A → Type 0
  Inside n xs = (p : ℕ) → has p xs ≡ true → p < n

  Inside-append :
      (n c : ℕ) (v : A) (xs : Cells A) → Inside n xs → c < n → Inside n (xs ++ (c, v) ∷ [])
  Inside-append n c v xs i k p h = elim (Bool-cases (has p xs)) [
    | inl here ↦ i p here
    | inr out ↦ elim (Bool-cases (p == c)) [
      | inl same ↦ ground arith
      | inr other ↦ absurd (ground (arith, has-append p c v xs out other))
    ]
  ]

  -- In an empty queue no pointers lead from any slot.
  led-IsAlone :
      (n : ℕ) (m : Memory A) (lead : Option (ℕ × A))
      → OneChain n m (led lead [])
      → (a : ℕ) → a < n
      → IsAlone (m a)
  led-IsAlone n m none one a k = one.1 a k refl
  led-IsAlone n m (some (b, u)) one a k = elim (Bool-cases (a == b)) [
    | inl same ↦
        let (l, prev, w, next, out, rest) = one.0 in
        let at : b ≡ a = ground arith in subst (λ x. IsAlone (m x)) at (next, prev)
    | inr other ↦ one.1 a k (ground arith)
  ]

  pub record Sound (n : ℕ) (q : StaticQueue A) (xs : Cells A) : Type 0 where
    pub rep : Represents n q xs
    pub lead : Option (ℕ × A)
    pub one : OneChain n q.queue.memory (led lead xs)
    pub inside : Inside n (led lead xs)
    pub slot : (s : ℕ) → q.m_next_available_slot ≡ some s → s < n
    pub newest : (l : ℕ) → q.queue.m_head ≡ some l → l < n

module _ {A : Type 0} (n : ℕ) (m : Memory A) (h c : ℕ) (v : A) (k : h < n) (room : c < n) where
  pub placed-led :
      (lead : Option (ℕ × A)) (xs : Cells A)
      → OneChain n m (led lead xs)
      → Inside n (led lead xs)
      → EndsAt h xs
      → (m c).linked ≡ false
      → (lead' : Option (ℕ × A)) × OneChain n (placed m h c v) (led lead' (xs ++ (c, v) ∷ []))
        × Inside n (led lead' (xs ++ (c, v) ∷ []))
  placed-led lead [] one i e f =
      let all = led-IsAlone n m lead one in
      elim (Bool-cases (h == c)) [
        | inl same ↦ (none, placed-again n m h c v all same, λ p l. ground arith)
        | inr apart ↦
            (some (h, (m h).value), placed-alone n m h c v all k apart, λ p l. ground arith)
      ]
  placed-led none ((p, u) ∷ xs) one i e f =
      let out = unlinked_out m none ((p, u) ∷ xs) c one.0 f in
      (none, placed-OneChain n m h c v p u xs one e out, Inside-append n c v ((p, u) ∷ xs) i room)
  placed-led (some (a, w)) ((p, u) ∷ xs) one i e f =
      let out = unlinked_out m none ((a, w) ∷ (p, u) ∷ xs) c one.0 f in
      (
        some (a, w),
        placed-OneChain n m h c v a w ((p, u) ∷ xs) one e out,
        Inside-append n c v ((a, w) ∷ (p, u) ∷ xs) i room,
      )
