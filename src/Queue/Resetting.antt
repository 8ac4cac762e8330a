-- ===== src/Queue/Resetting.antt =====
-- StaticQueue::reset, slot by slot.
use xbee_mqtt.Base.{
  ℕ, zero, suc, ◌+◌, ◌≤◌, ◌<◌, ◌≡◌, inl, inr, refl, subst, true, false, none, [], ◌∷◌, ◌++◌, arith,
  ◌==◌, Bool-cases,
}
use native.Mathlib.Decide.{dec_lt}
use xbee_mqtt.Queue.Node.{Memory, unlink}
use xbee_mqtt.Queue.Linked.{init}
use xbee_mqtt.Queue.Static.{StaticQueue, unlink_from, reset}
use xbee_mqtt.Queue.Chain.{Cells, has, Chain-frame, unlink-spares, ne_of_has}
use xbee_mqtt.Queue.Unlinking.{has_without}
use xbee_mqtt.Queue.Splitting.{has-split, removed_out}
use xbee_mqtt.Queue.Pointers.{
  IsAlone, IsFree, OneChain, unlink_every, unlink_spared, unlink-OneChain,
}
use xbee_mqtt.Queue.Removal.{unlink-linked}
use xbee_mqtt.Queue.Slots.{Represents}

module _ {A : Type 0} (n : ℕ) where
  -- The slots below `i` have left the chain.
  record Freed (i : ℕ) (m : Memory A) (xs : Cells A) : Type 0 where
    one : OneChain n m xs
    out : (p : ℕ) → p < i → has p xs ≡ false
    free : (p : ℕ) → p < i → (m p).linked ≡ false

  -- A node that no pointers lead from is freed, and nothing else changes.
  unlink_alone : (m : Memory A) (i p : ℕ) → IsAlone (m i) → (p == i) ≡ false → unlink i m p ≡ m p
  unlink_alone m i p h k = unlink-spares m i p k (rw h.0 refl) (rw h.1 refl)

  Freed-alone :
      (i : ℕ) (m : Memory A) (xs : Cells A)
      → Freed i m xs
      → i < n
      → has i xs ≡ false
      → Freed (i + 1) (unlink i m) xs
  Freed-alone i m xs f h o =
      let here = f.one.1 i h o in
      let same : (a : ℕ) → (a == i) ≡ false → unlink i m a ≡ m a =
        (λ a k. unlink_alone m i a here k) in
      record {
        one = (
          Chain-frame m (unlink i m) none xs (λ a k. same a (ne_of_has a i xs k o)) f.one.0,
          λ p k l. unlink_every IsAlone m i p (refl, refl) (λ e. rw (same p e) (f.one.1 p k l)),
        );
        out = λ p k. elim (dec_lt p i) [
          | yes less ↦ f.out p less
          | no more ↦ let at : p ≡ i = omega arith in rw at o
        ];
        free = λ p k.
            unlink_every (λ x. x.linked ≡ false) m i p refl
              (λ e. rw (same p e) (f.free p (ground arith)));
      }

  Freed-chain :
      (i : ℕ) (m : Memory A) (v : A) (xs ys : Cells A)
      → Freed i m (xs ++ (i, v) ∷ ys)
      → Freed (i + 1) (unlink i m) (xs ++ ys)
  Freed-chain i m v xs ys f =
      let gone = removed_out m i v xs ys none f.one.0 in
      let out : (p : ℕ) → p < i + 1 → has p (xs ++ ys) ≡ false = (λ p k. elim (dec_lt p i) [
        | yes less ↦ has_without m i v xs ys p (f.out p less)
        | no more ↦ let at : p ≡ i = omega arith in rw at gone
      ]) in
      record {
        one = unlink-OneChain n m i v xs ys f.one;
        out = out;
        free = λ p k.
            unlink_every (λ x. x.linked ≡ false) m i p refl
              (λ e. rw (unlink_spared m i v xs ys f.one.0 p e (out p k)) (f.free p (ground arith)));
      }

  Freed-unlink :
      (i : ℕ) (m : Memory A) (xs : Cells A)
      → Freed i m xs
      → i < n
      → (ys : Cells A) × Freed (i + 1) (unlink i m) ys
  Freed-unlink i m xs f h = elim (Bool-cases (has i xs)) [
    | inl inside ↦
        let (ys, v, zs, e) = has-split i xs inside in
        (ys ++ zs, Freed-chain i m v ys zs (subst (Freed i m) e f))
    | inr outside ↦ (xs, Freed-alone i m xs f h outside)
  ]

  unlink_from-Freed :
      (k i : ℕ) (m : Memory A) (xs : Cells A)
      → Freed i m xs
      → i + k ≡ n
      → (ys : Cells A) × Freed n (unlink_from n k i m) ys
  unfolding unlink_from
  unlink_from-Freed zero i m xs f h = (xs, subst (λ a. Freed a m xs) (omega arith) f)
  unlink_from-Freed (suc k) i m xs f h =
      let (ys, g) = Freed-unlink i m xs f (omega arith) in
      unlink_from-Freed k (i + 1) (unlink i m) ys g (omega arith)

  -- A linked node behind the array stays linked.
  unlink_from-linked :
      (k i : ℕ) (m : Memory A)
      → i + k ≤ n
      → (m n).linked ≡ true
      → (unlink_from n k i m n).linked ≡ true
  unfolding unlink_from
  unlink_from-linked zero i m h l = l
  unlink_from-linked (suc k) i m h l =
      unlink_from-linked k (i + 1) (unlink i m) (omega arith) (unlink-linked m i n (ground arith) l)

  -- `reset` of a queue all of whose pointers are those of one chain, with a linked node read behind the
  -- array, gives a well-formed empty queue with no slot linked and no pointers among the slots.
  pub reset-Represents :
      (q : StaticQueue A) (xs : Cells A)
      → OneChain n q.queue.memory xs
      → (q.queue.memory n).linked ≡ true
      → 0 < n
      → Represents n (reset n q) [] × ((p : ℕ) → p < n → IsFree ((reset n q).queue.memory p))
  unfolding reset init
  reset-Represents q xs one g k =
      let start : Freed 0 q.queue.memory xs = record {
        one = one;
        out = λ p l. absurd (omega arith);
        free = λ p l. absurd (omega arith);
      } in
      let (ys, f) = unlink_from-Freed n 0 q.queue.memory xs start (omega arith) in
      (
        record {
          holds = record {
            anchor = none;
            last = 0;
            chain = tt;
            outside = refl;
            anchored = tt;
            tail = refl;
            head = refl;
            ends = tt;
            guard = unlink_from-linked n 0 q.queue.memory (omega arith) g;
            inside = refl;
          };
          index = k;
          ready = f.free 0 k;
          full = inl refl;
        },
        λ p l. (f.free p l, f.one.1 p l (f.out p l)),
      )
