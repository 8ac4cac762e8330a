-- ===== src/Queue/Answers.antt =====
-- What the clients of a StaticQueue call and are answered, and how a first-in first-out queue answers.
use xbee_mqtt.Base.{
  ℕ, suc, ◌≤◌, ◌≡◌, Bool, true, false, Option, none, some, List, [], ◌∷◌, ◌++◌, refl, ap,
}
use xbee_mqtt.Base
use xbee_mqtt.Queue.Chain.{Cells}

-- What a client calls, and the answer.
pub data Op (A : Type 0) : Type 0 where
  insert : A → Op A
  -- The other `insert`, by a pointer to a value.
  insert_pointer : A → Op A
  dequeue : Op A
  peak : Op A
  is_empty : Op A
  length : Op A
  reset : Op A
  -- `remove` of what a walk from the oldest element comes to after so many steps.
  remove : ℕ → Op A

pub data Reply (A : Type 0) : Type 0 where
  inserted : Bool → Reply A
  element : Option A → Reply A
  empty : Bool → Reply A
  count : ℕ → Reply A
  removed : Bool → Reply A
  nothing : Reply A

module _ {A : Type 0} where
  -- The elements that a first-in first-out queue has before and after an operation. It may refuse an
  -- element, and is then as it was.
  pub data Fifo : List A → Op A → Reply A → List A → Type 0 where
    appended : {xs : List A} {v : A} → Fifo xs (Op.insert v) (Reply.inserted true) (xs ++ v ∷ [])
    refused : {xs : List A} {v : A} → Fifo xs (Op.insert v) (Reply.inserted false) xs
    appended_pointee :
        {xs : List A} {v : A} → Fifo xs (Op.insert_pointer v) (Reply.inserted true) (xs ++ v ∷ [])
    refused_pointee :
        {xs : List A} {v : A} → Fifo xs (Op.insert_pointer v) (Reply.inserted false) xs
    oldest : {xs : List A} {v : A} → Fifo (v ∷ xs) Op.dequeue (Reply.element (some v)) xs
    exhausted : Fifo [] Op.dequeue (Reply.element none) []
    seen : {xs : List A} {v : A} → Fifo (v ∷ xs) Op.peak (Reply.element (some v)) (v ∷ xs)
    unseen : Fifo [] Op.peak (Reply.element none) []
    some_left : {xs : List A} {v : A} → Fifo (v ∷ xs) Op.is_empty (Reply.empty false) (v ∷ xs)
    none_left : Fifo [] Op.is_empty (Reply.empty true) []
    counted : {xs : List A} → Fifo xs Op.length (Reply.count (Base.length xs)) xs
    cleared : {xs : List A} → Fifo xs Op.reset Reply.nothing []
    taken :
        {ws : List A} {i : ℕ} (xs ys : List A) (v : A)
        → ws ≡ xs ++ v ∷ ys
        → Base.length xs ≡ i
        → Fifo ws (Op.remove i) (Reply.removed true) (xs ++ ys)
    beyond :
        {xs : List A} {i : ℕ} → Base.length xs ≤ i → Fifo xs (Op.remove i) (Reply.removed false) xs

  pub data History : List A → List (Op A) → List (Reply A) → List A → Type 0 where
    done : {xs : List A} → History xs [] [] xs
    also :
        {xs ys zs : List A} {op : Op A} {ops : List (Op A)} {reply : Reply A}
        {replies : List (Reply A)}
        → Fifo xs op reply ys
        → History ys ops replies zs
        → History xs (op ∷ ops) (reply ∷ replies) zs

  abbrev pub values : Cells A → List A
  values [] = []
  values ((p, v) ∷ xs) = v ∷ values xs

  pub values-append : (xs ys : Cells A) → values (xs ++ ys) ≡ values xs ++ values ys
  values-append [] ys = refl
  values-append ((a, u) ∷ xs) ys = ap (λ zs. u ∷ zs) (values-append xs ys)

  pub length-values : (xs : Cells A) → Base.length (values xs) ≡ Base.length xs
  length-values [] = refl
  length-values ((p, v) ∷ xs) = ap suc (length-values xs)
