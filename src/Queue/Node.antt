-- ===== src/Queue/Node.antt =====
-- libs/static_queue/linked_node.h: class LinkedNode, in a memory of nodes. A node's address is its
-- place counted from `m_array[0]` of the queue that owns it, so the places from N_MEMB on are the
-- memory behind the array.
use xbee_mqtt.Base.{ℕ, Bool, true, false, Option, none, some, ◌==◌, if◌then◌else◌}

-- LinkedNode<T> *, with `none` for nullptr.
abbrev pub Pointer : Type 0
Pointer = Option ℕ

pub record Node (A : Type 0) : Type 0 where
  pub linked : Bool
  pub next : Pointer
  pub prev : Pointer
  pub value : A

abbrev pub Memory : Type 0 → Type 0
Memory A = ℕ → Node A

-- `this == p`
abbrev pub points_to : ℕ → Pointer → Bool
points_to this none = false
points_to this (some p) = this == p

module _ {A : Type 0} where
  unfoldable pub update : ℕ → (Node A → Node A) → Memory A → Memory A
  update p f m q = if q == p then f (m q) else m q

  -- LinkedNode::LinkedNode(T const &)
  unfoldable pub new_node : A → Node A
  new_node value = record { linked = false; next = none; prev = none; value = value }

  unfoldable pub mark_linked : ℕ → Memory A → Memory A
  unfolding update
  mark_linked this m = update this (λ n. record n { linked = true }) m

  -- LinkedNode::linkPrev and LinkedNode::linkNext, with the result
  unfoldable pub link_prev : ℕ → Pointer → Memory A → Bool × Memory A
  unfolding update mark_linked
  link_prev this prev m =
      let m' = mark_linked this m in
      if points_to this prev
      then (false, m')
      else (true, update this (λ n. record n { prev = prev }) m')

  unfoldable pub link_next : ℕ → Pointer → Memory A → Bool × Memory A
  unfolding update mark_linked
  link_next this next m =
      let m' = mark_linked this m in
      if points_to this next
      then (false, m')
      else (true, update this (λ n. record n { next = next }) m')

  -- LinkedNode::link
  unfoldable pub link : ℕ → ℕ → Memory A → Bool × Memory A
  unfolding update mark_linked link_prev
  link this next m =
      let m' = mark_linked this m in
      if this == next then (false, m') else (
        true,
        update this (λ n. record n { next = some next }) (link_prev next (some this) m').1,
      )

  -- The two tests of LinkedNode::unlink.
  unfoldable pub unlink_next : Pointer → Pointer → Memory A → Memory A
  unfolding link_prev
  unlink_next none prev m = m
  unlink_next (some n) prev m = (link_prev n prev m).1

  unfoldable pub unlink_prev : Pointer → Pointer → Memory A → Memory A
  unfolding link_next
  unlink_prev none next m = m
  unlink_prev (some p) next m = (link_next p next m).1

  -- LinkedNode::unlink
  unfoldable pub unlink : ℕ → Memory A → Memory A
  unfolding update unlink_next unlink_prev
  unlink this m =
      let m1 = unlink_next (m this).next (m this).prev m in
      let m2 = unlink_prev (m1 this).prev (m1 this).next m1 in
      update this (λ n. record n { prev = none; next = none; linked = false }) m2
