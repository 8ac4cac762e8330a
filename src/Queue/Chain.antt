-- ===== src/Queue/Chain.antt =====
-- What a LinkedQueue holds: the slots and values along the `next` pointers, with the `prev` pointers
-- back.
use xbee_mqtt.Base.{ℕ, ◌≡◌, refl, Bool, true, false, ◌||◌, none, some, List, [], ◌∷◌, arith, ◌==◌}
use xbee_mqtt.Queue.Node.{Pointer, Memory, points_to, unlink}

-- The slot and the value of each element, oldest first.
abbrev pub Cells : Type 0 → Type 0
Cells A = List (ℕ × A)

module _ {A : Type 0} where
  abbrev pub first : Cells A → Pointer
  first [] = none
  first ((p, v) ∷ xs) = some p

  abbrev pub has : ℕ → Cells A → Bool
  has a [] = false
  has a ((p, v) ∷ xs) = a == p || has a xs

  -- Whether the pointer leads into the cells.
  abbrev pub leads_into : Pointer → Cells A → Bool
  leads_into none xs = false
  leads_into (some a) xs = has a xs

  -- The cells stand in the memory, linked both ways; the first one's `prev` is the pointer given.
  abbrev pub Chain : Memory A → Pointer → Cells A → Type 0
  Chain m prev [] = Unit {0}
  Chain m prev ((p, v) ∷ xs) =
      ((m p).linked ≡ true)
      × ((m p).prev ≡ prev)
      × ((m p).value ≡ v)
      × ((m p).next ≡ first xs)
      × (has p xs ≡ false)
      × Chain m (some p) xs

  -- A chain survives a change that spares its slots.
  pub Chain-frame :
      (m m' : Memory A) (prev : Pointer) (xs : Cells A)
      → ((a : ℕ) → has a xs ≡ true → m' a ≡ m a)
      → Chain m prev xs
      → Chain m' prev xs
  Chain-frame m m' prev [] same c = tt
  Chain-frame m m' prev ((p, v) ∷ xs) same c =
      let here : m' p ≡ m p = same p (ground arith) in
      let (l, b, w, n, out, rest) = c in
      (
        ground arith,
        ground arith,
        ground arith,
        ground arith,
        out,
        Chain-frame m m' (some p) xs (λ a i. same a (ground arith)) rest,
      )

  -- A slot that is not linked is in no chain.
  pub unlinked_out :
      (m : Memory A) (prev : Pointer) (xs : Cells A) (a : ℕ)
      → Chain m prev xs
      → (m a).linked ≡ false
      → has a xs ≡ false
  unlinked_out m prev [] a c h = refl
  unlinked_out m prev ((p, v) ∷ xs) a c h = ground (arith, unlinked_out m (some p) xs a)

  pub unlink-spares :
      (m : Memory A) (p a : ℕ)
      → (a == p) ≡ false
      → points_to a (m p).next ≡ false
      → points_to a (m p).prev ≡ false
      → unlink p m a ≡ m a
  unfolding unlink
  unlink-spares m p a h k l = ground arith

  pub points_to-first : (a : ℕ) (xs : Cells A) → has a xs ≡ false → points_to a (first xs) ≡ false
  points_to-first a [] h = refl
  points_to-first a ((p, v) ∷ xs) h = ground arith

  pub ne_of_has : (a b : ℕ) (xs : Cells A) → has a xs ≡ true → has b xs ≡ false → (a == b) ≡ false
  ne_of_has a b xs h k = ground arith

  pub points_to_out :
      (a : ℕ) (prev : Pointer) (xs : Cells A)
      → has a xs ≡ true
      → leads_into prev xs ≡ false
      → points_to a prev ≡ false
  points_to_out a none xs h k = refl
  points_to_out a (some z) xs h k = ne_of_has a z xs h k
