-- ===== src/Base/Program.antt =====
-- Stateful code: a function from the state to its result and the state it leaves.

abbrev pub Prog : Type 0 → Type 0 → Type 0
Prog S A = S → A × S

module _ {S : Type 0} where
  infixl 5 ◌>>=◌ ◌>>◌
  abbrev pub ◌>>=◌ : {A B : Type 0} → Prog S A → (A → Prog S B) → Prog S B
  ◌>>=◌ m f s = let (a, s') = m s in f a s'

  abbrev pub ◌>>◌ : {B : Type 0} → Prog S (Unit {0}) → Prog S B → Prog S B
  m >> k = m >>= λ _. k

  abbrev pub pure : {A : Type 0} → A → Prog S A
  pure a s = (a, s)

  abbrev pub get : {A : Type 0} → (S → A) → Prog S A
  get f s = (f s, s)

  abbrev pub modify : (S → S) → Prog S (Unit {0})
  modify f s = (tt, f s)
