-- ===== src/Base/Io.antt =====
-- Code that calls the system: a function of the system's state, which returns a value and the state
-- after it. `do` blocks run one call after the other.
abbrev pub Io : Type 0 → Type 0 → Type 0
Io W A = W → A × W

abbrev pub pure : {W A : Type 0} → A → Io W A
pure a w = (a, w)

infixl 5 ◌>>=◌ ◌>>◌
abbrev pub ◌>>=◌ : {W A B : Type 0} → Io W A → (A → Io W B) → Io W B
◌>>=◌ m f w = let (a, w') = m w in f a w'

abbrev pub ◌>>◌ : {W A B : Type 0} → Io W A → Io W B → Io W B
◌>>◌ m k w = let (_, w') = m w in k w'
