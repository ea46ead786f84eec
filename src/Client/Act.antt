-- ===== src/Client/Act.antt =====
-- Actions on the world: the network, the clock, the context, the credential and the random numbers
-- are behind a state `W` that every call of them takes and gives back.
abbrev pub Act : Type 0 → Type 0 → Type 0
Act W A = W → A × W

abbrev pub return : {W A : Type 0} → A → Act W A
return a w = (a, w)

infixl 5 ◌>>=◌
abbrev pub ◌>>=◌ : {W A B : Type 0} → Act W A → (A → Act W B) → Act W B
◌>>=◌ m f w = f (m w).0 (m w).1
