-- ===== src/Common/Run.antt =====
-- Statements that may throw and leave their state behind.
pub data Run {ℓ} (C : Type ℓ) : Type ℓ where
  done : C → Run C
  thrown : C → Run C

infixl 5 ◌>>>◌
abbrev pub ◌>>>◌ {ℓ} : {C : Type ℓ} → Run C → (C → Run C) → Run C
done c >>> g = g c
thrown c >>> g = thrown c

-- The state that is left.
abbrev pub left_behind {ℓ} : {C : Type ℓ} → Run C → C
left_behind (done c) = c
left_behind (thrown c) = c
