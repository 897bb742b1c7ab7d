-- ===== src/Common/Options.antt =====
-- The do blocks of code that may meet undefined behaviour, or run out of rounds: both are `none`.
use mathlib.Core.Option.{Option, none, some}

infixl 5 ◌>>=◌
abbrev pub ◌>>=◌ {ℓ κ} : {A : Type ℓ} {B : Type κ} → Option A → (A → Option B) → Option B
none >>= rest = none
some a >>= rest = rest a
