-- ===== src/Worker/Run.antt =====
-- The sequence of two steps of a method of the worker, as that of Exec, but opaque: what is proved of a
-- method follows its steps.
use openlinker_python.Exec.{Exec, continue}

module _ {S A B : Type 0} where
  infixl 5 ◌>>=◌
  unfoldable pub ◌>>=◌ : Exec S A → (A → Exec S B) → Exec S B
  (m >>= f) s = let (r, s') = m s in continue r f s'
