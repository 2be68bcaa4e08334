-- ===== src/Worker/Steps/Sound.antt =====
-- The store of a worker (src/openlinker/runtime/worker.py) in whatever order its tasks make their steps.
use openlinker_python.Prelude.{text_eq}
use openlinker_python.Platform.{Platform}
use openlinker_python.Store.State.{state_eq}
use openlinker_python.Store.Invariant.{IsConsistent}
use openlinker_python.Worker.Attempts.{Worker}
use openlinker_python.Worker.Steps.{Steps}

module _ ⦃p : Platform⦄ where
  -- the store of a worker is consistent
  abbrev pub HasConsistent : Worker → Type 0
  HasConsistent w = IsConsistent w.store
