-- ===== src/Store/File/Keys.antt =====
-- The paths of the record files of a `FileRuntimeStore` (src/openlinker/runtime/store.py), as what
-- `_assignment_path`, `_event_path` and `_result_path` put into them.
use openlinker_python.Prelude.{◌≡◌, Bool, true, false, ◌&&◌, text_eq, ◌==◌, Eq, ◌↔◌, Text, arith}

pub data RecordPath : Type 0 where
  assignment_path : Text → RecordPath
  event_path : Text → Text → RecordPath
  result_path : Text → RecordPath

abbrev pub path_beq : RecordPath → RecordPath → Bool
path_beq (assignment_path m) (assignment_path n) = m == n
path_beq (event_path a e) (event_path b f) = a == b && e == f
path_beq (result_path a) (result_path b) = a == b
path_beq _ _ = false

pub path_beq_iff : (a b : RecordPath) → (path_beq a b ≡ true) ↔ (a ≡ b)
path_beq_iff (assignment_path m) (assignment_path n) = ground (arith, text_eq.same_iff m n)
path_beq_iff (event_path a e) (event_path b f) =
    ground (arith, text_eq.same_iff a b, text_eq.same_iff e f)
path_beq_iff (result_path a) (result_path b) = ground (arith, text_eq.same_iff a b)
path_beq_iff (assignment_path m) (event_path b f) = ground arith
path_beq_iff (assignment_path m) (result_path b) = ground arith
path_beq_iff (event_path a e) (assignment_path n) = ground arith
path_beq_iff (event_path a e) (result_path b) = ground arith
path_beq_iff (result_path a) (assignment_path n) = ground arith
path_beq_iff (result_path a) (event_path b f) = ground arith

instance abbrev pub path_eq : Eq RecordPath
path_eq = record { same = path_beq; same_iff = path_beq_iff }
