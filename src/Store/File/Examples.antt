-- ===== src/Store/File/Examples.antt =====
-- The theorems on `FileRuntimeStore` (src/openlinker/runtime/store.py) at concrete stores, and runs of
-- its methods.
use openlinker_python.Prelude.{
  ℕ, zero, suc, ◌≡◌, refl, ◌⊎◌, List, [], ◌∷◌, none, some, arith, all_of,
}
use openlinker_python.Errors.{io_failure, store_poisoned}
use openlinker_python.Store.Reach.{Call, after_calls, creates, advances, closes}
use openlinker_python.Store.State.{ack_sent}
use openlinker_python.Store.Examples.{empty_store, message, code}
use openlinker_python.Store.File.{
  Device, FileStore, Outcome, done, fails, ready_unless, write_record, inherited, poisoning,
  ensure_capacity, replace_file, persist_assignment, used_bytes, wire_json_bytes,
}
use openlinker_python.Store.File.Methods.{create_assignment, advance_assignment}
use openlinker_python.Store.File.Reach.{here, next, after}
use openlinker_python.Store.File.Ready.{after-not_ready}
use openlinker_python.Store.File.Mirrored.{after_file_calls, after_file_calls-eq}
use openlinker_python.Store.File.Sizes.{sizes_of}
use openlinker_python.Store.File.Capacity.{Fits}
use openlinker_python.Store.File.Bounded.{Reach-Fits}
use openlinker_python.Examples.{assignment, flat}

-- the first write succeeds, every later one fails
abbrev first_only : ℕ → Outcome
first_only zero = done
first_only (suc n) = fails

abbrev device : Device
device = record {
  envelope_size = λ r. 100;
  plaintext_size = λ r. 50;
  outcome = first_only;
  free_space = λ n. some 1000;
  admission = λ n. n;
}

abbrev empty_dir : FileStore
empty_dir = record {
  memory = empty_store;
  max_bytes = 250;
  max_records = 2;
  reserve_bytes = 10;
  file_sizes = [];
  disk = [];
  poisoned = none;
  clock = 0;
}

abbrev create : Call
create = creates assignment 1

abbrev created : FileStore
created = after device empty_dir create

abbrev broken : FileStore
broken = after device created (advances message ack_sent 2)

broken-poisoned : broken.poisoned ≡ some io_failure
unfolding after create_assignment advance_assignment inherited poisoning persist_assignment
    write_record ensure_capacity replace_file used_bytes wire_json_bytes ready_unless code
broken-poisoned = refl

after-not_ready_example : (after device broken create ≡ broken) ⊎ (create ≡ closes)
unfolding after create_assignment advance_assignment inherited poisoning persist_assignment
    write_record ensure_capacity replace_file used_bytes wire_json_bytes ready_unless code
after-not_ready_example = after-not_ready broken store_poisoned refl device create

Reach-Fits_example : Fits device 250 2 broken
unfolding used_bytes sizes_of
Reach-Fits_example =
    Reach-Fits device (next (next here create) (advances message ack_sent 2))
      (record {
        same_bytes = refl;
        same_records = refl;
        bytes_fit = omega arith;
        records_fit = omega arith;
      })
      refl

abbrev sound_device : Device
sound_device = record device { outcome = λ n. done }

abbrev two_calls : List Call
two_calls = create ∷ advances message ack_sent 2 ∷ []

after_file_calls-eq_example :
    (after_file_calls sound_device empty_dir two_calls).memory ≡ after_calls empty_store two_calls
unfolding after_file_calls after create_assignment advance_assignment inherited poisoning
    persist_assignment write_record ensure_capacity replace_file used_bytes wire_json_bytes
    ready_unless code all_of
after_file_calls-eq_example = after_file_calls-eq sound_device two_calls empty_dir refl refl refl
