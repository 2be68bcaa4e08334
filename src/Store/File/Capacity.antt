-- ===== src/Store/File/Capacity.antt =====
-- The limits of a `FileRuntimeStore` (src/openlinker/runtime/store.py) on its records and their bytes.
use openlinker_python.Prelude.{
  ℕ, ◌+◌, ◌-◌, ◌≤◌, ◌≡◌, refl, sym, ap, ◌∙◌, List, [], Bool, ◌∷◌, none, some, length, arith, inl,
  inr, Bool-cases,
}
use openlinker_python.Dict.{get, set_item, pop}
use openlinker_python.Errors.{Error, Result, ok, err, Result-cases}
use openlinker_python.Exec.{Exec, checked, continue}
use openlinker_python.Store.Memory.{MemoryStore}
use openlinker_python.Store.File.{
  Device, FileStore, Stored, Outcome-cases, used_bytes, size_at, wire_json_bytes, poisoning,
  poison_by, ready_unless, inherited, ensure_capacity, replace_file, write_record, remove_record,
  remove_records, file_ready,
}
use openlinker_python.Store.File.Sizes.{
  sizes_of, sizes_of-set_item, sizes_of-pop, length-sizes_of, used_bytes-set_item, length-set_item,
  used_bytes-pop, length-pop,
}
use openlinker_python.Store.File.Keys.{RecordPath, path_eq}

-- The limits of a store, and the files on its disk within them.
pub record Fits (device : Device) (bytes records : ℕ) (s : FileStore) : Type 0 where
  pub same_bytes : s.max_bytes ≡ bytes
  pub same_records : s.max_records ≡ records
  pub bytes_fit : used_bytes (sizes_of device s.disk) ≤ bytes
  pub records_fit : length s.disk ≤ records

-- The sizes that a store notes are those on its disk.
abbrev pub IsNoted : Device → FileStore → Type 0
IsNoted device s = s.file_sizes ≡ sizes_of device s.disk

module _ (device : Device) (bytes records : ℕ) where
  -- a store that notes what is on its disk
  abbrev pub IsExact : FileStore → Type 0
  IsExact s = Fits device bytes records s × IsNoted device s

  -- a store that does so unless it is poisoned
  abbrev pub IsStable : FileStore → Type 0
  IsStable s = Fits device bytes records s × (s.poisoned ≡ none → IsNoted device s)

  -- The end of a method: an exact store where it returns, and a store of another kind where it raises.
  unfoldable pub Ends : {A : Type 0} → (FileStore → Type 0) → Result A × FileStore → Type 0
  Ends E (ok a, s) = IsExact s
  Ends E (err e, s) = E s

  abbrev pub Leaves : {A : Type 0} → (FileStore → Type 0) → Exec FileStore A → Type 0
  Leaves E m = (s : FileStore) → IsExact s → Ends E (m s)

  pub exact-IsStable : (s : FileStore) → IsExact s → IsStable s
  exact-IsStable s x = (x.0, λ live. x.1)

  pub IsExact-after :
      (s t : FileStore)
      → t.max_bytes ≡ s.max_bytes
      → t.max_records ≡ s.max_records
      → t.disk ≡ s.disk
      → t.file_sizes ≡ s.file_sizes
      → IsExact s
      → IsExact t
  IsExact-after s t b r d z (f, noted) = (
    record {
      same_bytes = b ∙ f.same_bytes;
      same_records = r ∙ f.same_records;
      bytes_fit = rw d f.bytes_fit;
      records_fit = rw d f.records_fit;
    },
    rw (z, d) noted,
  )

  -- The rules for a method, of which the store is exact before a step: E is what an error leaves.
  module _ (E : FileStore → Type 0) where
    pub continue-Ends :
        {A B : Type 0} (r : Result A × FileStore) (f : A → Exec FileStore B)
        → Ends E r
        → ((a : A) (s : FileStore) → IsExact s → Ends E (f a s))
        → Ends E (continue r.0 f r.1)
    unfolding Ends
    continue-Ends (ok a, s) f x each = each a s x
    continue-Ends (err e, s) f x each = x

    pub pure-Ends : {A : Type 0} (a : A) (s : FileStore) → IsExact s → Ends E (ok a, s)
    unfolding Ends
    pure-Ends a s x = x

    module _ (weaken : (s : FileStore) → IsExact s → E s) where
      pub raise-Ends :
          (A : Type 0) (e : Error) (s : FileStore) → IsExact s → Ends {A = A} E (err e, s)
      unfolding Ends
      raise-Ends A e s x = weaken s x

      pub read-Leaves :
          {A B : Type 0} (m : FileStore → Result A) (f : A → Exec FileStore B)
          → ((a : A) → Leaves E (f a))
          → Leaves E (λ s. continue (m s) f s)
      unfolding Ends
      read-Leaves m f each s x = elim (Result-cases (m s)) [
        | inl (a, g) ↦ rw g (each a s x)
        | inr (e, g) ↦ rw g (weaken s x)
      ]

      pub checked-Leaves :
          {A : Type 0} (b : FileStore → Bool) (e : Error) (m : Exec FileStore A)
          → Leaves E m
          → Leaves E (λ s. checked (b s) e m s)
      unfolding Ends
      checked-Leaves b e m each s x = elim (Bool-cases (b s)) [
        | inl g ↦ rw g (each s x)
        | inr g ↦ rw g (weaken s x)
      ]

      pub inherited-Ends :
          {A : Type 0} (m : (MemoryStore → Result (Unit {0})) → Exec MemoryStore A) (s : FileStore)
          → IsExact s
          → Ends E (inherited m s)
      unfolding inherited Ends
      inherited-Ends m s x = elim (Result-cases (m (ready_unless s.poisoned) s.memory).0) [
        | inl (a, q) ↦ rw q (IsExact-after s _ refl refl refl refl x)
        | inr (e, q) ↦ rw q (weaken _ (IsExact-after s _ refl refl refl refl x))
      ]

  -- The error of a write or a removal leaves the files within the limits, and the store poisoned.
  poison_by-Ends :
      {A : Type 0} (r : Result A × FileStore)
      → Ends (Fits device bytes records) r
      → Ends IsStable (poison_by r)
  unfolding Ends
  poison_by-Ends (ok a, s) x = x
  poison_by-Ends (err e, s) f = (
    record {
      same_bytes = f.same_bytes;
      same_records = f.same_records;
      bytes_fit = f.bytes_fit;
      records_fit = f.records_fit;
    },
    λ live. absurd (ground arith),
  )

  pub poisoning-Leaves :
      {A : Type 0} (m : Exec FileStore A)
      → Leaves (Fits device bytes records) m
      → Leaves IsStable (poisoning m)
  unfolding poisoning
  poisoning-Leaves m h s x = poison_by-Ends (m s) (h s x)

  -- the sizes on the disk after a write
  sizes_written :
      (path : RecordPath) (stored : Stored) (s : FileStore)
      → IsNoted device s
      → sizes_of device (set_item s.disk path stored)
        ≡ set_item s.file_sizes path (device.envelope_size stored)
  sizes_written path stored s noted =
      sizes_of-set_item device s.disk path stored
      ∙ ap (λ d. set_item d path (device.envelope_size stored)) (sym noted)

  written-fits :
      (path : RecordPath) (stored : Stored) (s : FileStore)
      → IsExact s
      → ensure_capacity device s
          (device.envelope_size stored - size_at s.file_sizes path)
          (elim (get s.file_sizes path) [ none ↦ 1 | some n ↦ 0 ])
        ≡ ok tt
      → (used_bytes (sizes_of device (set_item s.disk path stored)) ≤ bytes)
        × (length (set_item s.disk path stored) ≤ records)
  unfolding ensure_capacity
  written-fits path stored s (f, noted) room =
      let n = device.envelope_size stored in
      let same = sizes_written path stored s noted in
      let bytes_of : used_bytes (set_item s.file_sizes path n) ≤ bytes =
        ground (arith, used_bytes-set_item s.file_sizes path n, f.same_bytes) in
      let records_of : length (set_item s.file_sizes path n) ≤ records =
        ground (arith, length-set_item s.file_sizes path n, f.same_records) in
      let counted : length (set_item s.disk path stored) ≡ length (set_item s.file_sizes path n) =
        sym (length-sizes_of device (set_item s.disk path stored)) ∙ ap length same in
      (rw same bytes_of, rw counted records_of)

  replace_file-Leaves :
      (path : RecordPath) (stored : Stored) (s : FileStore)
      → IsExact s
      → ensure_capacity device s
          (device.envelope_size stored - size_at s.file_sizes path)
          (elim (get s.file_sizes path) [ none ↦ 1 | some n ↦ 0 ])
        ≡ ok tt
      → Ends (Fits device bytes records) (replace_file device path stored s)
  unfolding replace_file Ends
  replace_file-Leaves path stored s (f, noted) room =
      let (fit, count) = written-fits path stored s (f, noted) room in
      elim (Outcome-cases (device.outcome s.clock)) [
        | inl e ↦
            rw (e, replace_file)
              (
                record {
                  same_bytes = f.same_bytes;
                  same_records = f.same_records;
                  bytes_fit = fit;
                  records_fit = count;
                },
                sym (sizes_written path stored s noted),
              )
        | inr (inl e) ↦
            rw (e, replace_file)
              (record {
                same_bytes = f.same_bytes;
                same_records = f.same_records;
                bytes_fit = f.bytes_fit;
                records_fit = f.records_fit;
              })
        | inr (inr e) ↦
            rw (e, replace_file)
              (record {
                same_bytes = f.same_bytes;
                same_records = f.same_records;
                bytes_fit = fit;
                records_fit = count;
              })
      ]

  abbrev within : (s : FileStore) → IsExact s → Fits device bytes records s
  within s x = x.0

  pub write_record-Leaves :
      (path : RecordPath) (stored : Stored)
      → Leaves (Fits device bytes records) (write_record device path stored)
  unfolding write_record
  write_record-Leaves path stored s x =
      let E = Fits device bytes records in
      let n = device.envelope_size stored in
      let more = n - size_at s.file_sizes path in
      let files : ℕ = elim (get s.file_sizes path) [ none ↦ 1 | some k ↦ 0 ] in
      elim (Result-cases (file_ready s)) [
        | inr (e, g) ↦ rw g (raise-Ends E within _ e s x)
        | inl (u, g) ↦ elim (Result-cases (wire_json_bytes (device.plaintext_size stored))) [
          | inr (e, h) ↦ rw (g, h) (raise-Ends E within _ e s x)
          | inl (v, h) ↦ elim (Result-cases (wire_json_bytes n)) [
            | inr (e, i) ↦ rw (g, h, i) (raise-Ends E within _ e s x)
            | inl (w, i) ↦ elim (Result-cases (ensure_capacity device s more files)) [
              | inr (e, j) ↦ rw (g, h, i, j) (raise-Ends E within _ e s x)
              | inl (y, j) ↦ rw (g, h, i, j) (replace_file-Leaves path stored s x j)
            ]
          ]
        ]
      ]

  removed-IsExact :
      (path : RecordPath) (s : FileStore) (n : ℕ)
      → IsExact s
      → IsExact (record s { disk = pop s.disk path; file_sizes = pop s.file_sizes path; clock = n })
  removed-IsExact path s n (f, noted) =
      let same : sizes_of device (pop s.disk path) ≡ pop s.file_sizes path =
        sizes_of-pop device s.disk path ∙ ap (λ d. pop d path) (sym noted) in
      let less = used_bytes-pop s.file_sizes path in
      let fewer = length-pop s.file_sizes path in
      let counted = sym (length-sizes_of device (pop s.disk path)) ∙ ap length same in
      let before = ap length noted ∙ length-sizes_of device s.disk in
      let bytes_before = ap used_bytes noted in
      let fit = f.bytes_fit in
      let count = f.records_fit in
      (
        record {
          same_bytes = f.same_bytes;
          same_records = f.same_records;
          bytes_fit = rw same (omega arith);
          records_fit = omega arith;
        },
        sym same,
      )

  pub remove_record-Leaves :
      (path : RecordPath) → Leaves (Fits device bytes records) (remove_record device path)
  unfolding remove_record Ends
  remove_record-Leaves path s x = elim (Outcome-cases (device.outcome s.clock)) [
    | inl e ↦ rw (e, remove_record) (removed-IsExact path s (s.clock + 1) x)
    | inr (inl e) ↦ rw (e, remove_record) (IsExact-after s _ refl refl refl refl x).0
    | inr (inr e) ↦ rw (e, remove_record) (removed-IsExact path s (s.clock + 1) x).0
  ]

  pub remove_records-Leaves :
      (paths : List RecordPath) → Leaves (Fits device bytes records) (remove_records device paths)
  unfolding remove_records
  remove_records-Leaves [] s x = pure-Ends (Fits device bytes records) _ s x
  remove_records-Leaves (q ∷ qs) s x =
      continue-Ends (Fits device bytes records) (remove_record device q s) _
        (remove_record-Leaves q s x) λ a t y. remove_records-Leaves qs t y
