-- ===== src/Store/File/Sizes.antt =====
-- The lengths of the files in the data directory of a `FileRuntimeStore`
-- (src/openlinker/runtime/store.py), and what a write or a removal does to them.
use openlinker_python.Prelude.{ℕ, ◌+◌, ◌≤◌, ◌≡◌, refl, ap, suc, [], ◌∷◌, none, some, length, arith}
use openlinker_python.Dict.{Dict, get, set_item, pop}
use openlinker_python.Store.File.{Device, Stored, used_bytes, size_at}
use openlinker_python.Store.File.Keys.{RecordPath, path_eq}

-- the lengths of the files on the disk
unfoldable pub sizes_of : Device → Dict RecordPath Stored → Dict RecordPath ℕ
sizes_of device [] = []
sizes_of device ((p, stored) ∷ d) = (p, device.envelope_size stored) ∷ sizes_of device d

pub sizes_of-set_item :
    (device : Device) (d : Dict RecordPath Stored) (p : RecordPath) (stored : Stored)
    → sizes_of device (set_item d p stored)
      ≡ set_item (sizes_of device d) p (device.envelope_size stored)
unfolding sizes_of set_item
sizes_of-set_item device [] p stored = refl
sizes_of-set_item device ((q, x) ∷ d) p stored = ground (arith, sizes_of-set_item device d p stored)

pub sizes_of-pop :
    (device : Device) (d : Dict RecordPath Stored) (p : RecordPath)
    → sizes_of device (pop d p) ≡ pop (sizes_of device d) p
unfolding sizes_of pop
sizes_of-pop device [] p = refl
sizes_of-pop device ((q, x) ∷ d) p = ground (arith, sizes_of-pop device d p)

pub length-sizes_of :
    (device : Device) (d : Dict RecordPath Stored) → length (sizes_of device d) ≡ length d
unfolding sizes_of
length-sizes_of device [] = refl
length-sizes_of device ((p, x) ∷ d) = ap suc (length-sizes_of device d)

pub used_bytes-set_item :
    (d : Dict RecordPath ℕ) (p : RecordPath) (n : ℕ)
    → used_bytes (set_item d p n) + size_at d p ≡ used_bytes d + n
unfolding used_bytes set_item get
used_bytes-set_item [] p n = omega arith
used_bytes-set_item ((q, k) ∷ d) p n = ground (arith, used_bytes-set_item d p n)

pub length-set_item :
    (d : Dict RecordPath ℕ) (p : RecordPath) (n : ℕ)
    → length (set_item d p n) ≡ length d + (elim (get d p) [ none ↦ 1 | some k ↦ 0 ])
unfolding set_item get
length-set_item [] p n = refl
length-set_item ((q, k) ∷ d) p n = ground (arith, length-set_item d p n)

pub used_bytes-pop : (d : Dict RecordPath ℕ) (p : RecordPath) → used_bytes (pop d p) ≤ used_bytes d
unfolding used_bytes pop
used_bytes-pop [] p = omega arith
used_bytes-pop ((q, k) ∷ d) p = ground (arith, used_bytes-pop d p)

pub length-pop : (d : Dict RecordPath ℕ) (p : RecordPath) → length (pop d p) ≤ length d
unfolding pop
length-pop [] p = omega arith
length-pop ((q, k) ∷ d) p = ground (arith, length-pop d p)
