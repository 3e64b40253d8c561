-- ===== src/Hash/Scan.antt =====
-- The formats of hash_comparator.go that `Sscanf` reads, and the widths of the fields.
use go_svc_extn.Prelude.{ℕ, ◌^◌, Option, some, Bytes, codes}
use go_svc_extn.Sscanf.{◌>>=◌, scan_field}

abbrev pub u8 : ℕ
u8 = 2 ^ 8

abbrev pub u32 : ℕ
u32 = 2 ^ 32

abbrev pub u64 : ℕ
u64 = 2 ^ 64

-- `m=%d,t=%d,p=%d`
unfoldable pub scan_argon2 : Bytes → Option (ℕ × ℕ × ℕ)
scan_argon2 s = do
  (memory, time) ← scan_field (codes "m=") u64 s
  (iterations, threads) ← scan_field (codes ",t=") u32 time
  (parallelism, _) ← scan_field (codes ",p=") u8 threads
  some (memory, iterations, parallelism)

-- `i=%d,l=%d`
unfoldable pub scan_pbkdf2 : Bytes → Option (ℕ × ℕ)
scan_pbkdf2 s = do
  (iterations, rest) ← scan_field (codes "i=") u32 s
  (key_length, _) ← scan_field (codes ",l=") u32 rest
  some (iterations, key_length)

-- `ln=%d,r=%d,p=%d`
unfoldable pub scan_scrypt : Bytes → Option (ℕ × ℕ × ℕ)
scan_scrypt s = do
  (cost, rest) ← scan_field (codes "ln=") u32 s
  (block, more) ← scan_field (codes ",r=") u32 rest
  (parallelization, _) ← scan_field (codes ",p=") u32 more
  some (cost, block, parallelization)
