-- ===== src/Hash/Generate/Scanned.antt =====
-- The parts of a generated hash are decoded again.
use go_svc_extn.Prelude.{
  ℕ, ◌<◌, ◌≡◌, ◌≢◌, refl, some, ◌++◌, Bytes, IsBytes, Lacks, All-append, All-map, codes, ok, arith,
}
use go_svc_extn.Base64.{Encoding, strictly, encode}
use go_svc_extn.Base64.RoundTrip.{IsPlain, decode-encode, encode-IsPlain, encode-strictly}
use go_svc_extn.Strconv.{format_uint}
use go_svc_extn.Strconv.RoundTrip.{IsDigit, format_uint-IsDigit}
use go_svc_extn.Sscanf.RoundTrip.{scan_field-print, scan_field-print_last}
use go_svc_extn.Hash.{Argon2Configuration, Pbkdf2, ScryptConfiguration}
use go_svc_extn.Hash.Formats.{dollar}
use go_svc_extn.Hash.Scan.{u8, u32, u64, scan_argon2, scan_pbkdf2, scan_scrypt}
use go_svc_extn.Hash.Decode.{decode_strict}
use go_svc_extn.Hash.Generate.{print_pbkdf2, print_argon2, print_scrypt}

pub decode_strict-encode :
    (e : Encoding) (s : Bytes) → IsBytes s → decode_strict e (encode e s) ≡ ok s
unfolding decode_strict
decode_strict-encode e s h = rw (← encode-strictly e s, decode-encode (strictly e) s h)

pub encode-Lacks : (e : Encoding) (s : Bytes) → IsBytes s → Lacks dollar (encode e s)
encode-Lacks e s h =
    All-map IsPlain (λ c. c ≢ dollar) (λ c k. k.2) (encode e s) (encode-IsPlain e s h)

pub format_uint-Lacks : (n : ℕ) → Lacks dollar (format_uint n)
format_uint-Lacks n =
    All-map IsDigit (λ c. c ≢ dollar) (λ c k. omega arith) (format_uint n) (format_uint-IsDigit n)

-- A literal in front of a number.
abbrev field-Lacks :
    (literal : Bytes) (n : ℕ) (rest : Bytes)
    → Lacks dollar literal
    → Lacks dollar rest
    → Lacks dollar (literal ++ (format_uint n ++ rest))
field-Lacks literal n rest h k =
    All-append (λ c. c ≢ dollar) literal (format_uint n ++ rest) h
      (All-append (λ c. c ≢ dollar) (format_uint n) rest (format_uint-Lacks n) k)

pub print_pbkdf2-Lacks : (h : Pbkdf2) → Lacks dollar (print_pbkdf2 h)
unfolding print_pbkdf2
print_pbkdf2-Lacks h =
    field-Lacks (codes "i=") h.iterations (codes ",l=" ++ format_uint h.key_length) (ground arith) (
      All-append (λ c. c ≢ dollar) (codes ",l=") (format_uint h.key_length) (ground arith)
        (format_uint-Lacks h.key_length))

pub scan_pbkdf2-print :
    (h : Pbkdf2)
    → h.iterations < u32
    → h.key_length < u32
    → scan_pbkdf2 (print_pbkdf2 h) ≡ some (h.iterations, h.key_length)
unfolding scan_pbkdf2 print_pbkdf2
scan_pbkdf2-print h small short = rw (
  scan_field-print (codes "i=") u32 h.iterations (codes ",l=" ++ format_uint h.key_length)
      (omega arith) small refl,
  scan_field-print_last (codes ",l=") u32 h.key_length (omega arith) short,
)

pub scan_argon2-print :
    (memory : ℕ) (c : Argon2Configuration)
    → memory < u32
    → c.iterations < u32
    → c.parallelism < u8
    → scan_argon2 (print_argon2 memory c) ≡ some (memory, c.iterations, c.parallelism)
unfolding scan_argon2 print_argon2
scan_argon2-print memory c small short few = rw (
  scan_field-print (codes "m=") u64 memory
      (codes ",t=" ++ (format_uint c.iterations ++ (codes ",p=" ++ format_uint c.parallelism)))
      (omega arith) (omega arith) refl,
  scan_field-print (codes ",t=") u32 c.iterations (codes ",p=" ++ format_uint c.parallelism)
      (omega arith) short refl,
  scan_field-print_last (codes ",p=") u8 c.parallelism (omega arith) few,
)

pub scan_scrypt-print :
    (c : ScryptConfiguration)
    → c.cost < u32
    → c.block < u32
    → c.parallelization < u32
    → scan_scrypt (print_scrypt c) ≡ some (c.cost, c.block, c.parallelization)
unfolding scan_scrypt print_scrypt
scan_scrypt-print c small short few = rw (
  scan_field-print (codes "ln=") u32 c.cost
      (codes ",r=" ++ (format_uint c.block ++ (codes ",p=" ++ format_uint c.parallelization)))
      (omega arith) small refl,
  scan_field-print (codes ",r=") u32 c.block (codes ",p=" ++ format_uint c.parallelization)
      (omega arith) short refl,
  scan_field-print_last (codes ",p=") u32 c.parallelization (omega arith) few,
)

-- Two fields in front of a third.
fields-Lacks :
    (a b c : Bytes) (l m n : ℕ)
    → Lacks dollar a
    → Lacks dollar b
    → Lacks dollar c
    → Lacks dollar (a ++ (format_uint l ++ (b ++ (format_uint m ++ (c ++ format_uint n)))))
fields-Lacks a b c l m n ha hb hc =
    field-Lacks a l (b ++ (format_uint m ++ (c ++ format_uint n))) ha (
      field-Lacks b m (c ++ format_uint n) hb
        (All-append (λ c. c ≢ dollar) c (format_uint n) hc (format_uint-Lacks n)))

pub print_argon2-Lacks :
    (memory : ℕ) (c : Argon2Configuration) → Lacks dollar (print_argon2 memory c)
unfolding print_argon2
print_argon2-Lacks memory c =
    fields-Lacks (codes "m=") (codes ",t=") (codes ",p=") memory c.iterations c.parallelism
      (ground arith) (ground arith) (ground arith)

pub print_scrypt-Lacks : (c : ScryptConfiguration) → Lacks dollar (print_scrypt c)
unfolding print_scrypt
print_scrypt-Lacks c =
    fields-Lacks (codes "ln=") (codes ",r=") (codes ",p=") c.cost c.block c.parallelization
      (ground arith) (ground arith) (ground arith)
