-- ===== src/Crypto/Kms/Tests.antt =====
-- A Tink whose keysets are texts: the theorems at concrete keys.
use go_svc_extn.Prelude.{
  ℕ, suc, ◌++◌, insert, ◌≡◌, refl, none, some, [], ◌∷◌, Bytes, IsBytes, codes, ok, arith,
}
use mathlib.Core.Path.{subst}
use go_svc_extn.Base64.{encode, char}
use go_svc_extn.Crypto.Kms.{Tink, caas_kms_prefix, create_key, keep_key, new_key_uri, key_uri_of}
use go_svc_extn.Crypto.Kms.Registry.{
  custom, Process, at_start, update, register_custom_kms, new_registered_caas_kms_client, Reach,
  here, next, makes_caas, makes_custom, registers_own, creates_key, Refuses,
}
use go_svc_extn.Crypto.Kms.Registry.OutOfReach.{registered_client-Refuses}
use mathlib.Core.List.{Mem, mem-cons_self}
use go_svc_extn.Crypto.Kms.Keys.{IsStored}

-- Every keyset is one byte on disk, an AEAD is its number, and the world counts.
abbrev tink : Tink (Unit {0}) ℕ ℕ
tink = record {
  new_handle = λ w. (some tt, suc w);
  write_cleartext = λ h. some (1 ∷ []);
  read_cleartext = λ s. some tt;
  read_with_associated_data = λ s kek ad. none;
  new_aead = λ h. some 5;
  encrypt = λ a plain ad w. (none, w);
  decrypt = λ a cipher ad. none;
  random_key = λ w. (some (2 ∷ []), suc w);
}

one_byte : (s : Bytes) → some (1 ∷ []) ≡ some s → IsBytes s
one_byte s e = let same : 1 ∷ [] ≡ s = cc in subst IsBytes same (omega arith)

tink-IsStored : IsStored tink
tink-IsStored = record { text_bytes = λ h s e. one_byte s e; read-write = λ h s e. refl }

uri : (new_key_uri tink 0).0 ≡ ok (codes "caas-kms://AQ")
unfolding new_key_uri key_uri_of encode char
uri = refl

-- A process that makes a client of its own, and registers it.
abbrev before : Process
before = record {
  allocated = 1;
  keys = update (λ q. []) 0 [];
  clients = (new_registered_caas_kms_client caas_kms_prefix []).1 ++ (custom 0 ∷ []);
  own = 0 ∷ [];
}

reached : Reach tink at_start before
reached =
    next (next (next here (makes_caas _ caas_kms_prefix)) (makes_custom _))
      (registers_own _ 0 mem-cons_self)

-- Then it registers another one, and creates a key in its own.
abbrev registered_one : Process
registered_one = register_custom_kms before

abbrev after : Process
after = record registered_one {
  keys = update registered_one.keys 0 (create_key tink (registered_one.keys 0) 0).0.1;
}

reached_after : Reach tink registered_one after
unfolding register_custom_kms
reached_after = next here (creates_key _ 0 0 mem-cons_self)

registered_client-Refuses_example :
    Mem (custom before.allocated) after.clients × Refuses tink (after.keys before.allocated)
registered_client-Refuses_example = registered_client-Refuses tink reached reached_after

-- The client of its own has the key.
own_key : (create_key tink (registered_one.keys 0) 0).0.1 ≡ (codes "Ag", 2 ∷ []) ∷ []
unfolding register_custom_kms create_key keep_key insert encode char
own_key = refl
