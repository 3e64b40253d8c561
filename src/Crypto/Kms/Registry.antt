-- ===== src/Crypto/Kms/Registry.antt =====
-- The registry of KMS clients that Tink keeps for a process, as pkg/crypto/encdec fills it.
pub mod OutOfReach
use mathlib.Core.List.{Mem}
use go_svc_extn.Prelude.{
  ℕ, suc, ◌==◌, ◌≢◌, ◌⊎◌, List, [], ◌∷◌, ◌++◌, Bytes, Dict, if◌then◌else◌, Result, ok, err, panic,
}
use go_svc_extn.Crypto.Kms.{
  Tink, Error, new_caas_kms_client, new_custom_kms_client, custom_get_aead, create_key,
}

-- A registered client: the prefix of one of `caasKmsClient`, or a pointer to a `CustomKMSClient`.
pub data Client : Type 0 where
  caas : Bytes → Client
  custom : ℕ → Client

-- `registry.RegisterKMSClient` adds at the end.
abbrev pub register : Client → List Client → List Client
register c clients = clients ++ (c ∷ [])

pub registered : Result Error Bytes → List Client → Result Error Bytes × List Client
registered (ok client) clients = (ok client, register (caas client) clients)
registered r clients = (r, clients)

-- `NewCaasKmsClient`, with the registration of the client.
pub new_registered_caas_kms_client : Bytes → List Client → Result Error Bytes × List Client
unfolding registered
new_registered_caas_kms_client uri_prefix clients =
    registered (new_caas_kms_client uri_prefix) clients

-- A process: the custom clients that it allocated, with the keys of each, the registry, and the
-- pointers that `NewCustomKMSClient` returned to it.
pub record Process : Type 0 where
  pub allocated : ℕ
  pub keys : ℕ → Dict Bytes
  pub clients : List Client
  pub own : List ℕ

abbrev pub update : (ℕ → Dict Bytes) → ℕ → Dict Bytes → ℕ → Dict Bytes
update keys p ks q = if p == q then ks else keys q

-- `NewCustomKMSClient`: a pointer to new memory.
abbrev pub allocate : Process → ℕ × Process
allocate p = (
  p.allocated,
  record p { allocated = suc p.allocated; keys = update p.keys p.allocated new_custom_kms_client },
)

-- `RegisterCustomKMS`, which has no error, and returns no pointer.
unfoldable pub register_custom_kms : Process → Process
register_custom_kms p =
    let (client, q) = allocate p in record q { clients = register (custom client) q.clients }

module _ {Keyset Aead World : Type 0} (t : Tink Keyset Aead World) where
  -- A process that takes no client out of the registry: it makes clients, registers them, and creates
  -- keys in those that it made, before and after it registers them.
  pub data Step : Process → Process → Type 0 where
    makes_caas :
        (p : Process) (uri_prefix : Bytes)
        → Step p (record p { clients = (new_registered_caas_kms_client uri_prefix p.clients).1 })
    registers : (p : Process) → Step p (register_custom_kms p)
    makes_custom : (p : Process) → Step p (record (allocate p).1 { own = p.allocated ∷ p.own })
    -- `registry.RegisterKMSClient` of a client that the process made.
    registers_own :
        (p : Process) (client : ℕ)
        → Mem client p.own
        → Step p (record p { clients = register (custom client) p.clients })
    -- `CreateKey` of a client that the process made.
    creates_key :
        (p : Process) (client : ℕ) (w : World)
        → Mem client p.own
        → Step p (record p { keys = update p.keys client (create_key t (p.keys client) w).0.1 })

  -- What a process reaches from a state.
  pub data Reach (s : Process) : Process → Type 0 where
    here : Reach s s
    next : {p q : Process} → Reach s p → Step p q → Reach s q

  -- A custom client with these keys gives an AEAD for no URI.
  abbrev pub Refuses : Dict Bytes → Type 0
  Refuses ks = (uri : Bytes) (w : World) (a : Aead) → (custom_get_aead t ks uri w).0 ≢ ok a

-- A process as it starts.
abbrev pub at_start : Process
at_start = record { allocated = 0; keys = λ q. []; clients = []; own = [] }
