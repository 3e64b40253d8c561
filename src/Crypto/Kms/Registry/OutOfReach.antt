-- ===== src/Crypto/Kms/Registry/OutOfReach.antt =====
-- `RegisterCustomKMS` of pkg/crypto/encdec: the client that it registers, ever after.
use mathlib.Core.Logic.Or
use mathlib.Core.List.{Mem, mem-cons, mem-cons_self, not-mem-nil, mem-append_left, mem-append_right}
use go_svc_extn.Prelude.{
  ℕ, suc, ◌<◌, ◌≡◌, ◌≢◌, List, [], ◌∷◌, Bytes, Dict, All, All-map, Result, ok, err, panic, ◌∙◌,
  arith,
}
use go_svc_extn.Crypto.Kms.{Tink, Error, new_caas_kms_client, new_custom_kms_client}
use go_svc_extn.Crypto.Kms.Keys.{custom_get_aead_new}
use go_svc_extn.Crypto.Kms.Registry.{
  Client, caas, custom, registered, new_registered_caas_kms_client, Process, update,
  register_custom_kms, Step, makes_caas, registers, makes_custom, registers_own, creates_key, Reach,
  here, next, Refuses, at_start,
}

update_self : (n : ℕ) (keys : ℕ → Dict Bytes) (ks : Dict Bytes) → update keys n ks n ≡ ks
update_self n keys ks = ground arith

update_apart :
    (n q : ℕ) (keys : ℕ → Dict Bytes) (ks : Dict Bytes) → n ≢ q → update keys n ks q ≡ keys q
update_apart n q keys ks h = ground arith

-- The registry only grows.
registered-keeps :
    (c : Client) (r : Result Error Bytes) (clients : List Client)
    → Mem c clients
    → Mem c (registered r clients).1
unfolding registered
registered-keeps c (ok client) clients m = mem-append_left (caas client ∷ []) m
registered-keeps c (err e) clients m = m
registered-keeps c panic clients m = m

module _ {Keyset Aead World : Type 0} (t : Tink Keyset Aead World) where
  abbrev OwnBelow : Process → Type 0
  OwnBelow p = All (λ q. q < p.allocated) p.own

  below_suc : (n : ℕ) (own : List ℕ) → All (λ q. q < n) own → All (λ q. q < suc n) own
  below_suc n own h = All-map (λ q. q < n) (λ q. q < suc n) (λ q k. omega arith) own h

  Step-OwnBelow : {p q : Process} → Step t p q → OwnBelow p → OwnBelow q
  unfolding register_custom_kms
  Step-OwnBelow (makes_caas p x) o = o
  Step-OwnBelow (registers p) o = below_suc p.allocated p.own o
  Step-OwnBelow (makes_custom p) o = (omega arith, below_suc p.allocated p.own o)
  Step-OwnBelow (registers_own p client m) o = o
  Step-OwnBelow (creates_key p client w m) o = o

  Reach-OwnBelow : {p : Process} → Reach t at_start p → OwnBelow p
  Reach-OwnBelow here = tt
  Reach-OwnBelow (next r st) = Step-OwnBelow st (Reach-OwnBelow r)

  -- The client `c` is registered and has no keys, and the process has no pointer to it.
  record IsOutOfReach (c : ℕ) (p : Process) : Type 0 where
    is_allocated : c < p.allocated
    not_own : All (λ q. q ≢ c) p.own
    keyless : p.keys c ≡ []
    is_registered : Mem (custom c) p.clients

  own_apart : (c q : ℕ) (own : List ℕ) → All (λ x. x ≢ c) own → Mem q own → q ≢ c
  own_apart c q [] h m e = absurd (not-mem-nil m)
  own_apart c q (x ∷ own) h m e =
      Or.elim (λ a b. absurd a) (mem-cons.0 m) (λ i. h.0 cc) (λ k. own_apart c q own h.1 k e)

  Step-IsOutOfReach : (c : ℕ) {p q : Process} → Step t p q → IsOutOfReach c p → IsOutOfReach c q
  unfolding new_registered_caas_kms_client register_custom_kms
  Step-IsOutOfReach c (makes_caas p x) h = record {
    is_allocated = h.is_allocated;
    not_own = h.not_own;
    keyless = h.keyless;
    is_registered = registered-keeps (custom c) (new_caas_kms_client x) p.clients h.is_registered;
  }
  Step-IsOutOfReach c (registers p) h =
      let below = h.is_allocated in
      record {
        is_allocated = omega arith;
        not_own = h.not_own;
        keyless =
            update_apart p.allocated c p.keys new_custom_kms_client (λ e. omega arith) ∙ h.keyless;
        is_registered = mem-append_left (custom p.allocated ∷ []) h.is_registered;
      }
  Step-IsOutOfReach c (makes_custom p) h =
      let below = h.is_allocated in
      record {
        is_allocated = omega arith;
        not_own = (λ e. omega arith, h.not_own);
        keyless =
            update_apart p.allocated c p.keys new_custom_kms_client (λ e. omega arith) ∙ h.keyless;
        is_registered = h.is_registered;
      }
  Step-IsOutOfReach c (registers_own p client m) h = record {
    is_allocated = h.is_allocated;
    not_own = h.not_own;
    keyless = h.keyless;
    is_registered = mem-append_left (custom client ∷ []) h.is_registered;
  }
  Step-IsOutOfReach c (creates_key p client w m) h = record {
    is_allocated = h.is_allocated;
    not_own = h.not_own;
    keyless = update_apart client c p.keys _ (own_apart c client p.own h.not_own m) ∙ h.keyless;
    is_registered = h.is_registered;
  }

  Reach-IsOutOfReach : (c : ℕ) {p q : Process} → Reach t p q → IsOutOfReach c p → IsOutOfReach c q
  Reach-IsOutOfReach c here h = h
  Reach-IsOutOfReach c (next r st) h = Step-IsOutOfReach c st (Reach-IsOutOfReach c r h)

  register_custom_kms-IsOutOfReach :
      (p : Process) → OwnBelow p → IsOutOfReach p.allocated (register_custom_kms p)
  unfolding register_custom_kms
  register_custom_kms-IsOutOfReach p o = record {
    is_allocated = omega arith;
    not_own = All-map (λ q. q < p.allocated) (λ q. q ≢ p.allocated) (λ q k e. omega arith) p.own o;
    keyless = update_self p.allocated p.keys new_custom_kms_client;
    is_registered = mem-append_right p.clients mem-cons_self;
  }

  -- Whatever a process did before it called `RegisterCustomKMS`, and whatever it does after, making
  -- clients, registering them and creating keys in those that it made: the client which this call
  -- registered stays in the registry, and never gives an AEAD, for any URI. The process takes no
  -- client out of the registry to create keys in it.
  pub registered_client-Refuses :
      {p q : Process}
      → Reach t at_start p
      → Reach t (register_custom_kms p) q
      → Mem (custom p.allocated) q.clients × Refuses t (q.keys p.allocated)
  registered_client-Refuses {p} before after =
      let h =
        Reach-IsOutOfReach p.allocated after
          (register_custom_kms-IsOutOfReach p (Reach-OwnBelow before)) in
      (h.is_registered, rw h.keyless (custom_get_aead_new t))
