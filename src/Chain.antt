-- ===== src/Chain.antt =====
-- How Kratos chains middlewares, as pkg/util/http and pkg/extn rely on it.
use go_svc_extn.Prelude.{◌≡◌, sym, ap, ◌∙◌, List, [], ◌∷◌, ◌++◌}

-- `middleware.Chain`: the first middleware is the outermost. `F` are handlers.
pub record IsChain {ℓ} {F : Type ℓ} (chain : List (F → F) → F → F) : Type ℓ where
  pub chain-nil : (f : F) → chain [] f ≡ f
  pub chain-cons : (m : F → F) (ms : List (F → F)) (f : F) → chain (m ∷ ms) f ≡ m (chain ms f)

pub chain-append {ℓ} :
    {F : Type ℓ} {chain : List (F → F) → F → F} (laws : IsChain chain) (ms ns : List (F → F))
    (f : F)
    → chain (ms ++ ns) f ≡ chain ms (chain ns f)
chain-append laws [] ns f = sym (laws.chain-nil _)
chain-append laws (m ∷ ms) ns f =
    laws.chain-cons m (ms ++ ns) f ∙ ap m (chain-append laws ms ns f) ∙ sym (laws.chain-cons m ms _)
