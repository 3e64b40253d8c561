-- ===== src/Data/Nested.antt =====
-- `InTx` inside `InTx`.
use go_svc_extn.Prelude.{◌≡◌, refl, sym, ap, ◌∙◌, some, List, Result, ok, err}
use go_svc_extn.Data.{Data, Context, Action, Gorm, in_tx}
use go_svc_extn.Data.Database.{
  Database, IsDatabase, RunsTransactions, apply_all, all_or_nothing, settle, begun, after, script,
}
use go_svc_extn.Data.Atomic.{in_tx_atomic}

module _ {ℓ} {D E Q S W : Type ℓ} (b : Database D E Q S W) where
  begun_ok :
      (f : D → W → Result E (Unit {0}) × W) (tx : D) (w : W) (x : Result E D)
      → x ≡ ok tx
      → begun b f (x, w) ≡ settle b tx (f tx w)
  unfolding begun
  begun_ok f tx w x e = rw e refl

  after_ok :
      (x : Result E (Unit {0})) (w : W) (f : W → Result E (Unit {0}) × W)
      → x ≡ ok tt
      → after b (x, w) f ≡ f w
  unfolding after
  after_ok x w f e = rw e refl

  module _ (g : Gorm D E W) (d : Data D) where
    -- A function for `InTx` that runs statements in an inner `InTx`, and fails after it.
    pub inner_then_fail : List Q → E → Action D E W
    unfolding after
    inner_then_fail qs e ctx w = after b (in_tx g d ctx (script b d qs (ok tt)) w) (λ v. (err e, v))

    inner_then_fail-run :
        (ctx : Context D) (qs : List Q) (e : E) (w v : W) (tx : D)
        → RunsTransactions b g
        → b.begin (g.with_context ctx d.db) w ≡ (ok tx, v)
        → (in_tx g d (record ctx { tx = some tx }) (script b d qs (ok tt)) v).0 ≡ ok tt
        → in_tx g d ctx (inner_then_fail qs e) w ≡ (
          err e,
          b.rollback tx (in_tx g d (record ctx { tx = some tx }) (script b d qs (ok tt)) v).1,
        )
    unfolding in_tx inner_then_fail begun settle
    inner_then_fail-run ctx qs e w v tx runs begins inner =
        let root = g.with_context ctx d.db in
        let f : D → W → Result E (Unit {0}) × W =
          λ t. inner_then_fail qs e (record ctx { tx = some t }) in
        let o = in_tx g d (record ctx { tx = some tx }) (script b d qs (ok tt)) v in
        runs root f w
        ∙ ap (begun b f) begins
        ∙ ap (settle b tx) (after_ok o.0 o.1 (λ u. (err e, u)) inner)

    -- Where the inner `InTx` returns nil, what it did stays, though the outer one returns an error and
    -- rolls back: for a database that keeps its promises and whose begin, for the outer one, succeeds.
    pub nested_stays :
        (ctx : Context D) (qs : List Q) (e : E) (w v : W) (tx : D)
        → IsDatabase b
        → RunsTransactions b g
        → b.begin (g.with_context ctx d.db) w ≡ (ok tx, v)
        → (in_tx g d (record ctx { tx = some tx }) (script b d qs (ok tt)) v).0 ≡ ok tt
        → ((in_tx g d ctx (inner_then_fail qs e) w).0 ≡ err e)
          × (b.committed (in_tx g d ctx (inner_then_fail qs e) w).1
              ≡ apply_all b.apply qs (b.committed w))
    unfolding all_or_nothing
    nested_stays ctx qs e w v tx laws runs begins inner =
        let root = g.with_context ctx d.db in
        let inside : Context D = record ctx { tx = some tx } in
        let o = in_tx g d inside (script b d qs (ok tt)) v in
        let ran = inner_then_fail-run ctx qs e w v tx runs begins inner in
        (
          ap (λ (p : Result E (Unit {0}) × W). p.0) ran,
          ap (λ (p : Result E (Unit {0}) × W). b.committed p.1) ran
              ∙ laws.rollback_committed tx o.1
              ∙ in_tx_atomic b laws g d inside qs (ok tt) v runs
              ∙ ap (λ r. all_or_nothing b.apply r qs (b.committed v)) inner
              ∙ ap (apply_all b.apply qs) (
                  ap (λ (p : Result E D × W). b.committed p.1) (sym begins)
                  ∙ laws.begin_committed root w),
        )
