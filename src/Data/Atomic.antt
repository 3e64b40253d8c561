-- ===== src/Data/Atomic.antt =====
-- `InTx` and what others read of the database.
use go_svc_extn.Prelude.{
  ◌≡◌, refl, ap, ◌∙◌, true, some, List, [], ◌∷◌, ◌++◌, append_assoc, append-nil, Result, ok, err,
  panic,
}
use go_svc_extn.Data.{Data, Context, Gorm, db, in_tx}
use go_svc_extn.Data.Database.{
  Database, IsDatabase, RunsTransactions, all_or_nothing, settle, begun, after, script,
}

module _ {ℓ} {D E Q S W : Type ℓ} (b : Database D E Q S W) where
  -- A call that ended in `o` has had all or nothing of the statements `qs`.
  abbrev pub IsAtomic : List Q → S → Result E (Unit {0}) × W → Type ℓ
  IsAtomic qs s o = b.committed o.1 ≡ all_or_nothing b.apply o.0 qs s

  IsAtomic-of :
      (ps qs : List Q) (s t : S) (o : Result E (Unit {0}) × W)
      → ps ≡ qs
      → s ≡ t
      → IsAtomic ps s o
      → IsAtomic qs t o
  IsAtomic-of ps qs s t o e f h = cc

  module _ (laws : IsDatabase b) where
    settle-IsAtomic :
        (tx : D) (r : Result E (Unit {0})) (w : W)
        → b.is_open tx w ≡ true
        → IsAtomic (b.pending tx w) (b.committed w) (settle b tx (r, w))
    unfolding settle all_or_nothing
    settle-IsAtomic tx (ok _) w o = laws.commit_committed tx w o
    settle-IsAtomic tx (err e) w o = laws.rollback_committed tx w
    settle-IsAtomic tx panic w o = laws.rollback_committed tx w

    -- One statement, which ended in `x`, and then what is atomic wherever the transaction is open.
    after-IsAtomic :
        (tx : D) (q : Q) (qs : List Q) (f : W → Result E (Unit {0}) × W) (w : W)
        (x : Result E (Unit {0}))
        → ((v : W)
            → b.is_open tx v ≡ true
            → IsAtomic (b.pending tx v ++ qs) (b.committed v) (settle b tx (f v)))
        → b.is_open tx w ≡ true
        → (b.exec tx q w).0 ≡ x
        → IsAtomic
            (b.pending tx w ++ (q ∷ qs))
            (b.committed w)
            (settle b tx (after b (x, (b.exec tx q w).1) f))
    unfolding settle after all_or_nothing
    after-IsAtomic tx q qs f w (ok _) rest o e =
        let v = (b.exec tx q w).1 in
        IsAtomic-of (b.pending tx v ++ qs) (b.pending tx w ++ (q ∷ qs)) (b.committed v)
          (b.committed w) (settle b tx (f v))
          (ap (λ ps. ps ++ qs) (laws.exec_pending tx q w o e)
            ∙ append_assoc (b.pending tx w) (q ∷ []) qs)
          (laws.exec_committed tx q w o) (rest v (laws.exec_open tx q w o))
    after-IsAtomic tx q qs f w (err x) rest o e =
        laws.rollback_committed tx (b.exec tx q w).1 ∙ laws.exec_committed tx q w o
    after-IsAtomic tx q qs f w panic rest o e =
        laws.rollback_committed tx (b.exec tx q w).1 ∙ laws.exec_committed tx q w o

    -- The statements that are pending, and those that the script still has.
    script-IsAtomic :
        (d : Data D) (r : Result E (Unit {0})) (ctx : Context D) (qs : List Q) (w : W)
        → b.is_open (db d ctx) w ≡ true
        → IsAtomic
            (b.pending (db d ctx) w ++ qs)
            (b.committed w)
            (settle b (db d ctx) (script b d qs r ctx w))
    unfolding script
    script-IsAtomic d r ctx [] w o = rw append-nil (settle-IsAtomic (db d ctx) r w o)
    script-IsAtomic d r ctx (q ∷ qs) w o =
        after-IsAtomic (db d ctx) q qs (script b d qs r ctx) w (b.exec (db d ctx) q w).0
          (λ v p. script-IsAtomic d r ctx qs v p) o refl

    begun-IsAtomic :
        (d : D) (qs : List Q) (f : D → W → Result E (Unit {0}) × W) (w : W) (x : Result E D)
        → ((tx : D) (v : W)
            → b.is_open tx v ≡ true
            → IsAtomic (b.pending tx v ++ qs) (b.committed v) (settle b tx (f tx v)))
        → (b.begin d w).0 ≡ x
        → IsAtomic qs (b.committed w) (begun b f (x, (b.begin d w).1))
    unfolding begun all_or_nothing
    begun-IsAtomic d qs f w (ok tx) inside e =
        let v = (b.begin d w).1 in
        IsAtomic-of (b.pending tx v ++ qs) qs (b.committed v) (b.committed w) (settle b tx (f tx v))
          (ap (λ ps. ps ++ qs) (laws.begin_pending d tx w e)) (laws.begin_committed d w)
          (inside tx v (laws.begin_open d tx w e))
    begun-IsAtomic d qs f w (err x) inside e = laws.begin_committed d w
    begun-IsAtomic d qs f w panic inside e = laws.begin_committed d w

    -- Statements in `InTx`, each on the connection of its context, and then a result of the caller's:
    -- what others read has changed by all of the statements, in their order, where `InTx` returns nil,
    -- and is unchanged where it returns an error or panics, be it a statement's, the caller's, or that
    -- of the begin or the commit.
    pub in_tx_atomic :
        (g : Gorm D E W) (d : Data D) (ctx : Context D) (qs : List Q) (r : Result E (Unit {0}))
        (w : W)
        → RunsTransactions b g
        → b.committed (in_tx g d ctx (script b d qs r) w).1
          ≡ all_or_nothing b.apply (in_tx g d ctx (script b d qs r) w).0 qs (b.committed w)
    unfolding in_tx db
    in_tx_atomic g d ctx qs r w runs =
        let root = g.with_context ctx d.db in
        let f : D → W → Result E (Unit {0}) × W =
          λ tx. script b d qs r (record ctx { tx = some tx }) in
        rw (runs root f w) (
          begun-IsAtomic root qs f w (b.begin root w).0
            (λ tx v o. script-IsAtomic d r (record ctx { tx = some tx }) qs v o) refl)
