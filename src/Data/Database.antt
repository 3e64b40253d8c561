-- ===== src/Data/Database.antt =====
-- What gorm documents of `Transaction`, and what a database promises of its transactions.
use go_svc_extn.Prelude.{◌≡◌, refl, Bool, true, List, [], ◌∷◌, ◌++◌, Result, ok, err, panic}
use go_svc_extn.Data.{Data, Action, Gorm, db}

module _ {ℓ} {Q S : Type ℓ} (apply : Q → S → S) where
  -- The effect of statements, in their order.
  unfoldable pub apply_all : List Q → S → S
  apply_all [] s = s
  apply_all (q ∷ qs) s = apply_all qs (apply q s)

  pub apply_all-append :
      (ps qs : List Q) (s : S) → apply_all (ps ++ qs) s ≡ apply_all qs (apply_all ps s)
  unfolding apply_all
  apply_all-append [] qs s = refl
  apply_all-append (p ∷ ps) qs s = apply_all-append ps qs (apply p s)

  -- All of the statements, or none of them.
  unfoldable pub all_or_nothing {κ} : {E : Type κ} → Result E (Unit {0}) → List Q → S → S
  unfolding apply_all
  all_or_nothing (ok _) qs s = apply_all qs s
  all_or_nothing (err e) qs s = s
  all_or_nothing panic qs s = s

-- A database: statements `Q` change a state `S`. `committed` is what other connections read, and
-- `pending` are the statements of an open transaction.
pub record Database {ℓ} (D E Q S W : Type ℓ) : Type ℓ where
  pub apply : Q → S → S
  pub begin : D → W → Result E D × W
  pub exec : D → Q → W → Result E (Unit {0}) × W
  pub commit : D → W → Result E (Unit {0}) × W
  pub rollback : D → W → W
  pub committed : W → S
  pub is_open : D → W → Bool
  pub pending : D → W → List Q

module _ {ℓ} {D E Q S W : Type ℓ} (b : Database D E Q S W) where
  -- Statements in a transaction are not read by others before it commits, and are then read in their
  -- order; a commit that fails, and a rollback, discard them.
  pub record IsDatabase : Type ℓ where
    pub begin_open :
        (d tx : D) (w : W) → (b.begin d w).0 ≡ ok tx → b.is_open tx (b.begin d w).1 ≡ true
    pub begin_pending :
        (d tx : D) (w : W) → (b.begin d w).0 ≡ ok tx → b.pending tx (b.begin d w).1 ≡ []
    pub begin_committed : (d : D) (w : W) → b.committed (b.begin d w).1 ≡ b.committed w
    pub exec_open :
        (tx : D) (q : Q) (w : W) → b.is_open tx w ≡ true → b.is_open tx (b.exec tx q w).1 ≡ true
    pub exec_committed :
        (tx : D) (q : Q) (w : W)
        → b.is_open tx w ≡ true
        → b.committed (b.exec tx q w).1 ≡ b.committed w
    pub exec_pending :
        (tx : D) (q : Q) (w : W)
        → b.is_open tx w ≡ true
        → (b.exec tx q w).0 ≡ ok tt
        → b.pending tx (b.exec tx q w).1 ≡ b.pending tx w ++ (q ∷ [])
    pub commit_committed :
        (tx : D) (w : W)
        → b.is_open tx w ≡ true
        → b.committed (b.commit tx w).1
          ≡ all_or_nothing b.apply (b.commit tx w).0 (b.pending tx w) (b.committed w)
    pub rollback_committed : (tx : D) (w : W) → b.committed (b.rollback tx w) ≡ b.committed w

  -- The end of a transaction, by what its function returned.
  unfoldable pub settle : D → Result E (Unit {0}) × W → Result E (Unit {0}) × W
  settle tx (ok _, w) = b.commit tx w
  settle tx (err e, w) = (err e, b.rollback tx w)
  settle tx (panic, w) = (panic, b.rollback tx w)

  unfoldable pub begun :
      (D → W → Result E (Unit {0}) × W) → Result E D × W → Result E (Unit {0}) × W
  unfolding settle
  begun f (ok tx, w) = settle tx (f tx w)
  begun f (err e, w) = (err e, w)
  begun f (panic, w) = (panic, w)

  -- gorm: `Transaction` begins a transaction, commits where the function returns nil, and rolls back
  -- where it returns an error or panics.
  abbrev pub RunsTransactions : Gorm D E W → Type ℓ
  RunsTransactions g =
      (d : D) (f : D → W → Result E (Unit {0}) × W) (w : W)
      → g.transaction d f w ≡ begun f (b.begin d w)

  -- What a caller of `InTx` does: statements on the connection of its context, up to the first error,
  -- and then its own result.
  unfoldable pub after :
      Result E (Unit {0}) × W → (W → Result E (Unit {0}) × W) → Result E (Unit {0}) × W
  after (ok _, w) f = f w
  after (err e, w) f = (err e, w)
  after (panic, w) f = (panic, w)

  unfoldable pub script : Data D → List Q → Result E (Unit {0}) → Action D E W
  unfolding after
  script d [] r ctx w = (r, w)
  script d (q ∷ qs) r ctx w = after (b.exec (db d ctx) q w) (script d qs r ctx)
