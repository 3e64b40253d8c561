-- ===== src/Data/Tests.antt =====
-- A database of numbers with transactions: the theorems at concrete scripts.
use go_svc_extn.Prelude.{
  ℕ, ◌+◌, ◌≡◌, refl, true, false, ◌==◌, if◌then◌else◌, none, some, List, [], ◌∷◌, ◌++◌, ok, err,
  arith,
}
use go_svc_extn.Data.{Data, Context, Gorm, db, in_tx}
use go_svc_extn.Data.Database.{
  Database, IsDatabase, RunsTransactions, apply_all, all_or_nothing, begun, settle, after, script,
}
use go_svc_extn.Data.Atomic.{in_tx_atomic}
use go_svc_extn.Data.Nested.{inner_then_fail, nested_stays}

-- The rows that are committed, and, for each transaction by its number, the rows that it inserted.
record World : Type 0 where
  rows : List ℕ
  inserted : ℕ → List ℕ
  next : ℕ

abbrev insert_row : ℕ → List ℕ → List ℕ
insert_row q rows = rows ++ (q ∷ [])

-- Connection 0 is the root. A row 0 is refused.
abbrev database : Database ℕ ℕ ℕ (List ℕ) World
database = record {
  apply = insert_row;
  begin = λ d w. (
    ok (w.next + 1),
    record {
      rows = w.rows;
      inserted = λ t. if t == w.next + 1 then [] else w.inserted t;
      next = w.next + 1;
    },
  );
  exec = λ d q w.
      if q == 0
      then (err 23, w)
      else if d == 0
      then (ok tt, record w { rows = insert_row q w.rows })
      else (
        ok tt,
        record w { inserted = λ t. if t == d then insert_row q (w.inserted t) else w.inserted t },
      );
  commit = λ d w. (ok tt, record w { rows = apply_all insert_row (w.inserted d) w.rows });
  rollback = λ d w. record w { inserted = λ t. if t == d then [] else w.inserted t };
  committed = λ w. w.rows;
  is_open = λ d w. if d == 0 then false else true;
  pending = λ d w. w.inserted d;
}

database-IsDatabase : IsDatabase database
unfolding all_or_nothing
database-IsDatabase = record {
  begin_open = λ d tx w e. ground arith;
  begin_pending = λ d tx w e. ground arith;
  begin_committed = λ d w. refl;
  exec_open = λ tx q w o. o;
  exec_committed = λ tx q w o. ground arith;
  exec_pending = λ tx q w o e. ground arith;
  commit_committed = λ tx w o. refl;
  rollback_committed = λ tx w. refl;
}

abbrev gorm : Gorm ℕ ℕ World
gorm = record {
  with_context = λ ctx d. d;
  transaction = λ d f w. begun database f (database.begin d w);
}

gorm-RunsTransactions : RunsTransactions database gorm
gorm-RunsTransactions d f w = refl

abbrev service : Data ℕ
service = record { db = 0 }

abbrev outside : Context ℕ
outside = record { tx = none }

abbrev start : World
start = record { rows = 7 ∷ []; inserted = λ t. []; next = 0 }

in_tx_atomic_example :
    (in_tx gorm service outside (script database service (1 ∷ 0 ∷ 2 ∷ []) (ok tt)) start).1.rows
    ≡ all_or_nothing insert_row
        (in_tx gorm service outside (script database service (1 ∷ 0 ∷ 2 ∷ []) (ok tt)) start).0
        (1 ∷ 0 ∷ 2 ∷ [])
        (7 ∷ [])
in_tx_atomic_example =
    in_tx_atomic database database-IsDatabase gorm service outside (1 ∷ 0 ∷ 2 ∷ []) (ok tt) start
      gorm-RunsTransactions

all_inserted :
    (in_tx gorm service outside (script database service (1 ∷ 2 ∷ []) (ok tt)) start).1.rows
    ≡ 7 ∷ 1 ∷ 2 ∷ []
unfolding in_tx db script begun settle after apply_all
all_inserted = refl

none_inserted :
    (in_tx gorm service outside (script database service (1 ∷ 0 ∷ 2 ∷ []) (ok tt)) start).1.rows
    ≡ 7 ∷ []
unfolding in_tx db script begun settle after apply_all
none_inserted = refl

inner_ok :
    (in_tx gorm service
      (record { tx = some 1 })
      (script database service (1 ∷ 2 ∷ []) (ok tt))
      (database.begin 0 start).1).0
    ≡ ok tt
unfolding in_tx db script begun settle after apply_all
inner_ok = refl

nested_stays_example :
    ((in_tx gorm service outside (inner_then_fail database gorm service (1 ∷ 2 ∷ []) 9) start).0
      ≡ err 9)
    × ((in_tx gorm service outside
          (inner_then_fail database gorm service (1 ∷ 2 ∷ []) 9)
          start).1.rows
        ≡ apply_all insert_row (1 ∷ 2 ∷ []) (7 ∷ []))
nested_stays_example =
    nested_stays database gorm service outside (1 ∷ 2 ∷ []) 9 start (database.begin 0 start).1 1
      database-IsDatabase gorm-RunsTransactions refl inner_ok
