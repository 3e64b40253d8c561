-- ===== src/Data.antt =====
-- pkg/data/gorm.go: the connection that a context carries, and transactions. What gorm and the database
-- do is a parameter; the last parts of a call are the state of the world and what is left of it.
pub mod Database
pub mod Atomic
pub mod Nested
mod Tests
use go_svc_extn.Prelude.{ℕ, ◌*◌, Option, none, some, Bytes, Result, ok, err, panic}

-- `Data`, and what it reads of a context: the value of `contextTxKey`.
pub record Data {ℓ} (D : Type ℓ) : Type ℓ where
  pub db : D

pub record Context {ℓ} (D : Type ℓ) : Type ℓ where
  pub tx : Option D

-- A function that runs in a transaction.
abbrev pub Action {ℓ} : Type ℓ → Type ℓ → Type ℓ → Type ℓ
Action D E W = Context D → W → Result E (Unit {0}) × W

-- `WithContext` and `Transaction` of gorm.
pub record Gorm {ℓ} (D E W : Type ℓ) : Type ℓ where
  pub with_context : Context D → D → D
  pub transaction : D → (D → W → Result E (Unit {0}) × W) → W → Result E (Unit {0}) × W

-- `Data.DB`
pub db {ℓ} : {D : Type ℓ} → Data D → Context D → D
db d ctx = elim ctx.tx [ some tx ↦ tx | none ↦ d.db ]

-- `Data.InTx`
pub in_tx {ℓ} :
    {D E W : Type ℓ} → Gorm D E W → Data D → Context D → Action D E W → W → Result E (Unit {0}) × W
in_tx g d ctx fn w =
    g.transaction (g.with_context ctx d.db) (λ tx. fn (record ctx { tx = some tx })) w

-- `NewTransaction`: the interface has `InTx` alone.
pub new_transaction {ℓ} :
    {D E W : Type ℓ} → Gorm D E W → Data D → Context D → Action D E W → W → Result E (Unit {0}) × W
unfolding in_tx
new_transaction g d = in_tx g d

-- `NewData`, with its cleanup function, which does nothing.
pub new_data {ℓ κ} : {D : Type ℓ} {W : Type κ} → D → Data D × (W → W)
new_data db = (record { db = db }, λ w. w)

-- What `NewGorm` calls: the driver, the plugin for traces, and the settings of the pool.
pub record Driver {ℓ} (D P E W : Type ℓ) : Type ℓ where
  pub gorm_open : Bytes → W → Result E D × W
  pub use_tracing : D → W → Result E (Unit {0}) × W
  pub sql_db : D → W → Result E P × W
  pub set_max_idle_conns : ℕ → P → W → W
  pub set_max_open_conns : ℕ → P → W → W
  -- in seconds
  pub set_conn_max_idle_time : ℕ → P → W → W
  pub set_conn_max_lifetime : ℕ → P → W → W

module _ {ℓ} {D P E W : Type ℓ} (g : Driver D P E W) where
  -- The settings of the pool, in the order in which they are made.
  pub configure_pool : P → W → W
  configure_pool pool w = g.set_conn_max_lifetime (8 * 3600) pool (
      g.set_conn_max_idle_time (5 * 60) pool
        (g.set_max_open_conns 10 pool (g.set_max_idle_conns 1 pool w)))

  pub pooled : D → Result E P → W → Result E D × W
  unfolding configure_pool
  pooled d (ok pool) w = (ok d, configure_pool pool w)
  pooled d (err e) w = (err e, w)
  pooled d panic w = (panic, w)

  pub traced : D → Result E (Unit {0}) → W → Result E D × W
  unfolding pooled
  traced d (ok _) w = let (r, w') = g.sql_db d w in pooled d r w'
  traced d (err e) w = (err e, w)
  traced d panic w = (panic, w)

  pub opened : Result E D → W → Result E D × W
  unfolding traced
  opened (ok d) w = let (r, w') = g.use_tracing d w in traced d r w'
  opened (err e) w = (err e, w)
  opened panic w = (panic, w)

  -- `NewGorm`
  pub new_gorm : Bytes → W → Result E D × W
  unfolding opened
  new_gorm dsn w = let (r, w') = g.gorm_open dsn w in opened r w'
