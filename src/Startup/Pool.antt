-- ===== src/Startup/Pool.antt =====
-- internal/db/db.go: NewPool, which neither process calls. A duration and an int32 are the words that
-- hold them.
use flight_circle_search.Base.{
  ℕ, ◌≡◌, Bool, true, false, ◌++◌, Bytes, codes, Result, ok, err, Result-cases, inl, inr,
  is_positive, ltb, ◌&&◌, if◌then◌else◌, length, nat_eq, ◌==◌, arith,
}

-- `db.Config`, without a path that is not used
pub record Config : Type 0 where
  pub url : Bytes
  pub max_conns : ℕ
  pub connect_timeout : ℕ

-- What of a parsed configuration is set again; `rest` is what else the URL says.
pub record PoolConfig : Type 0 where
  pub max_conns : ℕ
  pub connect_timeout : ℕ
  pub rest : Bytes

-- The ping has a deadline, after the given time.
pub record Answers : Type 0 where
  pub parse_config : Bytes → Result Bytes PoolConfig
  pub new_with_config : PoolConfig → Result Bytes (Unit {0})
  pub ping : PoolConfig → ℕ → Result Bytes (Unit {0})

-- `n > 0` of an int32
abbrev pub is_positive32 : ℕ → Bool
is_positive32 n = ltb 0 n && ltb n 2147483648

abbrev pub with_settings : Config → PoolConfig → PoolConfig
with_settings cfg p = record p {
  max_conns = if is_positive32 cfg.max_conns then cfg.max_conns else p.max_conns;
  connect_timeout =
      if is_positive cfg.connect_timeout then cfg.connect_timeout else p.connect_timeout;
}

-- The pool, and whether it is held open.
abbrev pub pinged : PoolConfig → Result Bytes (Unit {0}) → Result Bytes PoolConfig × Bool
pinged p (err e) = (err (codes "ping: " ++ e), false)
pinged p (ok _) = (ok p, true)

abbrev pub created :
    Answers → Config → PoolConfig → Result Bytes (Unit {0}) → Result Bytes PoolConfig × Bool
created answers cfg p (err e) = (err (codes "create pool: " ++ e), false)
created answers cfg p (ok _) = pinged p (answers.ping p cfg.connect_timeout)

abbrev pub configured : Answers → Config → Result Bytes PoolConfig → Result Bytes PoolConfig × Bool
configured answers cfg (err e) = (err (codes "parse config: " ++ e), false)
configured answers cfg (ok parsed) =
    let p = with_settings cfg parsed in created answers cfg p (answers.new_with_config p)

unfoldable pub new_pool : Answers → Config → Result Bytes PoolConfig × Bool
new_pool answers cfg =
    if length cfg.url == 0
    then (err (codes "db: empty url"), false)
    else configured answers cfg (answers.parse_config cfg.url)

-- A ping without a time fails, as its deadline has passed. So a configuration without a timeout, which is to leave the one of the URL, never makes a pool.
new_pool_untimed :
    (answers : Answers) (cfg : Config)
    → ((p : PoolConfig) → (e : Bytes) × (answers.ping p 0 ≡ err e))
    → cfg.connect_timeout ≡ 0
    → (new_pool answers cfg).1 ≡ false
unfolding new_pool
new_pool_untimed answers cfg expired h = elim (Result-cases (answers.parse_config cfg.url)) [
  | inr (e, q) ↦ ground (arith, q)
  | inl (p, q) ↦ ground (arith, q, h, (expired (with_settings cfg p)).1)
]
