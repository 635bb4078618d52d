-- ===== src/Persistence.antt =====
-- rs/src/db/mod.rs: the configuration of QuestDB, and the rows that are written to it. The `Sender`
-- and the `Buffer` of the questdb crate are parameters.
pub mod Buffers
pub mod Rows
pub mod Clock
pub mod Setup
use text.Mathlib.Text.{◌==◌ as str_eq}
use Prim.Native.String.{[] as end, ◌∷◌ as ◌then◌, ◌++◌ as ◌⊕◌}
use Prim.Native.Char.{code}
use cryptomeria.Common.{
  ℕ, ◌-◌, ◌*◌, ◌%◌, ◌^◌, List, [], ◌∷◌, Option, none, some, String, ltb, ◌==◌, if◌then◌else◌,
}
use cryptomeria.Common.Int.{ℤ, pos, negsuc}
use cryptomeria.Common.Result.{Result, ok, err, Task, done, ◌>>=◌, ◌>>◌}
use cryptomeria.Float.{Float}
use cryptomeria.Json.{and_then}
use cryptomeria.Migrate.{unwrap_or}
use cryptomeria.Okx.Types.{LobLevel}
use cryptomeria.Text.{split}

abbrev pub default_qdb_conf : String
default_qdb_conf = "http::addr=localhost:9000;username=admin;password=quest;"

-- `env_conf` is the variable QDB_CLIENT_CONF, where it is set.
unfoldable pub resolve_questdb_conf : Option String → Option String → String
resolve_questdb_conf (some conf) env_conf = conf
resolve_questdb_conf none (some env_conf) = env_conf
resolve_questdb_conf none none = default_qdb_conf

-- `str::strip_prefix`
unfoldable pub strip_prefix : String → String → Option String
strip_prefix end s = some s
strip_prefix (c then p) end = none
strip_prefix (c then p) (d then s) =
    let rest = strip_prefix p s in if code c == code d then rest else none

-- one turn of the loop: what it returns
abbrev pub addr_of : String → Option String
addr_of part = elim (strip_prefix "http::addr=" part) [
  | some stripped ↦ some stripped
  | none ↦ strip_prefix "https::addr=" part
]

unfoldable pub find_addr : List String → String
find_addr [] = "localhost:9000"
find_addr (part ∷ parts) =
    let rest = find_addr parts in elim (addr_of part) [ some stripped ↦ stripped | none ↦ rest ]

unfoldable pub extract_http_addr : String → String
extract_http_addr conf_str = find_addr (split b';' conf_str)

-- `(ts_ms as i64) * 1_000_000`, with the wrap-around of both: the bits of the product, read with a
-- sign. (A build with overflow checks panics where the product wraps.)
abbrev pub as_i64 : ℕ → ℤ
as_i64 n = let r = n % 2 ^ 64 in if ltb r (2 ^ 63) then pos r else negsuc (2 ^ 64 - 1 - r)

unfoldable pub timestamp_nanos : ℕ → ℤ
timestamp_nanos ts_ms = as_i64 (ts_ms * 1_000_000)

pub record TradeData {ℓ} (F : Type ℓ) : Type ℓ where
  pub inst_id : String
  pub exchange : String
  pub trade_id : String
  pub px : F
  pub sz : F
  pub side : String
  pub ts_ms : ℕ

-- The methods of questdb's `Sender`, over its state `S`, and of its `Buffer`, over `B`.
pub record Ingress {ℓ κ μ} (S : Type ℓ) (B : Type κ) (F : Type μ) : Type (ℓ ⊔ κ ⊔ μ) where
  pub new_buffer : S → B
  pub table : String → Task B (Unit {0})
  pub symbol : String → String → Task B (Unit {0})
  pub column_f64 : String → F → Task B (Unit {0})
  pub at : ℤ → Task B (Unit {0})
  pub flush : B → Task S (Unit {0})

-- the tuple that `LobLevel::as_f64` gives
pub record LevelNumbers {ℓ} (F : Type ℓ) : Type ℓ where
  pub price : F
  pub size : F
  pub count : F
  pub orders : F

-- the loop of persist_lob
unfoldable pub write_all {ℓ} :
    {B : Type ℓ}
    → (String × LobLevel → Task B (Unit {0}))
    → List (String × LobLevel)
    → Task B (Unit {0})
write_all write [] = done tt
write_all write (level ∷ levels) = write level >> write_all write levels

module _ {ℓ} {F : Type ℓ} ⦃f : Float F⦄ where
  unfoldable pub as_f64 : LobLevel → Option (LevelNumbers F)
  as_f64 level = and_then (f.parse level.price) (λ price. and_then (f.parse level.size) (λ size.
      some (record {
        price = price;
        size = size;
        count = unwrap_or f.nought (f.parse level.count);
        orders = unwrap_or f.nought (f.parse level.orders);
      })))

  abbrev pub zeros : LevelNumbers F
  zeros = record { price = f.nought; size = f.nought; count = f.nought; orders = f.nought }

  -- a level that does not parse is written all the same, with four zeros
  abbrev pub numbers : LobLevel → LevelNumbers F
  numbers level = unwrap_or zeros (as_f64 level)

  abbrev pub distance : (F → F) → Option F → F
  distance away none = f.nought
  distance away (some best) = away best

  unfoldable pub best_diff : String → F → Option F → Option F → F
  best_diff side price best_bid best_ask =
      if str_eq side "bid"
      then distance (λ bb. f.sub bb price) best_bid
      else if str_eq side "ask"
      then distance (λ ba. f.sub price ba) best_ask
      else f.nought

  module _ {κ μ} {S : Type κ} {B : Type μ} (questdb : Ingress S B F) where
    unfoldable pub write_lob_level :
        String → String → ℕ → String → Option F → Option F → String × LobLevel → Task B (Unit {0})
    write_lob_level inst_id exchange ts_ms action best_bid best_ask (side, level) =
        let n = numbers level in
        questdb.table "lob_levels"
        >> questdb.symbol "inst_id" inst_id
        >> questdb.symbol "exchange" exchange
        >> questdb.symbol "action" action
        >> questdb.symbol "side" side
        >> questdb.column_f64 "price" n.price
        >> questdb.column_f64 "size" n.size
        >> questdb.column_f64 "count" n.count
        >> questdb.column_f64 "orders" n.orders
        >> questdb.column_f64 "best_diff" (best_diff side n.price best_bid best_ask)
        >> questdb.at (timestamp_nanos ts_ms)

    -- `sender.flush(&mut buffer)` if no write has failed
    abbrev pub flush_if : S → Result (Unit {0}) × B → Result (Unit {0}) × S
    flush_if s (ok u, b) = questdb.flush b s
    flush_if s (err e, b) = (err e, s)

    abbrev pub send_rows : Task B (Unit {0}) → Task S (Unit {0})
    send_rows writes s = flush_if s (writes (questdb.new_buffer s))

    unfoldable pub persist_lob :
        String
        → String
        → ℕ
        → String
        → List (String × LobLevel)
        → Option F
        → Option F
        → Task S (Unit {0})
    persist_lob inst_id exchange ts_ms action levels best_bid best_ask =
        send_rows
          (write_all (write_lob_level inst_id exchange ts_ms action best_bid best_ask) levels)

    unfoldable pub trade_writes : TradeData F → Task B (Unit {0})
    trade_writes trade =
        questdb.table "trades"
        >> questdb.symbol "inst_id" trade.inst_id
        >> questdb.symbol "exchange" trade.exchange
        >> questdb.symbol "trade_id" trade.trade_id
        >> questdb.symbol "side" trade.side
        >> questdb.column_f64 "px" trade.px
        >> questdb.column_f64 "sz" trade.sz
        >> questdb.at (timestamp_nanos trade.ts_ms)

    unfoldable pub persist_trade : TradeData F → Task S (Unit {0})
    persist_trade trade = send_rows (trade_writes trade)
