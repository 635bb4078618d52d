-- ===== src/Persistence/Rows.antt =====
-- What is written of a message: all of its rows in one request, or none.
use cryptomeria.Common.{
  ℕ, List, [], ◌∷◌, ◌++◌, map, Option, none, String, ◌≡◌, ◌⊎◌, inl, inr, refl, sym,
}
use cryptomeria.Common.Result.{Result, ok, err, Task}
use cryptomeria.Persistence.Buffers.{Row, Content, Good, Leads, ◌and_then◌, Shows, IsBuffer}
use mathlib.Core.List.{append-nil, append_assoc}
use cryptomeria.Float.{Float}
use cryptomeria.Okx.Types.{LobLevel}
use cryptomeria.Persistence.{
  Ingress, TradeData, numbers, best_diff, timestamp_nanos, write_lob_level, write_all, trade_writes,
  flush_if, send_rows, persist_lob, persist_trade,
}

module _ {ℓ} {F : Type ℓ} ⦃f : Float F⦄ where
  -- The row of a level, and that of a trade.
  abbrev pub level_row :
      String → String → ℕ → String → Option F → Option F → String × LobLevel → Row F
  level_row inst_id exchange ts_ms action best_bid best_ask (side, level) = record {
    content = record {
      table = "lob_levels";
      symbols =
          ("inst_id", inst_id) ∷ ("exchange", exchange) ∷ ("action", action) ∷ ("side", side) ∷ [];
      columns =
          ("price", (numbers level).price)
          ∷ ("size", (numbers level).size)
          ∷ ("count", (numbers level).count)
          ∷ ("orders", (numbers level).orders)
          ∷ ("best_diff", best_diff side (numbers level).price best_bid best_ask)
          ∷ [];
    };
    time = timestamp_nanos ts_ms;
  }

  abbrev pub trade_row : TradeData F → Row F
  trade_row trade = record {
    content = record {
      table = "trades";
      symbols =
          ("inst_id", trade.inst_id)
          ∷ ("exchange", trade.exchange)
          ∷ ("trade_id", trade.trade_id)
          ∷ ("side", trade.side)
          ∷ [];
      columns = ("px", trade.px) ∷ ("sz", trade.sz) ∷ [];
    };
    time = timestamp_nanos trade.ts_ms;
  }

module _ {ℓ κ μ} {F : Type ℓ} {S : Type κ} {B : Type μ} (questdb : Ingress S B F)
    (content : B → Content F) where
  -- Rows go out together: either a write fails and nothing is sent, or a buffer is flushed that holds
  -- exactly `rows`.
  abbrev pub SendsAll : Task S (Unit {0}) → List (Row F) → S → Type (ℓ ⊔ κ ⊔ μ)
  SendsAll m rows s =
      ((b : B) × ((content b ≡ (rows, none)) × (m s ≡ questdb.flush b s)))
      ⊎ ((e : String) × (m s ≡ (err e, s)))

module _ {ℓ κ μ} {F : Type ℓ} {S : Type κ} {B : Type μ} ⦃f : Float F⦄ (questdb : Ingress S B F)
    (content : B → Content F) (h : IsBuffer questdb content) where
  write_lob_level-Leads :
      (inst_id exchange : String) (ts_ms : ℕ) (action : String) (best_bid best_ask : Option F)
      (level : String × LobLevel) (rows : List (Row F))
      → Leads
          (Shows content rows none)
          (write_lob_level questdb inst_id exchange ts_ms action best_bid best_ask level)
          (Shows content
            (rows ++ (level_row inst_id exchange ts_ms action best_bid best_ask level ∷ []))
            none)
  unfolding write_lob_level
  write_lob_level-Leads inst_id exchange ts_ms action best_bid best_ask (side, level) rows =
      h.table_opens "lob_levels" rows
      and_then h.symbol_adds "inst_id" inst_id rows _
      and_then h.symbol_adds "exchange" exchange rows _
      and_then h.symbol_adds "action" action rows _
      and_then h.symbol_adds "side" side rows _
      and_then h.column_adds "price" (numbers level).price rows _
      and_then h.column_adds "size" (numbers level).size rows _
      and_then h.column_adds "count" (numbers level).count rows _
      and_then h.column_adds "orders" (numbers level).orders rows _
      and_then h.column_adds "best_diff" (best_diff side (numbers level).price best_bid best_ask)
          rows _
      and_then h.at_closes (timestamp_nanos ts_ms) rows _

  persist_trade-Leads :
      (trade : TradeData F)
      → Leads
          (Shows content [] none)
          (trade_writes questdb trade)
          (Shows content (trade_row trade ∷ []) none)
  unfolding trade_writes
  persist_trade-Leads trade =
      h.table_opens "trades" []
      and_then h.symbol_adds "inst_id" trade.inst_id [] _
      and_then h.symbol_adds "exchange" trade.exchange [] _
      and_then h.symbol_adds "trade_id" trade.trade_id [] _
      and_then h.symbol_adds "side" trade.side [] _
      and_then h.column_adds "px" trade.px [] _
      and_then h.column_adds "sz" trade.sz [] _
      and_then h.at_closes (timestamp_nanos trade.ts_ms) [] _

  write_all-Leads :
      (write : String × LobLevel → Task B (Unit {0})) (row : String × LobLevel → Row F)
      → ((level : String × LobLevel) (rows : List (Row F))
          → Leads
              (Shows content rows none)
              (write level)
              (Shows content (rows ++ (row level ∷ [])) none))
      → (levels : List (String × LobLevel)) (rows : List (Row F))
      → Leads
          (Shows content rows none)
          (write_all write levels)
          (Shows content (rows ++ map row levels) none)
  unfolding write_all
  write_all-Leads write row each [] rows = record { leads = λ b p. rw (append-nil rows) p }
  write_all-Leads write row each (level ∷ levels) rows =
      rw (sym (append_assoc rows (row level ∷ []) (map row levels)))
        (each level rows and_then write_all-Leads write row each levels (rows ++ (row level ∷ [])))

  send_rows-SendsAll :
      (writes : Task B (Unit {0})) (rows : List (Row F))
      → Leads (Shows content [] none) writes (Shows content rows none)
      → (s : S) → SendsAll questdb content (send_rows questdb writes) rows s
  send_rows-SendsAll writes rows l s =
      go (writes (questdb.new_buffer s)) (l.leads (questdb.new_buffer s) (h.new_empty s))
    where
      go :
          (r : Result (Unit {0}) × B)
          → Good (Shows content rows none) r
          → ((b : B) × ((content b ≡ (rows, none)) × (flush_if questdb s r ≡ questdb.flush b s)))
            ⊎ ((e : String) × (flush_if questdb s r ≡ (err e, s)))
      go (ok u, b) p = inl (b, (p, refl))
      go (err e, b) p = inr (e, refl)

  -- persist_lob either fails with the sender as it was, or flushes one buffer that holds a row for
  -- each level, in the order of the levels, with the columns of that level and the same time.
  pub persist_lob-SendsAll :
      (inst_id exchange : String) (ts_ms : ℕ) (action : String) (levels : List (String × LobLevel))
      (best_bid best_ask : Option F) (s : S)
      → SendsAll questdb content
          (persist_lob questdb inst_id exchange ts_ms action levels best_bid best_ask)
          (map (level_row inst_id exchange ts_ms action best_bid best_ask) levels)
          s
  unfolding persist_lob
  persist_lob-SendsAll inst_id exchange ts_ms action levels best_bid best_ask s =
      send_rows-SendsAll _ _
        (write_all-Leads _ (level_row inst_id exchange ts_ms action best_bid best_ask)
          (write_lob_level-Leads inst_id exchange ts_ms action best_bid best_ask) levels [])
        s

  -- persist_trade either fails with the sender as it was, or flushes one buffer that holds the row of
  -- the trade.
  pub persist_trade-SendsAll :
      (trade : TradeData F) (s : S)
      → SendsAll questdb content (persist_trade questdb trade) (trade_row trade ∷ []) s
  unfolding persist_trade
  persist_trade-SendsAll trade s = send_rows-SendsAll _ _ (persist_trade-Leads trade) s
