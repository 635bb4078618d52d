-- ===== src/Tests/Rows.antt =====
-- Concrete runs of the writes to QuestDB, with a buffer that keeps its rows.
use cryptomeria.Common.{List, [], ◌∷◌, ◌++◌, none, some, String, ◌≡◌, refl, map}
use cryptomeria.Common.Int.{ℤ}
use cryptomeria.Common.Result.{ok, err, Task}
use cryptomeria.Float.Fixed.{Fixed, fixed_float}
use cryptomeria.Okx.Types.{LobLevel}
use cryptomeria.Persistence.{
  Ingress, find_addr, strip_prefix, write_all, write_lob_level, as_f64, best_diff, persist_lob,
  extract_http_addr, resolve_questdb_conf, timestamp_nanos,
}
use cryptomeria.Text.{split}
use cryptomeria.Persistence.Buffers.{Open, Row, Content, opened, with_symbol, with_column, IsBuffer}
use cryptomeria.Persistence.Rows.{level_row, SendsAll, persist_lob-SendsAll}

abbrev pub Kept : Type 0
Kept = List (List (Row Fixed))

-- a method that needs an open row
abbrev in_row : (Open Fixed → Content Fixed) → Task (Content Fixed) (Unit {0})
in_row change (rows, some r) = (ok tt, change r)
in_row change (rows, none) = (err "no table", (rows, none))

abbrev add_to_row : (Open Fixed → Open Fixed) → Task (Content Fixed) (Unit {0})
add_to_row change (rows, some r) = (ok tt, (rows, some (change r)))
add_to_row change (rows, none) = (err "no table", (rows, none))

abbrev open_row : String → Task (Content Fixed) (Unit {0})
open_row t (rows, none) = (ok tt, (rows, some (opened t)))
open_row t (rows, some r) = (err "row not closed", (rows, some r))

abbrev close_row : ℤ → Task (Content Fixed) (Unit {0})
close_row t (rows, some r) = (ok tt, (rows ++ (record { content = r; time = t } ∷ []), none))
close_row t (rows, none) = (err "no table", (rows, none))

abbrev flush_rows : Content Fixed → Task Kept (Unit {0})
flush_rows (rows, r) kept = (ok tt, kept ++ (rows ∷ []))

abbrev pub keeping : Ingress Kept (Content Fixed) Fixed
keeping = record {
  new_buffer = λ s. ([], none);
  table = open_row;
  symbol = λ n v. add_to_row (with_symbol n v);
  column_f64 = λ n x. add_to_row (with_column n x);
  at = close_row;
  flush = flush_rows;
}

keeping-IsBuffer : IsBuffer keeping (λ b. b)
keeping-IsBuffer = record {
  new_empty = λ s. refl;
  table_opens = λ t rows. record { leads = λ b p. rw p refl };
  symbol_adds = λ n v rows r. record { leads = λ b p. rw p refl };
  column_adds = λ n x rows r. record { leads = λ b p. rw p refl };
  at_closes = λ t rows r. record { leads = λ b p. rw p refl };
}

abbrev two_levels : List (String × LobLevel)
two_levels =
    ("bid", record { price = "99"; size = "2"; count = "0"; orders = "1" })
    ∷ ("ask", record { price = "101"; size = "x"; count = ""; orders = "" })
    ∷ []

persist_lob-SendsAll_example :
    SendsAll keeping
      (λ b. b)
      (persist_lob keeping "btcusdt" "okx" 1_700_000_000_123 "snapshot" two_levels
        (some (some 1_000_000))
        none)
      (map
        (level_row "btcusdt" "okx" 1_700_000_000_123 "snapshot" (some (some 1_000_000)) none)
        two_levels)
      []
persist_lob-SendsAll_example =
    persist_lob-SendsAll keeping (λ b. b) keeping-IsBuffer "btcusdt" "okx" 1_700_000_000_123
      "snapshot" two_levels (some (some 1_000_000)) none []

http_addr : extract_http_addr "https::addr=secure:9000;username=admin;" ≡ "secure:9000"
unfolding extract_http_addr find_addr split strip_prefix
http_addr = refl

default_addr : extract_http_addr (resolve_questdb_conf none none) ≡ "localhost:9000"
unfolding extract_http_addr resolve_questdb_conf find_addr split strip_prefix
default_addr = refl

-- one request, with the rows of both levels
written : (persist_lob keeping "b" "okx" 5 "update" two_levels none none []).0 ≡ ok tt
unfolding persist_lob write_all write_lob_level timestamp_nanos as_f64 best_diff
written = refl
