-- ===== src/Persistence/Buffers.antt =====
-- What the questdb crate documents of its `Buffer`, as a hypothesis on the parameter `Ingress`.
use cryptomeria.Common.{List, [], ◌∷◌, ◌++◌, Option, none, some, String, ◌≡◌}
use cryptomeria.Common.Int.{ℤ}
use cryptomeria.Common.Result.{Result, ok, err, Task, ◌>>◌, resume}
use cryptomeria.Persistence.{Ingress}

-- A row without its time.
pub record Open {ℓ} (F : Type ℓ) : Type ℓ where
  pub table : String
  pub symbols : List (String × String)
  pub columns : List (String × F)

pub record Row {ℓ} (F : Type ℓ) : Type ℓ where
  pub content : Open F
  pub time : ℤ

-- The complete rows of a buffer, and the one that is being written.
abbrev pub Content {ℓ} : Type ℓ → Type ℓ
Content F = List (Row F) × Option (Open F)

module _ {ℓ} {F : Type ℓ} where
  abbrev pub opened : String → Open F
  opened t = record { table = t; symbols = []; columns = [] }

  abbrev pub with_symbol : String → String → Open F → Open F
  with_symbol n v r = record r { symbols = r.symbols ++ ((n, v) ∷ []) }

  abbrev pub with_column : String → F → Open F → Open F
  with_column n x r = record r { columns = r.columns ++ ((n, x) ∷ []) }

-- If `m` succeeds on a state with `P`, the state it leaves has `Q`.
module _ {ℓ κ} {B : Type ℓ} where
  abbrev pub Good : (B → Type κ) → Result (Unit {0}) × B → Type κ
  Good Q (ok u, b) = Q b
  Good Q (err e, b) = Unit

  pub record Leads (P : B → Type κ) (m : Task B (Unit {0})) (Q : B → Type κ) : Type (ℓ ⊔ κ) where
    pub leads : (b : B) → P b → Good Q (m b)

  infixl 5 ◌and_then◌
  pub ◌and_then◌ :
      {P Q R : B → Type κ} {m k : Task B (Unit {0})}
      → Leads P m Q
      → Leads Q k R
      → Leads P (m >> k) R
  ◌and_then◌ {P} {Q} {R} {m} {k} h g = record { leads = λ b p. go (m b) (h.leads b p) }
    where
      go : (r : Result (Unit {0}) × B) → Good Q r → Good R (resume (λ _. k) r)
      go (ok u, b') q = g.leads b' q
      go (err e, b') q = tt

module _ {ℓ κ} {F : Type ℓ} {B : Type κ} where
  abbrev pub Shows : (B → Content F) → List (Row F) → Option (Open F) → B → Type ℓ
  Shows content rows row b = content b ≡ (rows, row)

module _ {ℓ κ μ} {F : Type ℓ} {S : Type κ} {B : Type μ} where
  -- What the questdb crate documents of its `Buffer`, for a reading `content` of buffers: a new one is
  -- empty, and each method that succeeds adds what its name says.
  pub record IsBuffer (questdb : Ingress S B F) (content : B → Content F) : Type (ℓ ⊔ κ ⊔ μ) where
    pub new_empty : (s : S) → content (questdb.new_buffer s) ≡ ([], none)
    pub table_opens :
        (t : String) (rows : List (Row F))
        → Leads (Shows content rows none) (questdb.table t) (Shows content rows (some (opened t)))
    pub symbol_adds :
        (n v : String) (rows : List (Row F)) (r : Open F)
        → Leads
            (Shows content rows (some r))
            (questdb.symbol n v)
            (Shows content rows (some (with_symbol n v r)))
    pub column_adds :
        (n : String) (x : F) (rows : List (Row F)) (r : Open F)
        → Leads
            (Shows content rows (some r))
            (questdb.column_f64 n x)
            (Shows content rows (some (with_column n x r)))
    pub at_closes :
        (t : ℤ) (rows : List (Row F)) (r : Open F)
        → Leads
            (Shows content rows (some r))
            (questdb.at t)
            (Shows content (rows ++ (record { content = r; time = t } ∷ [])) none)
