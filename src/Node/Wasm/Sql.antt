-- ===== src/Node/Wasm/Sql.antt =====
-- crates/node/src/wasm_executor.rs: the named databases. The queries of a guest only read.
pub mod Setup
use craftsec.Base.{ℕ, Bool, Option, none, some, List, [], ◌∷◌, ◌++◌, ◌⊎◌, inl, inr, Text, text, map}
use craftsec.Base.Maps.{lookup, insert}
use craftsec.Core.External.{Digests, Json, Value, Float, hex_encode}
use craftsec.Core.Error.{Result, ok, err, program_error}
use craftsec.Node.Executor.{unwrap_or}

-- The constructors of `serde_json::Value`; an array or an object shows its printed text.
pub data JsonKind (N : Type 0) : Type 0 where
  string : Text → JsonKind N
  number : N → JsonKind N
  boolean : Bool → JsonKind N
  null : JsonKind N
  nested : Text → JsonKind N

-- The parameters that the code gives to a statement, and `rusqlite::types::Value`.
pub data ToSql (I F : Type 0) : Type 0 where
  of_text : Text → ToSql I F
  of_integer : I → ToSql I F
  of_real : F → ToSql I F
  of_bool : Bool → ToSql I F
  of_null : ToSql I F

pub data SqlValue (I F : Type 0) : Type 0 where
  null : SqlValue I F
  integer : I → SqlValue I F
  real : F → SqlValue I F
  text_value : Text → SqlValue I F
  blob : List ℕ → SqlValue I F

module _ ⦃j : Json⦄ where
  -- `rusqlite`, with the calls of serde_json on its parameters and rows. A batch that fails has
  -- changed the database by the statements before. Every column of a row has a value.
  pub record Rusqlite : Type 1 where
    pub Connection : Type 0
    pub Statement : Type 0
    pub I64 : Type 0
    pub Number : Type 0
    pub open_in_memory : Connection
    pub execute_batch : Text → Connection → (Unit {0} ⊎ Text) × Connection
    pub prepare : Connection → Text → Statement ⊎ Text
    pub query_map :
        Connection → Statement → List (ToSql I64 Float) → List (List (SqlValue I64 Float)) ⊎ Text
    pub params_from_str : Text → Option (List Value)
    pub kind : Value → JsonKind Number
    pub as_i64 : Number → Option I64
    pub as_f64 : Number → Option Float
    pub number_to_string : Number → Text
    pub of_i64 : I64 → Value
    pub of_f64 : Float → Value
    pub of_str : Text → Value
    pub to_string : List (List Value) → Text ⊎ Text

  module _ ⦃q : Rusqlite⦄ where
    pub record SqlDatabase : Type 0 where
      pub conn : q.Connection

    -- `SqlDatabase::new`.
    unfoldable pub new_database : SqlDatabase
    new_database = record { conn = q.open_in_memory }

    -- The result of the batch, and the database after it.
    unfoldable pub execute_sql : SqlDatabase → Text → (Unit {0} ⊎ Text) × SqlDatabase
    execute_sql db sql = let (r, conn) = q.execute_batch sql db.conn in (r, record { conn = conn })

    number_or_text : q.Number → Option q.I64 → Option Float → ToSql q.I64 Float
    number_or_text n (some i) f = of_integer i
    number_or_text n none (some f) = of_real f
    number_or_text n none none = of_text (q.number_to_string n)

    -- A JSON value as the parameter of a statement.
    unfoldable pub param_value : JsonKind q.Number → ToSql q.I64 Float
    unfolding number_or_text
    param_value (string s) = of_text s
    param_value (number n) = number_or_text n (q.as_i64 n) (q.as_f64 n)
    param_value (boolean b) = of_bool b
    param_value JsonKind.null = of_null
    param_value (nested printed) = of_text printed

    module _ ⦃d : Digests⦄ where
      -- A column of a row as JSON.
      unfoldable pub column_value : SqlValue q.I64 Float → Value
      column_value SqlValue.null = j.null
      column_value (integer i) = q.of_i64 i
      column_value (real f) = q.of_f64 f
      column_value (text_value s) = q.of_str s
      column_value (blob b) = q.of_str (hex_encode b)

      -- The closure of `query`: printed rows, or the text of an error.
      unfoldable pub print_rows : List (List (SqlValue q.I64 Float)) ⊎ Text → Text ⊎ Text
      print_rows (inl rows) = q.to_string (map (map column_value) rows)
      print_rows (inr e) = inr e

      unfoldable pub run_statement : SqlDatabase → List Value → q.Statement ⊎ Text → Text ⊎ Text
      run_statement db params (inl stmt) =
          print_rows (q.query_map db.conn stmt (map (λ v. param_value (q.kind v)) params))
      run_statement db params (inr e) = inr e

      -- `result.unwrap_or_else(|_| "[]".to_string())`.
      abbrev pub or_no_rows : Text ⊎ Text → Text
      or_no_rows (inl rows) = rows
      or_no_rows (inr e) = text "[]"

      unfoldable pub query : SqlDatabase → Text → Text → Text
      query db sql params_json =
          or_no_rows (
            run_statement db (unwrap_or (q.params_from_str params_json) []) (q.prepare db.conn sql))

    -- `HashMap<String, SqlDatabase>`, and `entry(name).or_default()`.
    abbrev pub Databases : Type 0
    Databases = List (Text × SqlDatabase)

    abbrev pub database_or_new : Databases → Text → SqlDatabase
    database_or_new dbs name = unwrap_or (lookup name dbs) new_database

    unfoldable pub setup_result : Unit {0} ⊎ Text → Result (Unit {0})
    setup_result (inl done) = ok tt
    setup_result (inr e) = err (program_error (text "SQL setup error: " ++ e))

    -- `setup_database` on the databases of a registry.
    unfoldable pub setup : Databases → Text → Text → Result (Unit {0}) × Databases
    setup dbs name sql =
        let (r, db) = execute_sql (database_or_new dbs name) sql in
        (setup_result r, insert name db dbs)
