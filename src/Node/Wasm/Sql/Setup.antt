-- ===== src/Node/Wasm/Sql/Setup.antt =====
-- What the setup of databases leaves for the queries.
use craftsec.Base.{
  ◌≡◌, inl, inr, refl, ◌∙◌, ap, Bool-cases, List, [], ◌∷◌, Option, none, some, Text, text_eq,
  text_eq_iff, if◌then◌else◌,
}
use craftsec.Base.Maps.{lookup, lookup-insert}
use craftsec.Core.External.{Json}
use craftsec.Node.Executor.{unwrap_or}
use craftsec.Node.Wasm.Sql.{Rusqlite, SqlDatabase, Databases, new_database, execute_sql, setup}

module _ ⦃j : Json⦄ ⦃q : Rusqlite⦄ where
  -- Setups by name and batch, one after the other, whatever their results are.
  abbrev pub setup_all : List (Text × Text) → Databases → Databases
  setup_all [] dbs = dbs
  setup_all ((name, sql) ∷ scripts) dbs = setup_all scripts (setup dbs name sql).1

  -- The batches for a name, in order.
  abbrev pub batches_for : Text → List (Text × Text) → List Text
  batches_for name [] = []
  batches_for name ((other, sql) ∷ scripts) =
      if text_eq other name then sql ∷ batches_for name scripts else batches_for name scripts

  -- The connection after batches that are run on it in order.
  abbrev pub run_batches : List Text → q.Connection → q.Connection
  run_batches [] conn = conn
  run_batches (sql ∷ batches) conn = run_batches batches (q.execute_batch sql conn).1

  -- The connection after batches: the first one opens an in-memory database if there is none.
  abbrev pub connection_after : List Text → Option q.Connection → Option q.Connection
  connection_after [] conn = conn
  connection_after (sql ∷ batches) none = some (run_batches (sql ∷ batches) q.open_in_memory)
  connection_after (sql ∷ batches) (some conn) = some (run_batches (sql ∷ batches) conn)

  abbrev pub connection_of : Option SqlDatabase → Option q.Connection
  connection_of none = none
  connection_of (some db) = some db.conn

  -- One more batch in front.
  connection_after-cons :
      (sql : Text) (batches : List Text) (db : Option SqlDatabase)
      → connection_after batches (some (execute_sql (unwrap_or db new_database) sql).1.conn)
        ≡ connection_after (sql ∷ batches) (connection_of db)
  unfolding execute_sql new_database
  connection_after-cons sql [] none = refl
  connection_after-cons sql [] (some db) = refl
  connection_after-cons sql (next ∷ batches) none = refl
  connection_after-cons sql (next ∷ batches) (some db) = refl

  -- After any setups, also ones that fail, the database of a name is the one in which the batches
  -- for this name, and no others, have been run in order on one connection: the connection that the
  -- name had, or, if there are such batches, a newly opened in-memory database.
  pub setup_all-lookup :
      (scripts : List (Text × Text)) (dbs : Databases) (name : Text)
      → connection_of (lookup name (setup_all scripts dbs))
        ≡ connection_after (batches_for name scripts) (connection_of (lookup name dbs))
  unfolding setup
  setup_all-lookup [] dbs name = refl
  setup_all-lookup ((other, sql) ∷ scripts) dbs name =
      let db = (execute_sql (unwrap_or (lookup other dbs) new_database) sql).1 in
      let after = setup_all-lookup scripts (setup dbs other sql).1 name in
      let stored = lookup-insert other name db dbs in
      elim (Bool-cases (text_eq other name)) [
        | inl same ↦
            let eq : other ≡ name = (text_eq_iff other name).0 same in
            let found : lookup name (setup dbs other sql).1 ≡ some db = stored ∙ rw same refl in
            after
            ∙ rw (same, found)
                (connection_after-cons sql (batches_for name scripts) (lookup other dbs)
                  ∙ ap
                      (λ n.
                        connection_after (sql ∷ batches_for name scripts)
                          (connection_of (lookup n dbs)))
                      eq)
        | inr differs ↦
            let found : lookup name (setup dbs other sql).1 ≡ lookup name dbs =
              stored ∙ rw differs refl in
            after ∙ rw (differs, found) refl
      ]
