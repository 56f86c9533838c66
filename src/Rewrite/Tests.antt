-- ===== src/Rewrite/Tests.antt =====
-- A query with a word, a string literal and an identifier in quotes.
use drift_sql.Prelude.{String, ◌≡◌, refl}
use drift_sql.Result.{ok}
use drift_sql.Python.Sample.{sample}
use drift_sql.Rewrite.{rewrite_sql_identifier}

abbrev query : String
query = "SELECT id, \"id\", 'id' FROM ids"

query_rewrites :
    rewrite_sql_identifier sample query "id" "key" ≡ ok "SELECT key, \"key\", 'id' FROM ids"
unfolding rewrite_sql_identifier
query_rewrites = refl
