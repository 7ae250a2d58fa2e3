-- ===== src/Sql/Lists.antt =====
-- The allowlists and the denylists of services/agent_sql.py.
use powabase_ai.Prelude.{List, [], ◌∷◌, String}

abbrev pub allowed_functions : List String
allowed_functions =
    "count" ∷ "sum" ∷ "avg" ∷ "min" ∷ "max" ∷ "string_agg" ∷ "array_agg" ∷ "bool_and" ∷ "bool_or"
    ∷ "every" ∷ "json_agg" ∷ "jsonb_agg" ∷ "json_object_agg" ∷ "jsonb_object_agg" ∷ "stddev"
    ∷ "stddev_pop" ∷ "stddev_samp" ∷ "variance" ∷ "var_pop" ∷ "var_samp" ∷ "percentile_cont"
    ∷ "percentile_disc" ∷ "mode" ∷ "corr" ∷ "covar_pop" ∷ "covar_samp" ∷ "regr_slope"
    ∷ "regr_intercept" ∷ "bit_and" ∷ "bit_or" ∷ "row_number" ∷ "rank" ∷ "dense_rank"
    ∷ "percent_rank" ∷ "cume_dist" ∷ "ntile" ∷ "lag" ∷ "lead" ∷ "first_value" ∷ "last_value"
    ∷ "nth_value" ∷ "lower" ∷ "upper" ∷ "initcap" ∷ "length" ∷ "char_length" ∷ "character_length"
    ∷ "octet_length" ∷ "substr" ∷ "substring" ∷ "left" ∷ "right" ∷ "btrim" ∷ "ltrim" ∷ "rtrim"
    ∷ "replace" ∷ "concat" ∷ "concat_ws" ∷ "position" ∷ "strpos" ∷ "split_part" ∷ "regexp_replace"
    ∷ "regexp_matches" ∷ "regexp_match" ∷ "regexp_split_to_array" ∷ "regexp_split_to_table"
    ∷ "regexp_count" ∷ "regexp_instr" ∷ "regexp_like" ∷ "regexp_substr" ∷ "lpad" ∷ "rpad"
    ∷ "reverse" ∷ "repeat" ∷ "format" ∷ "md5" ∷ "sha256" ∷ "starts_with" ∷ "translate" ∷ "chr"
    ∷ "ascii" ∷ "to_hex" ∷ "encode" ∷ "decode" ∷ "overlay" ∷ "similar_to_escape" ∷ "normalize"
    ∷ "quote_literal" ∷ "quote_ident" ∷ "to_char" ∷ "to_number" ∷ "to_date" ∷ "to_timestamp" ∷ "abs"
    ∷ "ceil" ∷ "ceiling" ∷ "floor" ∷ "round" ∷ "trunc" ∷ "mod" ∷ "power" ∷ "pow" ∷ "sqrt" ∷ "cbrt"
    ∷ "exp" ∷ "ln" ∷ "log" ∷ "log10" ∷ "sign" ∷ "pi" ∷ "random" ∷ "degrees" ∷ "radians" ∷ "div"
    ∷ "gcd" ∷ "lcm" ∷ "width_bucket" ∷ "sin" ∷ "cos" ∷ "tan" ∷ "asin" ∷ "acos" ∷ "atan" ∷ "atan2"
    ∷ "now" ∷ "date_trunc" ∷ "date_part" ∷ "extract" ∷ "age" ∷ "make_date" ∷ "make_time"
    ∷ "make_timestamp" ∷ "make_timestamptz" ∷ "make_interval" ∷ "justify_days" ∷ "justify_hours"
    ∷ "justify_interval" ∷ "timezone" ∷ "date_bin" ∷ "isfinite" ∷ "clock_timestamp"
    ∷ "statement_timestamp" ∷ "transaction_timestamp" ∷ "overlaps" ∷ "json_build_object"
    ∷ "jsonb_build_object" ∷ "json_build_array" ∷ "jsonb_build_array" ∷ "json_object"
    ∷ "jsonb_object" ∷ "json_array_length" ∷ "jsonb_array_length" ∷ "json_each" ∷ "jsonb_each"
    ∷ "json_each_text" ∷ "jsonb_each_text" ∷ "json_array_elements" ∷ "jsonb_array_elements"
    ∷ "json_array_elements_text" ∷ "jsonb_array_elements_text" ∷ "json_extract_path"
    ∷ "jsonb_extract_path" ∷ "json_extract_path_text" ∷ "jsonb_extract_path_text" ∷ "json_typeof"
    ∷ "jsonb_typeof" ∷ "to_json" ∷ "to_jsonb" ∷ "json_object_keys" ∷ "jsonb_object_keys"
    ∷ "jsonb_pretty" ∷ "jsonb_set" ∷ "jsonb_insert" ∷ "jsonb_strip_nulls" ∷ "json_strip_nulls"
    ∷ "jsonb_path_query" ∷ "jsonb_path_query_array" ∷ "jsonb_path_query_first" ∷ "jsonb_path_exists"
    ∷ "jsonb_path_match" ∷ "row_to_json" ∷ "array_to_json" ∷ "array_length" ∷ "array_lower"
    ∷ "array_upper" ∷ "cardinality" ∷ "unnest" ∷ "array_to_string" ∷ "string_to_array"
    ∷ "array_position" ∷ "array_positions" ∷ "array_remove" ∷ "array_replace" ∷ "array_append"
    ∷ "array_prepend" ∷ "array_cat" ∷ "array_dims" ∷ "generate_series" ∷ "generate_subscripts"
    ∷ "to_tsvector" ∷ "to_tsquery" ∷ "plainto_tsquery" ∷ "phraseto_tsquery" ∷ "websearch_to_tsquery"
    ∷ "ts_rank" ∷ "ts_rank_cd" ∷ "ts_headline" ∷ "setweight" ∷ "gen_random_uuid" ∷ "num_nulls"
    ∷ "num_nonnulls" ∷ "like_escape" ∷ "int2" ∷ "int4" ∷ "int8" ∷ "float4" ∷ "float8" ∷ "text"
    ∷ "date" ∷ "timestamptz" ∷ "bool" ∷ []

abbrev pub allowed_operators : List String
allowed_operators =
    "=" ∷ "<>" ∷ "<" ∷ ">" ∷ "<=" ∷ ">=" ∷ "+" ∷ "-" ∷ "*" ∷ "/" ∷ "%" ∷ "^" ∷ "||" ∷ "|/" ∷ "@"
    ∷ "&" ∷ "|" ∷ "#" ∷ "~" ∷ "<<" ∷ ">>" ∷ "~~" ∷ "!~~" ∷ "~~*" ∷ "!~~*" ∷ "!~" ∷ "~*" ∷ "!~*"
    ∷ "->" ∷ "->>" ∷ "#>" ∷ "#>>" ∷ "@>" ∷ "<@" ∷ "?" ∷ "?|" ∷ "?&" ∷ "&&" ∷ "@?" ∷ "@@" ∷ "#-"
    ∷ "<->" ∷ "<=>" ∷ "<#>" ∷ "<+>" ∷ []

-- _LOOKUP_TYPES
abbrev pub lookup_types : List String
lookup_types =
    "regclass" ∷ "regproc" ∷ "regprocedure" ∷ "regoper" ∷ "regoperator" ∷ "regtype" ∷ "regrole"
    ∷ "regnamespace" ∷ "regconfig" ∷ "regdictionary" ∷ "regcollation" ∷ []

-- _PROTECTED_SCHEMAS
abbrev pub protected_schemas : List String
protected_schemas =
    "ai" ∷ "auth" ∷ "storage" ∷ "extensions" ∷ "graphql" ∷ "graphql_public" ∷ "realtime"
    ∷ "supabase_functions" ∷ "supabase_migrations" ∷ "vault" ∷ "net" ∷ "cron" ∷ "pgbouncer"
    ∷ "pgsodium" ∷ "pgsodium_masks" ∷ "information_schema" ∷ []
