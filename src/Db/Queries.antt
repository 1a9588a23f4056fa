-- ===== src/Db/Queries.antt =====
-- The catalog queries of src/db.rs, as it sends them.
use dmlpact.Base.{String, ◌<>◌}

abbrev pub identity_sql : String
identity_sql =
    "SELECT current_database(), current_user, current_setting('search_path'), "
    <> ("current_setting('server_version_num')::bigint, "
        <> ("pg_catalog.inet_server_addr()::text, pg_catalog.inet_server_port(), "
            <> ("current_setting('TimeZone'), current_setting('DateStyle'), "
                <> ("current_setting('IntervalStyle'), "
                    <> ("current_setting('standard_conforming_strings'), "
                        <> ("current_setting('client_encoding'), current_setting('lc_numeric'), "
                            <> ("current_setting('lc_monetary'), current_setting('lc_time')")))))))

abbrev pub table_sql : String
table_sql =
    "SELECT c.oid::bigint, n.nspname, c.relname, c.relkind::text, "
    <> ("c.relpersistence::text, c.relrowsecurity, c.relforcerowsecurity FROM "
        <> ("pg_catalog.pg_class AS c JOIN pg_catalog.pg_namespace AS n ON n.oid = "
            <> ("c.relnamespace WHERE c.oid = pg_catalog.to_regclass($1)::oid")))

abbrev pub column_sql : String
column_sql =
    "SELECT a.attnum::smallint, a.attname, pg_catalog.format_type(a.atttypid, "
    <> ("a.atttypmod), a.attnotnull, a.atthasdef, pg_catalog.pg_get_expr(d.adbin, "
        <> ("d.adrelid), a.attidentity::text, a.attgenerated::text FROM "
            <> ("pg_catalog.pg_attribute AS a LEFT JOIN pg_catalog.pg_attrdef AS d ON "
                <> ("d.adrelid = a.attrelid AND d.adnum = a.attnum WHERE a.attrelid = "
                    <> ("$1::bigint::oid AND a.attnum > 0 AND NOT a.attisdropped ORDER BY a.attnum")))))

abbrev pub constraint_sql : String
constraint_sql =
    "SELECT conname, pg_catalog.pg_get_constraintdef(oid, true) FROM "
    <> ("pg_catalog.pg_constraint WHERE conrelid = $1::bigint::oid ORDER BY conname")

abbrev pub index_sql : String
index_sql =
    "SELECT indexrelid::regclass::text, pg_catalog.pg_get_indexdef(indexrelid) "
    <> ("FROM pg_catalog.pg_index WHERE indrelid = $1::bigint::oid ORDER BY "
        <> ("indexrelid::regclass::text"))

abbrev pub trigger_sql : String
trigger_sql =
    "SELECT tgname, concat(tgenabled::text, ' ', pg_catalog.pg_get_triggerdef(oid, "
    <> ("true)) FROM pg_catalog.pg_trigger WHERE tgrelid = $1::bigint::oid AND NOT "
        <> ("tgisinternal ORDER BY tgname"))

abbrev pub rule_sql : String
rule_sql =
    "SELECT rulename, pg_catalog.pg_get_ruledef(oid, true) FROM "
    <> ("pg_catalog.pg_rewrite WHERE ev_class = $1::bigint::oid AND rulename <> "
        <> ("'_RETURN' ORDER BY rulename"))

abbrev pub policy_sql : String
policy_sql =
    "SELECT polname, concat_ws(' ', polcmd, polpermissive::text, polroles::text, "
    <> ("pg_catalog.pg_get_expr(polqual, polrelid), "
        <> ("pg_catalog.pg_get_expr(polwithcheck, polrelid)) FROM pg_catalog.pg_policy "
            <> ("WHERE polrelid = $1::bigint::oid ORDER BY polname")))

abbrev pub inheritance_sql : String
inheritance_sql =
    "SELECT relation FROM ( SELECT concat('parent:', inhparent::regclass::text) AS "
    <> ("relation FROM pg_catalog.pg_inherits WHERE inhrelid = $1::bigint::oid UNION "
        <> ("ALL SELECT concat('child:', inhrelid::regclass::text) AS relation FROM "
            <> ("pg_catalog.pg_inherits WHERE inhparent = $1::bigint::oid ) AS links ORDER BY "
                <> ("relation"))))

abbrev pub referential_action_sql : String
referential_action_sql =
    "SELECT conname, pg_catalog.pg_get_constraintdef(oid, true) FROM "
    <> ("pg_catalog.pg_constraint WHERE confrelid = $1::bigint::oid AND contype = 'f' "
        <> ("AND (confupdtype IN ('c', 'n', 'd') OR confdeltype IN ('c', 'n', 'd')) ORDER "
            <> ("BY conname")))
