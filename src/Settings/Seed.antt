-- ===== src/Settings/Seed.antt =====
-- The default settings: internal/store/mysql.go, `SeedDefaultSettings`, with the values as JSON texts.
use qcc_plus.Prelude.{
  ℕ, suc, pos, ◌==◌, String, false, Option, none, some, List, [], ◌∷◌, ◌++◌, countb, if◌then◌else◌,
}
use qcc_plus.Settings.Table.{Setting, Table, Faults, StoreError, db_failed, new_row, is_duplicate}

-- A default of the scope "system", with its columns.
abbrev default_setting : String → String → String → String → String → Setting String
default_setting key value data_type category description = record {
  id = 0;
  key = key;
  scope = "system";
  account_id = none;
  value = value;
  data_type = data_type;
  category = category;
  description = some description;
  is_secret = false;
  version = pos 0;
  updated_by = none;
  updated_at = 0;
  created_at = 0;
}

abbrev pub default_settings : List (Setting String)
default_settings =
    default_setting "monitor.refresh_interval_ms" "30000" "number" "monitor" "监控大屏刷新间隔（毫秒）"
    ∷ default_setting "monitor.error_display" "\"icon\"" "string" "monitor" "错误显示方式：icon/inline"
    ∷ default_setting "monitor.show_node_stats" "{\"showHealth\":true,\"showProxy\":true}" "object"
        "monitor" "节点统计栏显示配置"
    ∷ default_setting "monitor.hide_disabled_nodes" "true" "boolean" "monitor" "禁用节点不显示在监控大屏"
    ∷ default_setting "health.check_interval_sec" "30" "number" "health" "健康检查间隔（秒）"
    ∷ default_setting "health.fail_threshold" "3" "number" "health" "失败阈值"
    ∷ default_setting "health.skip_disabled_nodes" "true" "boolean" "health" "禁用节点不进行健康检查"
    ∷ default_setting "proxy.retry_max" "3" "number" "performance" "最大重试次数"
    ∷ []

-- `INSERT IGNORE`: nothing where the unique index has the key already.
unfoldable pub insert_ignore : ℕ → Setting String → Table → Table
insert_ignore now d t =
    if countb (is_duplicate d.key d.scope d.account_id) t.rows == 0
    then (record t {
      rows = t.rows ++ (new_row t.next_id now d.value d ∷ []);
      next_id = suc t.next_id;
    })
    else t

-- The loop, which ends at the first failure and keeps what it has inserted.
unfoldable pub seed : Faults → ℕ → ℕ → List (Setting String) → Table → Table × Option StoreError
unfolding insert_ignore
seed db i now [] t = (t, none)
seed db i now (d ∷ ds) t = elim (db.exec i) [
  | some e ↦ (t, some (db_failed e))
  | none ↦ seed db (suc i) now ds (insert_ignore now d t)
]

unfoldable pub seed_default_settings : Faults → ℕ → Table → Table × Option StoreError
unfolding seed
seed_default_settings db now t = seed db 0 now default_settings t
