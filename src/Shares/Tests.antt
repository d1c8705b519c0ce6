-- ===== src/Shares/Tests.antt =====
-- The theorem about revoked links at concrete inputs.
use qcc_plus.Prelude.{◌≡◌, ◌≢◌, ◌<◌, refl, inl, inr, false, some, none, List, [], ◌∷◌}
use qcc_plus.Shares.Defs.{
  MonitorShareRecord, get_monitor_share_by_token, first_share, revoke_monitor_share, revoke_rows,
}
use qcc_plus.Shares.Revoked.{get_monitor_share_by_token-revoked}

abbrev kept : MonitorShareRecord
kept = record {
  id = "s-1";
  account_id = "acc";
  token = "t-1";
  expire_at = 100;
  created_by = "admin";
  created_at = 1;
  revoked = false;
  revoked_at = none;
}

abbrev other : MonitorShareRecord
other = record kept { id = "s-2"; token = "t-2" }

abbrev after : List MonitorShareRecord
after = (revoke_monitor_share none 50 "s-2" (kept ∷ other ∷ [])).0

revoked : revoke_monitor_share none 50 "s-2" (kept ∷ other ∷ []) ≡ (after, none)
unfolding revoke_monitor_share
revoked = refl

found : get_monitor_share_by_token none 60 "t-1" after ≡ inr (some kept)
unfolding get_monitor_share_by_token first_share revoke_monitor_share revoke_rows
found = refl

get_monitor_share_by_token-revoked_example :
    (kept.token ≡ "t-1") × (kept.id ≢ "s-2") × (kept.expire_at ≢ 0 → 60 < kept.expire_at)
get_monitor_share_by_token-revoked_example =
    get_monitor_share_by_token-revoked none 50 60 "s-2" "t-1" (kept ∷ other ∷ []) after kept
      (inl revoked) found
