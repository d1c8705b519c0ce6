-- ===== src/Shares/Defs.antt =====
-- The table of shared links: internal/store/monitor_share.go. The order of the rows is the order in
-- which a statement visits them; instants are nanoseconds, and the zero time is 0.
use qcc_plus.Prelude.{
  ℕ, zero, suc, ◌==◌, ℤ, pos, negsuc, inl, inr, ◌⊎◌, String, Bool, true, not, ◌&&◌, ◌||◌, Option,
  none, some, List, [], ◌∷◌, ◌++◌, map, ltb, str_eq, countb, filterb, if◌then◌else◌,
}

pub record MonitorShareRecord : Type 0 where
  pub id : String
  pub account_id : String
  pub token : String
  pub expire_at : ℕ
  pub created_by : String
  pub created_at : ℕ
  pub revoked : Bool
  pub revoked_at : Option ℕ

pub data ShareError : Type 0 where
  id_and_token_required account_required created_by_required : ShareError
  id_required token_required not_found : ShareError
  db_failed : String → ShareError

abbrev pub normalize_account : String → String
normalize_account a = if str_eq a "" then "default" else a

-- A time of revocation that is zero is none.
abbrev pub set_time : Option ℕ → Option ℕ
set_time none = none
set_time (some t) = if t == 0 then none else some t

abbrev pub inserted : ℕ → MonitorShareRecord → MonitorShareRecord
inserted now rec = record rec {
  account_id = normalize_account rec.account_id;
  created_at = if rec.created_at == 0 then now else rec.created_at;
  revoked_at = set_time rec.revoked_at;
}

-- The primary key and the unique index on the tokens.
abbrev pub is_taken : MonitorShareRecord → MonitorShareRecord → Bool
is_taken rec r = str_eq r.id rec.id || str_eq r.token rec.token

-- The INSERT, which fails for a key that is taken.
unfoldable pub insert_share :
    Option String
    → ℕ
    → MonitorShareRecord
    → List MonitorShareRecord
    → List MonitorShareRecord × Option ShareError
insert_share (some e) now rec t = (t, some (db_failed e))
insert_share none now rec t =
    if countb (is_taken rec) t == 0
    then (t ++ (inserted now rec ∷ []), none)
    else (t, some (db_failed "UNIQUE constraint failed"))

unfoldable pub create_monitor_share :
    Option String
    → ℕ
    → MonitorShareRecord
    → List MonitorShareRecord
    → List MonitorShareRecord × Option ShareError
unfolding insert_share
create_monitor_share db now rec t =
    if str_eq rec.id "" || str_eq rec.token ""
    then (t, some id_and_token_required)
    else if str_eq rec.account_id ""
    then (t, some account_required)
    else if str_eq rec.created_by ""
    then (t, some created_by_required)
    else insert_share db now rec t

abbrev pub scanned_share : MonitorShareRecord → MonitorShareRecord
scanned_share r = record r { account_id = normalize_account r.account_id }

unfoldable pub first_share :
    (MonitorShareRecord → Bool) → List MonitorShareRecord → Option MonitorShareRecord
first_share hit [] = none
first_share hit (r ∷ rs) = if hit r then some r else first_share hit rs

-- `token=? AND revoked=FALSE AND (expire_at IS NULL OR expire_at>?)`
abbrev pub is_valid_share : String → ℕ → MonitorShareRecord → Bool
is_valid_share token now r =
    str_eq r.token token && (not r.revoked && (r.expire_at == 0 || ltb now r.expire_at))

abbrev pub share_found : Option MonitorShareRecord → ShareError ⊎ Option MonitorShareRecord
share_found none = inr none
share_found (some r) = inr (some (scanned_share r))

-- A link that is unknown, revoked or expired is no error: there is none.
unfoldable pub get_monitor_share_by_token :
    Option String → ℕ → String → List MonitorShareRecord → ShareError ⊎ Option MonitorShareRecord
unfolding first_share
get_monitor_share_by_token db now token t =
    if str_eq token "" then inl token_required else elim db [
      | some e ↦ inl (db_failed e)
      | none ↦ share_found (first_share (is_valid_share token now) t)
    ]

abbrev pub has_id : String → MonitorShareRecord → Bool
has_id id r = str_eq r.id id

abbrev pub share_of_id : Option MonitorShareRecord → ShareError ⊎ MonitorShareRecord
share_of_id none = inl not_found
share_of_id (some r) = inr (scanned_share r)

unfoldable pub get_monitor_share_by_id :
    Option String → String → List MonitorShareRecord → ShareError ⊎ MonitorShareRecord
unfolding first_share
get_monitor_share_by_id db id t =
    if str_eq id ""
    then inl id_required
    else elim db [ some e ↦ inl (db_failed e) | none ↦ share_of_id (first_share (has_id id) t) ]

pub record QueryMonitorSharesParams : Type 0 where
  pub account_id : String
  pub include_revoked : Bool
  pub limit : ℤ
  pub offset : ℤ

abbrev pub is_queried : QueryMonitorSharesParams → MonitorShareRecord → Bool
is_queried q r =
    (str_eq q.account_id "" || str_eq r.account_id (normalize_account q.account_id))
    && (q.include_revoked || not r.revoked)

-- `ORDER BY created_at DESC`
unfoldable pub place_share : MonitorShareRecord → List MonitorShareRecord → List MonitorShareRecord
place_share r [] = r ∷ []
place_share r (r' ∷ rs) =
    let rest = place_share r rs in if ltb r.created_at r'.created_at then r' ∷ rest else r ∷ r' ∷ rs

unfoldable pub newest_first : List MonitorShareRecord → List MonitorShareRecord
unfolding place_share
newest_first [] = []
newest_first (r ∷ rs) = place_share r (newest_first rs)

abbrev pub first_of : ℕ → List MonitorShareRecord → List MonitorShareRecord
first_of zero rs = []
first_of (suc n) [] = []
first_of (suc n) (r ∷ rs) = r ∷ first_of n rs

abbrev pub without_first : ℕ → List MonitorShareRecord → List MonitorShareRecord
without_first zero rs = rs
without_first (suc n) [] = []
without_first (suc n) (r ∷ rs) = without_first n rs

-- LIMIT and OFFSET, each only if it is positive.
abbrev pub skipped_by : ℤ → List MonitorShareRecord → List MonitorShareRecord
skipped_by (pos n) rs = without_first n rs
skipped_by (negsuc n) rs = rs

abbrev pub limited_to : ℤ → List MonitorShareRecord → List MonitorShareRecord
limited_to (pos zero) rs = rs
limited_to (pos (suc n)) rs = first_of (suc n) rs
limited_to (negsuc n) rs = rs

unfoldable pub list_monitor_shares :
    Option String
    → QueryMonitorSharesParams
    → List MonitorShareRecord
    → ShareError ⊎ List MonitorShareRecord
unfolding newest_first
list_monitor_shares (some e) q t = inl (db_failed e)
list_monitor_shares none q t = inr (
    map scanned_share
      (limited_to q.limit (skipped_by q.offset (newest_first (filterb (is_queried q) t)))))

-- `IFNULL(revoked_at, ?)`: the first time of a revocation stays.
abbrev pub first_time : ℕ → Option ℕ → ℕ
first_time now none = now
first_time now (some t) = t

unfoldable pub revoke_rows : ℕ → String → List MonitorShareRecord → List MonitorShareRecord
revoke_rows now id [] = []
revoke_rows now id (r ∷ rs) =
    (if str_eq r.id id
      then record r { revoked = true; revoked_at = some (first_time now r.revoked_at) }
      else r)
    ∷ revoke_rows now id rs

unfoldable pub revoke_monitor_share :
    Option String
    → ℕ
    → String
    → List MonitorShareRecord
    → List MonitorShareRecord × Option ShareError
unfolding revoke_rows
revoke_monitor_share db now id t = if str_eq id "" then (t, some id_required) else elim db [
  | some e ↦ (t, some (db_failed e))
  | none ↦ if countb (has_id id) t == 0 then (t, some not_found) else (revoke_rows now id t, none)
]

unfoldable pub delete_monitor_share :
    Option String → String → List MonitorShareRecord → List MonitorShareRecord × Option ShareError
delete_monitor_share db id t = if str_eq id "" then (t, some id_required) else elim db [
  | some e ↦ (t, some (db_failed e))
  | none ↦
      if countb (has_id id) t == 0
      then (t, some not_found)
      else (filterb (λ r. not (has_id id r)) t, none)
]
