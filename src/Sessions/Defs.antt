-- ===== src/Sessions/Defs.antt =====
-- internal/proxy/session.go. A nil manager is `none`; instants and durations are nanoseconds, and the
-- token that `randomToken` makes is an argument.
use qcc_plus.Prelude.{
  ℕ, ◌+◌, ◌*◌, ℤ, pos, pos_part, leb_ℤ, second, String, Bool, true, false, Option, none, some, List,
  [], str_eq, ltb, if◌then◌else◌, lookup, insert, erase,
}

pub record Session : Type 0 where
  pub token : String
  pub account_id : String
  pub is_admin : Bool
  pub created_at : ℕ
  pub expires_at : ℕ

pub record SessionManager : Type 0 where
  pub sessions : List (String × Session)
  pub ttl : ℕ

-- A time to live that is not positive becomes 24 hours.
unfoldable pub new_session_manager : ℤ → SessionManager
new_session_manager ttl = record {
  sessions = [];
  ttl = if leb_ℤ ttl (pos 0) then 86_400 * second else pos_part ttl;
}

abbrev pub new_session : String → String → Bool → ℕ → ℕ → Session
new_session token account_id is_admin ttl now = record {
  token = token;
  account_id = account_id;
  is_admin = is_admin;
  created_at = now;
  expires_at = now + ttl;
}

unfoldable pub create :
    String → String → Bool → ℕ → Option SessionManager → Option SessionManager × Option Session
create token account_id is_admin now none = (none, none)
create token account_id is_admin now (some m) =
    let s = new_session token account_id is_admin m.ttl now in
    (some (record m { sessions = insert token s m.sessions }), some s)

unfoldable pub get_session :
    String → ℕ → Option SessionManager → Option SessionManager × Option Session
get_session token now none = (none, none)
get_session token now (some m) =
    if str_eq token "" then (some m, none) else elim (lookup token m.sessions) [
      | none ↦ (some m, none)
      | some s ↦
          if ltb s.expires_at now
          then (some (record m { sessions = erase token m.sessions }), none)
          else (some m, some s)
    ]

unfoldable pub delete_session : String → Option SessionManager → Option SessionManager
delete_session token none = none
delete_session token (some m) =
    if str_eq token "" then some m else some (record m { sessions = erase token m.sessions })

unfoldable pub validate : String → ℕ → Option SessionManager → Option SessionManager × Bool
unfolding get_session
validate token now m =
    let (m', s) = get_session token now m in (m', elim s [ none ↦ false | some _ ↦ true ])
