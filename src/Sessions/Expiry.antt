-- ===== src/Sessions/Expiry.antt =====
-- How long a session lives: internal/proxy/session.go.
use qcc_plus.Prelude.{
  ℕ, ◌+◌, ◌≡◌, ◌≢◌, ◌<◌, String, Bool, false, none, some, arith, leb, if◌then◌else◌, lookup,
  lookup-insert, lookup-insert_self, lookup-erase_self, eq_iff,
}
use qcc_plus.Sessions.Defs.{
  Session, SessionManager, new_session, create, get_session, delete_session, validate,
}

-- A session that is created with a token that is not empty is found under it up to its time to live
-- and not later; a token other than it finds afterwards what it found before.
pub get_session-create :
    (token other account_id : String) (is_admin : Bool) (t now : ℕ) (m : SessionManager)
    → token ≢ ""
    → token ≢ other
    → let m' = (create token account_id is_admin t (some m)).0 in
      ((get_session token now m').1 ≡ (
        if leb now (t + m.ttl) then some (new_session token account_id is_admin m.ttl t) else none))
      × ((get_session other now m').1 ≡ (get_session other now (some m)).1)
unfolding create get_session
get_session-create token other account_id is_admin t now m named differ =
    let s = new_session token account_id is_admin m.ttl t in
    let own = lookup-insert_self token s m.sessions in
    let others = lookup-insert token other s m.sessions in
    (ground (arith, eq_iff token ""), ground (arith, eq_iff token "", eq_iff token other))

-- A session that has expired is removed by the first lookup that meets it, and no later lookup finds
-- it, at whatever time; and a token that is deleted is not valid any more.
pub get_session-expired :
    (token : String) (now later : ℕ) (m : SessionManager) (s : Session)
    → lookup token m.sessions ≡ some s
    → s.expires_at < now
    → ((get_session token later (get_session token now (some m)).0).1 ≡ none)
      × ((validate token later (delete_session token (some m))).1 ≡ false)
unfolding get_session delete_session validate
get_session-expired token now later m s there late =
    let gone = lookup-erase_self token m.sessions in (ground arith, ground arith)
