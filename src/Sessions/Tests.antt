-- ===== src/Sessions/Tests.antt =====
-- The theorems about sessions at concrete inputs.
use qcc_plus.Prelude.{
  ◌≡◌, ◌≢◌, ◌<◌, ◌+◌, refl, String, true, false, some, none, [], ◌∷◌, arith, leb, lookup, eq_iff,
  if◌then◌else◌,
}
use qcc_plus.Sessions.Defs.{
  Session, SessionManager, new_session, create, get_session, delete_session, validate,
}
use qcc_plus.Sessions.Expiry.{get_session-create, get_session-expired}

abbrev alice : Session
alice = new_session "t-1" "acc" true 100 0

abbrev manager : SessionManager
manager = record { sessions = ("t-1", alice) ∷ []; ttl = 100 }

named : ◌≢◌ {A = String} "t-2" ""
named = ground (arith, eq_iff "t-2" "")

differ : ◌≢◌ {A = String} "t-2" "t-1"
differ = ground (arith, eq_iff "t-2" "t-1")

get_session-create_example :
    ((get_session "t-2" 140 (create "t-2" "acc" false 50 (some manager)).0).1
      ≡ (if leb 140 (50 + 100) then some (new_session "t-2" "acc" false 100 50) else none))
    × ((get_session "t-1" 140 (create "t-2" "acc" false 50 (some manager)).0).1
        ≡ (get_session "t-1" 140 (some manager)).1)
get_session-create_example = get_session-create "t-2" "t-1" "acc" false 50 140 manager named differ

alice_there : lookup "t-1" manager.sessions ≡ some alice
unfolding lookup
alice_there = refl

late : 100 < 101
late = omega arith

get_session-expired_example :
    ((get_session "t-1" 50 (get_session "t-1" 101 (some manager)).0).1 ≡ none)
    × ((validate "t-1" 50 (delete_session "t-1" (some manager))).1 ≡ false)
get_session-expired_example = get_session-expired "t-1" 101 50 manager alice alice_there late
