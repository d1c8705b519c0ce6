-- ===== src/Shares/Revoked.antt =====
-- Which links a lookup finds: internal/store/monitor_share.go.
use qcc_plus.Prelude.{
  ℕ, ◌==◌, ◌≡◌, ◌≢◌, ◌<◌, ◌⊎◌, refl, subst, ap, inl, inr, String, Bool, true, false, not, Option,
  none, some, List, [], ◌∷◌, All, arith, str_eq, countb, filterb, if◌then◌else◌, eq_iff,
}
use qcc_plus.Shares.Defs.{
  MonitorShareRecord, ShareError, id_required, token_required, not_found, db_failed, is_valid_share,
  scanned_share, share_found, first_share, get_monitor_share_by_token, has_id, revoke_rows,
  revoke_monitor_share, delete_monitor_share,
}

-- No row with the id is still open.
abbrev Closed : String → MonitorShareRecord → Type 0
Closed id r = (str_eq r.id id ≡ true) → r.revoked ≡ true

revoke_rows-Closed :
    (now : ℕ) (id : String) (t : List MonitorShareRecord) → All (Closed id) (revoke_rows now id t)
unfolding revoke_rows
revoke_rows-Closed now id [] = tt
revoke_rows-Closed now id (r ∷ rs) = (λ same. ground arith, revoke_rows-Closed now id rs)

removed_rows-Closed :
    (id : String) (t : List MonitorShareRecord)
    → All (Closed id) (filterb (λ r. not (has_id id r)) t)
removed_rows-Closed id [] = tt
removed_rows-Closed id (r ∷ rs) = by_id (has_id id r) refl (removed_rows-Closed id rs)
  where
    by_id :
        (b : Bool)
        → has_id id r ≡ b
        → All (Closed id) (filterb (λ r. not (has_id id r)) rs)
        → All (Closed id) (
            if not b
            then r ∷ filterb (λ r. not (has_id id r)) rs
            else filterb (λ r. not (has_id id r)) rs)
    by_id true was rest = rest
    by_id false was rest = (λ same. absurd (cc (same, was)), rest)

bool_clash : false ≡ true → ⊥
bool_clash h = cc

-- What is found is valid, and not a closed one.
first_share-valid :
    (token id : String) (now : ℕ) (t : List MonitorShareRecord) (r : MonitorShareRecord)
    → All (Closed id) t
    → first_share (is_valid_share token now) t ≡ some r
    → (is_valid_share token now r ≡ true) × (str_eq r.id id ≡ false)
unfolding first_share
first_share-valid token id now [] r closed found = absurd cc
first_share-valid token id now (q ∷ qs) r closed found =
    by_hit (is_valid_share token now q) refl found (first_share-valid token id now qs r closed.1)
  where
    open_id : (b : Bool) → is_valid_share token now q ≡ true → str_eq q.id id ≡ b → b ≡ false
    open_id true valid same =
        let shut = closed.0 same in absurd (bool_clash (ground (arith, shut, valid)))
    open_id false valid differ = refl

    by_hit :
        (b : Bool)
        → is_valid_share token now q ≡ b
        → (if b then some q else first_share (is_valid_share token now) qs) ≡ some r
        → (first_share (is_valid_share token now) qs ≡ some r
            → (is_valid_share token now r ≡ true) × (str_eq r.id id ≡ false))
        → (is_valid_share token now r ≡ true) × (str_eq r.id id ≡ false)
    by_hit true valid here rest =
        let same : q ≡ r = cc here in
        subst
          (λ (x : MonitorShareRecord).
            (is_valid_share token now x ≡ true) × (str_eq x.id id ≡ false))
          same (valid, open_id (str_eq q.id id) valid refl)
    by_hit false invalid later rest = rest later

past_lookup :
    {A : Type 0} (b : Bool) (e : ShareError) (rest : ShareError ⊎ A) (x : A)
    → (if b then inl e else rest) ≡ inr x
    → rest ≡ inr x
past_lookup true e rest x h = absurd cc
past_lookup false e rest x h = h

past_write :
    (b : Bool) (e : ShareError) (t t' : List MonitorShareRecord)
    (rest : List MonitorShareRecord × Option ShareError)
    → (if b then (t, some e) else rest) ≡ (t', none)
    → rest ≡ (t', none)
past_write true e t t' rest h = absurd cc
past_write false e t t' rest h = h

share_found-some :
    (o : Option MonitorShareRecord) (r : MonitorShareRecord)
    → share_found o ≡ inr (some r)
    → (q : MonitorShareRecord) × (o ≡ some q) × (scanned_share q ≡ r)
share_found-some none r h = absurd cc
share_found-some (some q) r h = (q, refl, cc h)

-- What a valid row says, also after it is read.
valid_row :
    (token id : String) (now : ℕ) (q r : MonitorShareRecord)
    → scanned_share q ≡ r
    → is_valid_share token now q ≡ true
    → str_eq q.id id ≡ false
    → (r.token ≡ token) × (r.id ≢ id) × (r.expire_at ≢ 0 → now < r.expire_at)
valid_row token id now q r read valid differ =
    subst
      (λ (x : MonitorShareRecord).
        (x.token ≡ token) × (x.id ≢ id) × (x.expire_at ≢ 0 → now < x.expire_at))
      read
      (
        ground (arith, eq_iff q.token token, valid),
        λ same. ground (arith, eq_iff q.id id, same, differ),
        λ set. ground (arith, valid, set),
      )

-- A link that a lookup by its token finds.
found-valid :
    (db : Option String) (token id : String) (now : ℕ) (t : List MonitorShareRecord)
    (r : MonitorShareRecord)
    → All (Closed id) t
    → get_monitor_share_by_token db now token t ≡ inr (some r)
    → (r.token ≡ token) × (r.id ≢ id) × (r.expire_at ≢ 0 → now < r.expire_at)
unfolding get_monitor_share_by_token
found-valid (some e) token id now t r closed found =
    absurd (cc (past_lookup (str_eq token "") token_required (inl (db_failed e)) (some r) found))
found-valid none token id now t r closed found =
    let o = first_share (is_valid_share token now) t in
    let (q, there, read) =
      share_found-some o r
        (past_lookup (str_eq token "") token_required (share_found o) (some r) found) in
    let (valid, differ) = first_share-valid token id now t q closed there in
    valid_row token id now q r read valid differ

-- Once a link is revoked or deleted, no lookup by any token and at any time finds a link with its id;
-- and what a lookup finds has the token that was asked for and, if it expires at all, has not yet.
pub get_monitor_share_by_token-revoked :
    (db : Option String) (now now' : ℕ) (id token : String) (t t' : List MonitorShareRecord)
    (r : MonitorShareRecord)
    → (revoke_monitor_share none now id t ≡ (t', none))
      ⊎ (delete_monitor_share none id t ≡ (t', none))
    → get_monitor_share_by_token db now' token t' ≡ inr (some r)
    → (r.token ≡ token) × (r.id ≢ id) × (r.expire_at ≢ 0 → now' < r.expire_at)
unfolding revoke_monitor_share delete_monitor_share
get_monitor_share_by_token-revoked db now now' id token t t' r (inl revoked) found =
    let rows : List MonitorShareRecord × Option ShareError = (revoke_rows now id t, none) in
    let missing : List MonitorShareRecord × Option ShareError =
      if countb (has_id id) t == 0 then (t, some not_found) else rows in
    let changed =
      past_write (countb (has_id id) t == 0) not_found t t' rows
        (past_write (str_eq id "") id_required t t' missing revoked) in
    found-valid db token id now' t' r
      (subst (λ (q : List MonitorShareRecord). All (Closed id) q) (ap (λ x. x.0) changed)
        (revoke_rows-Closed now id t))
      found
get_monitor_share_by_token-revoked db now now' id token t t' r (inr deleted) found =
    let rows : List MonitorShareRecord × Option ShareError =
      (filterb (λ q. not (has_id id q)) t, none) in
    let missing : List MonitorShareRecord × Option ShareError =
      if countb (has_id id) t == 0 then (t, some not_found) else rows in
    let changed =
      past_write (countb (has_id id) t == 0) not_found t t' rows
        (past_write (str_eq id "") id_required t t' missing deleted) in
    found-valid db token id now' t' r
      (subst (λ (q : List MonitorShareRecord). All (Closed id) q) (ap (λ x. x.0) changed)
        (removed_rows-Closed id t))
      found
