-- ===== src/Settings/Batch.antt =====
-- A batch of settings against single writes: internal/store/mysql.go, `BatchUpdateSettings`.
use qcc_plus.Prelude.{
  ℕ, suc, ◌≡◌, refl, subst, pos, ltb_ℤ, inl, inr, ◌⊎◌, String, false, Option, none, some, List, [],
  ◌∷◌, arith, All, Bool-cases, str_eq, if◌then◌else◌,
}
use qcc_plus.Settings.Table.{
  Setting, Table, Library, Faults, StoreError, checked_update, checked_upsert, normalize_setting,
}
use qcc_plus.Settings.Store.{
  upsert_setting, update_setting, upsert_body, update_body, finish, batch_one, batch_loop,
  committed, in_transaction, batch_update_settings, refreshed,
}

-- A database that does not fail.
abbrev pub no_faults : Faults
no_faults = record {
  exec = λ i. none;
  exists = λ i. none;
  select = none;
  begin = none;
  commit = none;
}

module _ {V : Type 0} (lib : Library V) where
  -- The write of one setting outside a batch: an update if it has a version, else an upsert.
  unfoldable pub single : ℕ → Setting V → Table → Table × (StoreError ⊎ Setting V)
  single now s t =
      if ltb_ℤ (pos 0) s.version
      then update_setting lib no_faults now s t
      else upsert_setting lib no_faults now s t

  -- Single writes one after the other, each of which succeeds.
  pub data Singles (now : ℕ) : List (Setting V) → Table → Table → Type 0 where
    done : (t : Table) → Singles now [] t t
    next :
        (s u : Setting V) (ss : List (Setting V)) (t t' t'' : Table)
        → single now s t ≡ (t', inr u)
        → Singles now ss t' t''
        → Singles now (s ∷ ss) t t''

  update_body-quiet :
      (db : Faults) (i now : ℕ) (o : Option String) (s : Setting V) (t t' : Table)
      → update_body db i now o s t ≡ inr t'
      → update_body no_faults 0 now o s t ≡ inr t'
  unfolding update_body checked_update
  update_body-quiet db i now none s t t' h = absurd cc
  update_body-quiet db i now (some body) s t t' h = by_exec (db.exec i) h
    where
      by_exec :
          (o : Option String)
          → checked_update o (db.exists i) now body s t ≡ inr t'
          → checked_update none none now body s t ≡ inr t'
      by_exec (some e) h = absurd cc
      by_exec none h = ground arith

  upsert_body-quiet :
      (db : Faults) (i now : ℕ) (o : Option String) (s : Setting V) (t t' : Table)
      → upsert_body db i now o s t ≡ inr t'
      → upsert_body no_faults 0 now o s t ≡ inr t'
  unfolding upsert_body checked_upsert
  upsert_body-quiet db i now none s t t' h = absurd cc
  upsert_body-quiet db i now (some body) s t t' h = by_exec (db.exec i) h
    where
      by_exec :
          (o : Option String)
          → checked_upsert o now body s t ≡ inr t'
          → checked_upsert none now body s t ≡ inr t'
      by_exec (some e) h = absurd cc
      by_exec none h = h

  finish-inr :
      (s : Setting V) (t t' : Table) (o : StoreError ⊎ Table)
      → o ≡ inr t'
      → (u : Setting V) × (finish lib no_faults s t o ≡ (t', inr u))
  unfolding finish
  finish-inr s t t' (inl e) h = absurd cc
  finish-inr s t t' (inr t'') h = (refreshed lib no_faults s t'', cc h)

  batch_one-single :
      (db : Faults) (i now : ℕ) (s : Setting V) (t t' : Table)
      → str_eq s.key "" ≡ false
      → batch_one lib db i now s t ≡ inr t'
      → (u : Setting V) × (single now s t ≡ (t', inr u))
  unfolding batch_one single update_setting upsert_setting normalize_setting
  batch_one-single db i now s t t' named h = elim (Bool-cases (ltb_ℤ (pos 0) s.version)) [
    | inl yes_version ↦
        let s' = normalize_setting lib s in
        let (u, ended) =
          finish-inr s' t t' (update_body no_faults 0 now (lib.marshal s.value) s' t)
            (update_body-quiet db i now (lib.marshal s.value) s' t t' (ground arith)) in
        (u, ground (arith, ended))
    | inr no_version ↦
        let s' = normalize_setting lib s in
        let (u, ended) =
          finish-inr s' t t' (upsert_body no_faults 0 now (lib.marshal s.value) s' t)
            (upsert_body-quiet db i now (lib.marshal s.value) s' t t' (ground arith)) in
        (u, ground (arith, ended))
  ]

  batch_loop-Singles :
      (db : Faults) (i now : ℕ) (ss : List (Setting V)) (t t' : Table)
      → All (λ (s : Setting V). str_eq s.key "" ≡ false) ss
      → batch_loop lib db i now ss t ≡ inr t'
      → Singles now ss t t'
  unfolding batch_loop
  batch_loop-Singles db i now [] t t' named h = subst (λ q. Singles now [] t q) (cc h) (done t)
  batch_loop-Singles db i now (s ∷ ss) t t' named h =
      by_first (batch_one lib db i now s t) refl h
        (λ q. batch_loop-Singles db (suc i) now ss q t' named.1)
    where
      by_first :
          (o : StoreError ⊎ Table)
          → batch_one lib db i now s t ≡ o
          → (elim o [ inl e ↦ inl e | inr q ↦ batch_loop lib db (suc i) now ss q ]) ≡ inr t'
          → ((q : Table) → batch_loop lib db (suc i) now ss q ≡ inr t' → Singles now ss q t')
          → Singles now (s ∷ ss) t t'
      by_first (inl e) was h rest = absurd cc
      by_first (inr q) was h rest =
          let (u, wrote) = batch_one-single db i now s t q named.0 was in
          next s u ss t q t' wrote (rest q h)

  -- What a batch has done, by its result: all its writes, as single writes one after the other, or none.
  abbrev pub AllOrNone : ℕ → List (Setting V) → Table → Table → Option StoreError → Type 0
  AllOrNone now ss t t' none = Singles now ss t t'
  AllOrNone now ss t t' (some e) = t' ≡ t

  committed-AllOrNone :
      (commit : Option String) (now : ℕ) (ss : List (Setting V)) (t : Table)
      (o : StoreError ⊎ Table)
      → ((t' : Table) → o ≡ inr t' → Singles now ss t t')
      → AllOrNone now ss t (committed commit t o).0 (committed commit t o).1
  unfolding committed
  committed-AllOrNone commit now ss t (inl e) each = refl
  committed-AllOrNone (some e) now ss t (inr t') each = refl
  committed-AllOrNone none now ss t (inr t') each = each t' refl

  in_transaction-AllOrNone :
      (db : Faults) (begin : Option String) (now : ℕ) (ss : List (Setting V)) (t : Table)
      → All (λ (s : Setting V). str_eq s.key "" ≡ false) ss
      → AllOrNone now ss t
          (in_transaction lib db now begin ss t).0
          (in_transaction lib db now begin ss t).1
  unfolding in_transaction
  in_transaction-AllOrNone db (some e) now ss t named = refl
  in_transaction-AllOrNone db none now ss t named =
      committed-AllOrNone db.commit now ss t (batch_loop lib db 0 now ss t)
        (λ t'. batch_loop-Singles db 0 now ss t t' named)

  -- A batch whose settings have keys either succeeds, and then the table is the one that single writes
  -- lead to, an update for each setting with a version and an upsert for each other one, all of which
  -- succeed; or it fails and leaves the table as it was, whichever statement failed.
  pub batch_update_settings-AllOrNone :
      (db : Faults) (now : ℕ) (ss : List (Setting V)) (t : Table)
      → All (λ (s : Setting V). str_eq s.key "" ≡ false) ss
      → AllOrNone now ss t
          (batch_update_settings lib db now ss t).0
          (batch_update_settings lib db now ss t).1
  unfolding batch_update_settings
  batch_update_settings-AllOrNone db now [] t named = done t
  batch_update_settings-AllOrNone db now (s ∷ ss) t named =
      in_transaction-AllOrNone db db.begin now (s ∷ ss) t named
