-- ===== src/Settings/Rows.antt =====
-- What an UPDATE does to the rows that a query counts and finds: internal/store/mysql.go.
use qcc_plus.Prelude.{
  ◌≤◌, ◌≡◌, refl, String, Bool, true, false, not, none, some, List, [], ◌∷◌, ◌++◌, arith, countb,
  filterb, if◌then◌else◌,
}
use qcc_plus.Settings.Table.{Setting, first_row, update_where}

abbrev pub Row : Type 0
Row = Setting String

pub countb-update_none :
    (p hit : Row → Bool) (f : Row → Row) (rs : List Row)
    → ((r : Row) → p (if hit r then f r else r) ≡ false)
    → countb p (update_where hit f rs) ≡ 0
unfolding update_where
countb-update_none p hit f [] miss = refl
countb-update_none p hit f (r ∷ rs) miss =
    ground (arith, miss r, countb-update_none p hit f rs miss)

pub countb-update_same :
    (p hit : Row → Bool) (f : Row → Row) (rs : List Row)
    → ((r : Row) → p (f r) ≡ p r)
    → countb p (update_where hit f rs) ≡ countb p rs
unfolding update_where
countb-update_same p hit f [] same = refl
countb-update_same p hit f (r ∷ rs) same =
    ground (arith, same r, countb-update_same p hit f rs same)

pub countb_mono :
    (p q : Row → Bool) (rs : List Row)
    → ((r : Row) → p r ≡ true → q r ≡ true)
    → countb p rs ≤ countb q rs
countb_mono p q [] more = omega arith
countb_mono p q (r ∷ rs) more = ground (arith, more r, countb_mono p q rs more)

-- A query that no changed row meets, neither before nor after.
pub filterb-update :
    (p hit : Row → Bool) (f : Row → Row) (rs : List Row)
    → ((r : Row) → hit r ≡ true → p r ≡ false)
    → ((r : Row) → p (f r) ≡ p r)
    → filterb p (update_where hit f rs) ≡ filterb p rs
unfolding update_where
filterb-update p hit f [] apart same = refl
filterb-update p hit f (r ∷ rs) apart same =
    ground (arith, apart r, same r, filterb-update p hit f rs apart same)

pub filterb-append :
    (p : Row → Bool) (rs : List Row) (r : Row)
    → p r ≡ false
    → filterb p (rs ++ (r ∷ [])) ≡ filterb p rs
filterb-append p [] r miss = ground arith
filterb-append p (r' ∷ rs) r miss = ground (arith, filterb-append p rs r miss)

-- What a deletion leaves of the rows that another query takes.
pub filterb-delete :
    (p hit : Row → Bool) (rs : List Row)
    → ((r : Row) → hit r ≡ true → p r ≡ false)
    → filterb p (filterb (λ r. not (hit r)) rs) ≡ filterb p rs
filterb-delete p hit [] apart = refl
filterb-delete p hit (r ∷ rs) apart = ground (arith, apart r, filterb-delete p hit rs apart)

pub first_row-update :
    (hit : Row → Bool) (f : Row → Row) (rs : List Row)
    → ((r : Row) → hit (f r) ≡ hit r)
    → first_row hit (update_where hit f rs)
      ≡ elim (first_row hit rs) [ none ↦ none | some r ↦ some (f r) ]
unfolding update_where first_row
first_row-update hit f [] same = refl
first_row-update hit f (r ∷ rs) same = ground (arith, same r, first_row-update hit f rs same)

pub first_row-append :
    (hit : Row → Bool) (rs : List Row) (r : Row)
    → hit r ≡ true
    → first_row hit (rs ++ (r ∷ [])) ≡ elim (first_row hit rs) [ none ↦ some r | some r' ↦ some r' ]
unfolding first_row
first_row-append hit [] r hits = ground arith
first_row-append hit (r' ∷ rs) r hits = ground (arith, first_row-append hit rs r hits)

pub first_row-none :
    (hit : Row → Bool) (rs : List Row) → countb hit rs ≡ 0 → first_row hit rs ≡ none
unfolding first_row
first_row-none hit [] miss = refl
first_row-none hit (r ∷ rs) miss = ground (arith, first_row-none hit rs)

pub first_row-same :
    (p q : Row → Bool) (rs : List Row) → ((r : Row) → p r ≡ q r) → first_row p rs ≡ first_row q rs
unfolding first_row
first_row-same p q [] same = refl
first_row-same p q (r ∷ rs) same = ground (arith, same r, first_row-same p q rs same)

pub countb-first_row-none :
    (hit : Row → Bool) (rs : List Row) → first_row hit rs ≡ none → countb hit rs ≡ 0
unfolding first_row
countb-first_row-none hit [] none_found = refl
countb-first_row-none hit (r ∷ rs) none_found = ground (arith, countb-first_row-none hit rs)

pub countb-same :
    (p q : Row → Bool) (rs : List Row) → ((r : Row) → p r ≡ q r) → countb p rs ≡ countb q rs
countb-same p q [] same = refl
countb-same p q (r ∷ rs) same = ground (arith, same r, countb-same p q rs same)

pub update_where-same :
    (p q : Row → Bool) (f : Row → Row) (rs : List Row)
    → ((r : Row) → p r ≡ q r)
    → update_where p f rs ≡ update_where q f rs
unfolding update_where
update_where-same p q f [] same = refl
update_where-same p q f (r ∷ rs) same = ground (arith, same r, update_where-same p q f rs same)
