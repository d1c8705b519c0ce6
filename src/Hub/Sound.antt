-- ===== src/Hub/Sound.antt =====
-- Which clients the hub lists and sends to: internal/proxy/ws_hub.go.
use mathlib.Core.Option
use qcc_plus.Prelude.{
  ◌≡◌, refl, sym, ◌∙◌, ap, subst, String, Bool, true, false, ◌||◌, ◌⊎◌, inl, inr, Bool-cases,
  Option, none, some, List, [], ◌∷◌, ◌++◌, arith, str_eq, if◌then◌else◌, lookup, insert,
  lookup-insert, contains, eq_iff, map-insert,
}
use qcc_plus.Hub.Defs.{WsClient, WsHub, clients_of, new_client}

abbrev pub listed : WsHub → String → String → Bool
listed h a c = contains c (clients_of (lookup a h.clients))

-- The account of a client and whether it is closed.
abbrev pub standing : WsClient → String × Bool
standing k = (k.account_id, k.closed)

abbrev pub standing_of : WsHub → String → Option (String × Bool)
standing_of h c = Option.map standing (lookup c h.pool)

-- No key stands twice.
abbrev pub Unrepeated : List String → Type 0
Unrepeated [] = Unit
Unrepeated (c ∷ cs) = (contains c cs ≡ false) × Unrepeated cs

-- A listed client is of the account it is listed under, is open and does not wait; a waiting client is
-- open, and waits once.
pub record IsSound (h : WsHub) : Type 0 where
  pub own : (a c : String) → listed h a c ≡ true → standing_of h c ≡ some (a, false)
  pub apart : (a c : String) → listed h a c ≡ true → contains c h.register ≡ false
  pub waiting :
      (c : String)
      → contains c h.register ≡ true
      → (a : String) × (standing_of h c ≡ some (a, false))
  pub once : Unrepeated h.register

-- Nothing of the lists and of the clients' standing changes.
pub record SameStanding (h h' : WsHub) : Type 0 where
  pub lists : h'.clients ≡ h.clients
  pub registers_kept : h'.register ≡ h.register
  pub standings : (c : String) → standing_of h' c ≡ standing_of h c

pub SameStanding-IsSound : (h h' : WsHub) → SameStanding h h' → IsSound h → IsSound h'
SameStanding-IsSound h h' same s = record {
  own = λ a c l. same.standings c ∙ s.own a c (before a c l);
  apart = λ a c l. ap (contains c) same.registers_kept ∙ s.apart a c (before a c l);
  waiting = λ c w.
      let (a, open_client) = s.waiting c (sym (ap (contains c) same.registers_kept) ∙ w) in
      (a, same.standings c ∙ open_client);
  once = subst Unrepeated (sym same.registers_kept) s.once;
}
  where
    before : (a c : String) → listed h' a c ≡ true → listed h a c ≡ true
    before a c l =
        sym (
          ap (λ (m : List (String × List String)). contains c (clients_of (lookup a m))) same.lists)
        ∙ l

-- A client that is written back with its account, open or closed as before.
pub written-SameStanding :
    (c : String) (k k' : WsClient) (h : WsHub)
    → lookup c h.pool ≡ some k
    → standing k' ≡ standing k
    → SameStanding h (record h { pool = insert c k' h.pool })
written-SameStanding c k k' h there same = record {
  lists = refl;
  registers_kept = refl;
  standings = λ j. map-insert standing c j k k' h.pool there same;
}

pub SameStanding-refl : (h : WsHub) → SameStanding h h
SameStanding-refl h = record { lists = refl; registers_kept = refl; standings = λ c. refl }

pub SameStanding-trans :
    (h h' h'' : WsHub) → SameStanding h h' → SameStanding h' h'' → SameStanding h h''
SameStanding-trans h h' h'' s s' = record {
  lists = s'.lists ∙ s.lists;
  registers_kept = s'.registers_kept ∙ s.registers_kept;
  standings = λ c. s'.standings c ∙ s.standings c;
}

contains-append_one :
    (j c : String) (cs : List String) → contains j (cs ++ (c ∷ [])) ≡ (contains j cs || str_eq c j)
unfolding contains
contains-append_one j c [] = ground arith
contains-append_one j c (d ∷ cs) = ground (arith, contains-append_one j c cs)

Unrepeated-append :
    (c : String) (cs : List String)
    → contains c cs ≡ false
    → Unrepeated cs
    → Unrepeated (cs ++ (c ∷ []))
unfolding contains
Unrepeated-append c [] out once = (refl, tt)
Unrepeated-append c (d ∷ cs) out once = (
  ground (arith, contains-append_one d c cs, once.0, eq_iff c d, eq_iff d c, out),
  Unrepeated-append c cs (ground (arith, out)) once.1,
)

pub standing-insert :
    (c j : String) (k : WsClient) (m : List (String × WsClient))
    → Option.map standing (lookup j (insert c k m))
      ≡ (if str_eq c j then some (standing k) else Option.map standing (lookup j m))
standing-insert c j k m = rw (lookup-insert c j k m) (ground arith)

standing_of-differs :
    (c j : String) (x : String × Bool) (h : WsHub)
    → lookup c h.pool ≡ none
    → standing_of h j ≡ some x
    → str_eq c j ≡ false
standing_of-differs c j x h fresh there = by_key (str_eq c j) refl
  where
    by_key : (b : Bool) → str_eq c j ≡ b → b ≡ false
    by_key true same =
        let gone : standing_of h j ≡ none =
          ap (standing_of h) (sym ((eq_iff c j).0 same)) ∙ ap (Option.map standing) fresh in
        absurd (cc (there, gone))
    by_key false differ = refl

pub connects-IsSound :
    (c account : String) (h : WsHub)
    → lookup c h.pool ≡ none
    → IsSound h
    → IsSound (record h {
      pool = insert c (new_client account) h.pool;
      register = h.register ++ (c ∷ []);
    })
connects-IsSound c account h fresh s = record {
  own = λ a j l. kept j (a, false) (s.own a j l);
  apart = λ a j l.
      let differ = standing_of-differs c j (a, false) h fresh (s.own a j l) in
      ground (arith, contains-append_one j c h.register, s.apart a j l, differ);
  waiting = λ j w. in_line j w (Bool-cases (str_eq c j));
  once = Unrepeated-append c h.register (not_waiting (contains c h.register) refl) s.once;
}
  where
    kept :
        (j : String) (x : String × Bool)
        → standing_of h j ≡ some x
        → Option.map standing (lookup j (insert c (new_client account) h.pool)) ≡ some x
    kept j x there = ground (
      arith,
      standing-insert c j (new_client account) h.pool,
      standing_of-differs c j x h fresh there,
      there,
    )

    not_waiting : (b : Bool) → contains c h.register ≡ b → b ≡ false
    not_waiting true w =
        let (a, there) = s.waiting c w in absurd (cc (there, ap (Option.map standing) fresh))
    not_waiting false w = refl

    in_line :
        (j : String)
        → contains j (h.register ++ (c ∷ [])) ≡ true
        → (str_eq c j ≡ true) ⊎ (str_eq c j ≡ false)
        → (a : String) × (Option.map standing (lookup j (insert c (new_client account) h.pool))
            ≡ some (a, false))
    in_line j w (inl same) =
        (account, ground (arith, standing-insert c j (new_client account) h.pool, same))
    in_line j w (inr differ) =
        let waited : contains j h.register ≡ true =
          ground (arith, contains-append_one j c h.register, w, differ) in
        let (a, there) = s.waiting j waited in (a, kept j (a, false) there)
