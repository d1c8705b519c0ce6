-- ===== src/Notify/Spacing.antt =====
-- How far apart notifications under one key are: internal/notify/manager.go.
use qcc_plus.Prelude.{
  ℕ, ◌+◌, ◌≤◌, ◌≡◌, refl, ◌∙◌, ap, pos, String, Bool, true, false, some, List, [], ◌∷◌, arith,
  lookup, insert, lookup-insert, lookup-insert_self, str_eq, if◌then◌else◌, eq_iff,
}
use qcc_plus.Notify.Defs.{Manager, is_due, should_send}

-- The requests to send, in order, that are let through: each with its key and its time.
unfoldable pub let_through : List (String × ℕ) → Manager → List (String × ℕ)
unfolding should_send
let_through [] m = []
let_through ((key, now) ∷ asked) m =
    let rest = let_through asked (should_send key now m).0 in
    if (should_send key now m).1 then (key, now) ∷ rest else rest

-- Nothing under a key before a time.
abbrev pub NotBefore : String → ℕ → List (String × ℕ) → Type 0
NotBefore key t [] = Unit
NotBefore key t ((k, now) ∷ sent) = (k ≡ key → t ≤ now) × NotBefore key t sent

-- Each is at least the window before all later ones under its key.
abbrev pub Spaced : ℕ → List (String × ℕ) → Type 0
Spaced window [] = Unit
Spaced window ((key, now) ∷ sent) = NotBefore key (now + window) sent × Spaced window sent

should_send-window :
    (key : String) (now : ℕ) (m : Manager)
    → (should_send key now m).0.cfg.dedup_window ≡ m.cfg.dedup_window
unfolding should_send
should_send-window key now m = ground arith

NotBefore-weaken :
    (key : String) (t t' : ℕ) (sent : List (String × ℕ))
    → t' ≤ t
    → NotBefore key t sent
    → NotBefore key t' sent
NotBefore-weaken key t t' [] less h = tt
NotBefore-weaken key t t' ((k, now) ∷ sent) less h =
    (λ same. omega (arith, less, h.0 same), NotBefore-weaken key t t' sent less h.1)

NotBefore-let_through :
    (window : ℕ) (key : String) (last : ℕ) (asked : List (String × ℕ)) (m : Manager)
    → m.cfg.dedup_window ≡ pos window
    → lookup key m.last_notify ≡ some last
    → NotBefore key (last + window) (let_through asked m)
unfolding let_through should_send
NotBefore-let_through window key last [] m wide there = tt
NotBefore-let_through window key last ((k, now) ∷ asked) m wide there =
    by_due (is_due m.cfg.dedup_window now (lookup k m.last_notify)) refl
      (NotBefore-let_through window key last asked m wide there)
      (λ t' e. NotBefore-let_through window key t' asked noted wide e)
  where
    noted : Manager
    noted = record m { last_notify = insert k now m.last_notify }

    lookup_noted :
        lookup key noted.last_notify ≡ (if str_eq k key then some now else lookup key m.last_notify)
    lookup_noted = lookup-insert k key now m.last_notify

    apart :
        is_due m.cfg.dedup_window now (lookup k m.last_notify) ≡ true
        → k ≡ key
        → last + window ≤ now
    apart due same =
        let e : lookup k m.last_notify ≡ some last =
          ap (λ (j : String). lookup j m.last_notify) same ∙ there in
        let due' : is_due (pos window) now (some last) ≡ true = cc (wide, e, due) in
        ground (arith, due')

    behind :
        is_due m.cfg.dedup_window now (lookup k m.last_notify) ≡ true
        → ((t' : ℕ)
            → lookup key noted.last_notify ≡ some t'
            → NotBefore key (t' + window) (let_through asked noted))
        → (b : Bool) → str_eq k key ≡ b
        → NotBefore key (last + window) (let_through asked noted)
    behind due later true same =
        let less = apart due ((eq_iff k key).0 same) in
        NotBefore-weaken key (now + window) (last + window) (let_through asked noted)
          (omega (arith, less)) (later now (lookup_noted ∙ cc same))
    behind due later false differ = later last (lookup_noted ∙ cc (differ, there))

    by_due :
        (b : Bool)
        → is_due m.cfg.dedup_window now (lookup k m.last_notify) ≡ b
        → NotBefore key (last + window) (let_through asked m)
        → ((t' : ℕ)
            → lookup key noted.last_notify ≡ some t'
            → NotBefore key (t' + window) (let_through asked noted))
        → NotBefore key (last + window) (
            let r : Manager × Bool = if b then (noted, true) else (m, false) in
            if r.1 then (k, now) ∷ let_through asked r.0 else let_through asked r.0)
    by_due false was rest later = rest
    by_due true due rest later = (apart due, behind due later (str_eq k key) refl)

-- In any sequence of requests to send, those under one key that are let through are at least the
-- window apart, whatever other keys do and whatever the clock says.
pub let_through-Spaced :
    (window : ℕ) (asked : List (String × ℕ)) (m : Manager)
    → m.cfg.dedup_window ≡ pos window
    → Spaced window (let_through asked m)
unfolding let_through should_send
let_through-Spaced window [] m wide = tt
let_through-Spaced window ((key, now) ∷ asked) m wide =
    by_due (is_due m.cfg.dedup_window now (lookup key m.last_notify))
      (let_through-Spaced window asked m wide) (let_through-Spaced window asked noted wide)
      (NotBefore-let_through window key now asked noted wide there)
  where
    noted : Manager
    noted = record m { last_notify = insert key now m.last_notify }

    there : lookup key noted.last_notify ≡ some now
    there = lookup-insert_self key now m.last_notify

    by_due :
        (b : Bool)
        → Spaced window (let_through asked m)
        → Spaced window (let_through asked noted)
        → NotBefore key (now + window) (let_through asked noted)
        → Spaced window (
            let r : Manager × Bool = if b then (noted, true) else (m, false) in
            if r.1 then (key, now) ∷ let_through asked r.0 else let_through asked r.0)
    by_due false kept spaced apart = kept
    by_due true kept spaced apart = (apart, spaced)
