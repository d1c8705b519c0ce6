-- ===== src/Transport/Usage.antt =====
-- `usageReader`: internal/proxy/reverse_proxy.go. It passes a body on and keeps the start of it for
-- `parseUsage`, which is a parameter.
use qcc_plus.Prelude.{
  ℕ, zero, suc, ◌-◌, ◌≤◌, ◌≡◌, refl, sym, ◌∙◌, ap, Bool, true, false, ◌||◌, ltb, Option, none, some,
  List, [], ◌∷◌, ◌++◌, arith, length, if◌then◌else◌,
}
use mathlib.Core.List.{append-nil, append_assoc}

abbrev pub take {ℓ} : {A : Type ℓ} → ℕ → List A → List A
take zero xs = []
take (suc n) [] = []
take (suc n) (x ∷ xs) = x ∷ take n xs

-- 256 KB.
abbrev pub usage_buf_limit : ℕ
usage_buf_limit = 262_144

-- The counts of a request, input and output.
pub record Usage : Type 0 where
  pub input : ℕ
  pub output : ℕ

pub record UsageReader : Type 0 where
  pub buf : List ℕ
  pub tracker : Option Usage

-- What `Read` keeps of the bytes that it read, up to a limit.
unfoldable pub keep : ℕ → List ℕ → List ℕ → List ℕ
keep limit buf chunk =
    if ltb (length buf) limit then buf ++ take (limit - length buf) chunk else buf

unfoldable pub read : List ℕ → UsageReader → UsageReader
unfolding keep
read chunk u = record u { buf = keep usage_buf_limit u.buf chunk }

abbrev pub tracked : ℕ × ℕ → Option Usage → Option Usage
tracked (i, o) none = none
tracked (i, o) (some t) =
    if ltb 0 i || ltb 0 o then some (record { input = i; output = o }) else some t

-- `Close`: what the kept bytes tell replaces the counts, unless they tell nothing.
unfoldable pub close : (List ℕ → ℕ × ℕ) → UsageReader → UsageReader
close parse_usage u = record u { tracker = tracked (parse_usage u.buf) u.tracker }

unfoldable pub read_all : List (List ℕ) → UsageReader → UsageReader
unfolding read
read_all [] u = u
read_all (chunk ∷ chunks) u = read_all chunks (read chunk u)

abbrev pub joined : List (List ℕ) → List ℕ
joined [] = []
joined (chunk ∷ chunks) = chunk ++ joined chunks

take-append :
    (n : ℕ) (xs ys : List ℕ) → take n (xs ++ ys) ≡ take n xs ++ take (n - length (take n xs)) ys
take-append zero xs ys = refl
take-append (suc n) [] ys = let whole : suc n ≡ suc n - 0 = omega arith in ap (λ k. take k ys) whole
take-append (suc n) (x ∷ xs) ys =
    let fewer : n - length (take n xs) ≡ suc n - suc (length (take n xs)) = omega arith in
    ap (λ (zs : List ℕ). x ∷ zs) (take-append n xs ys ∙ ap (λ k. take n xs ++ take k ys) fewer)

length-take : (n : ℕ) (xs : List ℕ) → length (take n xs) ≤ n
length-take zero xs = omega arith
length-take (suc n) [] = omega arith
length-take (suc n) (x ∷ xs) = omega (arith, length-take n xs)

-- To keep a chunk behind the start of a body keeps the start of the body with the chunk.
keep-take :
    (limit : ℕ) (body chunk : List ℕ)
    → keep limit (take limit body) chunk ≡ take limit (body ++ chunk)
unfolding keep
keep-take limit body chunk =
    by_room (ltb (length (take limit body)) limit) refl ∙ sym (take-append limit body chunk)
  where
    by_room :
        (b : Bool)
        → ltb (length (take limit body)) limit ≡ b
        → (if b
            then take limit body ++ take (limit - length (take limit body)) chunk
            else take limit body)
          ≡ take limit body ++ take (limit - length (take limit body)) chunk
    by_room true room = refl
    by_room false full =
        let none_left : 0 ≡ limit - length (take limit body) =
          ground (arith, length-take limit body, full) in
        sym (append-nil (take limit body)) ∙ ap (λ k. take limit body ++ take k chunk) none_left

read_all-take :
    (body : List ℕ) (chunks : List (List ℕ)) (u : UsageReader)
    → u.buf ≡ take usage_buf_limit body
    → (read_all chunks u).buf ≡ take usage_buf_limit (body ++ joined chunks)
unfolding read_all read
read_all-take body [] u start = start ∙ ap (take usage_buf_limit) (sym (append-nil body))
read_all-take body (chunk ∷ chunks) u start =
    read_all-take (body ++ chunk) chunks (read chunk u)
      (ap (λ b. keep usage_buf_limit b chunk) start ∙ keep-take usage_buf_limit body chunk)
    ∙ ap (take usage_buf_limit) (append_assoc body chunk (joined chunks))

read_all-tracker :
    (chunks : List (List ℕ)) (u : UsageReader) → (read_all chunks u).tracker ≡ u.tracker
unfolding read_all read
read_all-tracker [] u = refl
read_all-tracker (chunk ∷ chunks) u = read_all-tracker chunks (read chunk u)

-- Whatever the pieces in which a body is read, the counts of the request after it come from its first
-- 256 KB and nothing else, and stay as they were if these tell of no tokens.
pub read_all-close :
    (parse_usage : List ℕ → ℕ × ℕ) (chunks : List (List ℕ)) (u : UsageReader)
    → u.buf ≡ []
    → (close parse_usage (read_all chunks u)).tracker
      ≡ tracked (parse_usage (take usage_buf_limit (joined chunks))) u.tracker
unfolding close
read_all-close parse_usage chunks u empty =
    let kept = read_all-take [] chunks u empty in
    let same = read_all-tracker chunks u in
    ap (λ b. tracked (parse_usage b) (read_all chunks u).tracker) kept
    ∙ ap (tracked (parse_usage (take usage_buf_limit (joined chunks)))) same
