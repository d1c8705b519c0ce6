-- ===== src/Select/Best.antt =====
-- The node that the loops of node_manager.go pick: a best one, and whatever the order of the map.
use qcc_plus.Prelude.{
  ◌≡◌, refl, ◌⊎◌, inl, inr, String, Bool, true, false, Option, none, some, List, [], ◌∷◌, arith,
  Bool-cases,
}
use qcc_plus.Server.Defs.{Node}
use qcc_plus.Select.Pick.{precedes, is_lighter, pick}

abbrev pub Entry : Type 0
Entry = String × Node

abbrev pub Among : Entry → List Entry → Type 0
Among e [] = ⊥
Among e (f ∷ fs) = (e ≡ f) ⊎ Among e fs

-- What the loops need of their test: a strict order in which two entries may stand level.
pub record IsRanking (before : Node → Node → Bool) : Type 0 where
  pub asym : (n m : Node) → before n m ≡ true → before m n ≡ false
  pub negtrans : (n m k : Node) → before n m ≡ false → before m k ≡ false → before n k ≡ false

pub precedes-IsRanking : IsRanking precedes
unfolding precedes
precedes-IsRanking = record { asym = λ n m h. ground arith; negtrans = λ n m k h g. ground arith }

pub is_lighter-IsRanking : IsRanking is_lighter
unfolding is_lighter
is_lighter-IsRanking = record { asym = λ n m h. ground arith; negtrans = λ n m k h g. ground arith }

module _ (before : Node → Node → Bool) (skipped : Entry → Bool) where
  -- Nothing in the list that may be taken comes before `e`.
  abbrev pub NoneBefore : List Entry → Entry → Type 0
  NoneBefore es e = (f : Entry) → Among f es → skipped f ≡ false → before f.1 e.1 ≡ false

  -- A member that may be taken, and the best of those.
  pub record IsBest (es : List Entry) (e : Entry) : Type 0 where
    pub member : Among e es
    pub free : skipped e ≡ false
    pub least : NoneBefore es e

  -- The verdict of a loop over the whole list.
  pub data Verdict (es : List Entry) : Option Entry → Type 0 where
    nothing : ((e : Entry) → Among e es → skipped e ≡ true) → Verdict es none
    found : (e : Entry) → IsBest es e → Verdict es (some e)

  -- A first entry that is skipped changes nothing.
  skip_first :
      (e : Entry) (es : List Entry)
      → skipped e ≡ true
      → (o : Option Entry) → Verdict es o
      → Verdict (e ∷ es) o
  skip_first e es out o (nothing all) =
      nothing (λ f m. elim m [ inl here ↦ rw here out | inr there ↦ all f there ])
  skip_first e es out o (found r best) = found r (record {
    member = inr best.member;
    free = best.free;
    least = λ f m usable. elim m [ inl here ↦ cc | inr there ↦ best.least f there usable ];
  })

  -- The verdict of a loop that had a best entry `b` before it saw the list.
  record IsBestFrom (b : Entry) (es : List Entry) (r : Entry) : Type 0 where
    member : (r ≡ b) ⊎ Among r es
    free : skipped r ≡ false
    start : before b.1 r.1 ≡ false
    least : NoneBefore es r

  module _ (ranking : IsRanking before) where
    irrefl : (n : Node) → before n n ≡ false
    irrefl n = ground (arith, ranking.asym n n)

    not-before-later : (e b r : Node) → before e b ≡ true → before e r ≡ false → before b r ≡ false
    not-before-later e b r h g = ground (arith, ranking.negtrans e r b, ranking.asym r b)

    pick_from :
        (es : List Entry) (b : Entry)
        → skipped b ≡ false
        → (r : Entry) × (pick before skipped es (some b) ≡ some r) × IsBestFrom b es r
    unfolding pick
    pick_from [] b free = (
      b,
      refl,
      record {
        member = inl refl;
        free = free;
        start = irrefl b.1;
        least = λ f gone _. absurd gone;
      },
    )
    pick_from (e ∷ es) b free = elim (Bool-cases (skipped e)) [
      | inl out ↦
          let (r, same, best) = pick_from es b free in
          (
            r,
            rw out same,
            record {
              member = elim best.member [ inl here ↦ inl here | inr there ↦ inr (inr there) ];
              free = best.free;
              start = best.start;
              least =
                  λ f m usable. elim m [ inl here ↦ cc | inr there ↦ best.least f there usable ];
            },
          )
      | inr usable ↦ elim (Bool-cases (before e.1 b.1)) [
        | inl better ↦
            let (r, same, best) = pick_from es e usable in
            (
              r,
              rw (usable, better) same,
              record {
                member = inr best.member;
                free = best.free;
                start = not-before-later e.1 b.1 r.1 better best.start;
                least = λ f m free'. elim m [
                  | inl here ↦ rw here best.start
                  | inr there ↦ best.least f there free'
                ];
              },
            )
        | inr worse ↦
            let (r, same, best) = pick_from es b free in
            (
              r,
              rw (usable, worse) same,
              record {
                member = elim best.member [ inl here ↦ inl here | inr there ↦ inr (inr there) ];
                free = best.free;
                start = best.start;
                least = λ f m free'. elim m [
                  | inl here ↦ rw here (ranking.negtrans e.1 b.1 r.1 worse best.start)
                  | inr there ↦ best.least f there free'
                ];
              },
            )
      ]
    ]

    -- A loop over the whole list finds nothing only if every entry is skipped, and otherwise a best
    -- entry among those that are not.
    pub pick-Verdict : (es : List Entry) → Verdict es (pick before skipped es none)
    unfolding pick
    pick-Verdict [] = nothing (λ e gone. absurd gone)
    pick-Verdict (e ∷ es) = elim (Bool-cases (skipped e)) [
      | inl out ↦ rw out (skip_first e es out (pick before skipped es none) (pick-Verdict es))
      | inr usable ↦
          let (r, same, best) = pick_from es e usable in
          rw (usable, same)
            (found r (record {
              member = best.member;
              free = best.free;
              least = λ f m free'. elim m [
                | inl here ↦ rw here best.start
                | inr there ↦ best.least f there free'
              ];
            }))
    ]
