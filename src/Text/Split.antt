-- ===== src/Text/Split.antt =====
-- Cutting a string at a separator, and putting it together again.
use ircparser.Base.{
  ℕ, suc, ◌≡◌, refl, sym, ap, ◌∙◌, true, false, List, [], ◌∷◌, ◌++◌, none, some, Bytes, Lacks, ◌==◌,
  length, take, drop, All, Option-cases, take-append_length, arith, ==_iff, Bool-cases, inl, inr,
}
use mathlib.Core.Path.{subst}
use ircparser.Text.{index, contains, split, split_two, join, push}

pub index-append : (b : ℕ) (s t : Bytes) → Lacks b s → index b (s ++ b ∷ t) ≡ some (length s)
unfolding index
index-append b [] t h = ground arith
index-append b (c ∷ s) t h = ground (arith, index-append b s t h.1)

pub index-Lacks : (b : ℕ) (s : Bytes) → Lacks b s → index b s ≡ none
unfolding index
index-Lacks b [] h = refl
index-Lacks b (c ∷ s) h = ground (arith, index-Lacks b s h.1)

pub contains-Lacks : (b : ℕ) (s : Bytes) → Lacks b s → contains b s ≡ false
unfolding contains
contains-Lacks b [] h = refl
contains-Lacks b (c ∷ s) h = ground (arith, contains-Lacks b s h.1)

pub Lacks-of_contains : (b : ℕ) (s : Bytes) → contains b s ≡ false → Lacks b s
unfolding contains
Lacks-of_contains b [] h = tt
Lacks-of_contains b (c ∷ s) h = (ground arith, Lacks-of_contains b s (ground arith))

pub contains-append : (b : ℕ) (s t : Bytes) → contains b (s ++ b ∷ t) ≡ true
unfolding contains
contains-append b [] t = ground arith
contains-append b (c ∷ s) t = ground (arith, contains-append b s t)

pub split_two-append : (b : ℕ) (s t : Bytes) → Lacks b s → split_two b (s ++ b ∷ t) ≡ s ∷ t ∷ []
unfolding split_two
split_two-append b s t h =
    rw (index-append b s t h, split_two) (cc (take-append_length s (b ∷ t), drop_sep s t))
  where
    drop_sep : (s t : Bytes) → drop (suc (length s)) (s ++ b ∷ t) ≡ t
    drop_sep [] t = refl
    drop_sep (c ∷ s) t = drop_sep s t

pub split-Lacks : (b : ℕ) (s : Bytes) → Lacks b s → split b s ≡ s ∷ []
unfolding split
split-Lacks b [] h = refl
split-Lacks b (c ∷ s) h = ground (arith, split-Lacks b s h.1)

pub split-append : (b : ℕ) (s t : Bytes) → Lacks b s → split b (s ++ b ∷ t) ≡ s ∷ split b t
unfolding split
split-append b [] t h = ground arith
split-append b (c ∷ s) t h = ground (arith, split-append b s t h.1)

-- The first part and the others.
pub split-cons : (b : ℕ) (s : Bytes) → (p : Bytes) × (ps : List Bytes) × (split b s ≡ p ∷ ps)
unfolding split
split-cons b [] = ([], [], refl)
split-cons b (c ∷ s) = step (split-cons b s)
  where
    step :
        ((p : Bytes) × (ps : List Bytes) × (split b s ≡ p ∷ ps))
        → (p : Bytes) × (ps : List Bytes) × (split b (c ∷ s) ≡ p ∷ ps)
    step (p, ps, e) = elim (Bool-cases (c == b)) [
      | inl h ↦ ([], p ∷ ps, rw (h, e))
      | inr h ↦ (c ∷ p, ps, rw (h, e))
    ]

join-push : (b c : ℕ) (p : Bytes) (ps : List Bytes) → join b (push c (p ∷ ps)) ≡ c ∷ join b (p ∷ ps)
unfolding join
join-push b c p [] = refl
join-push b c p (q ∷ ps) = refl

join-nil_cons : (b : ℕ) (p : Bytes) (ps : List Bytes) → join b ([] ∷ p ∷ ps) ≡ b ∷ join b (p ∷ ps)
unfolding join
join-nil_cons b p ps = refl

pub join-split : (b : ℕ) (s : Bytes) → join b (split b s) ≡ s
unfolding split
join-split b [] = unfold join in refl
join-split b (c ∷ s) =
    let (p, ps, e) = split-cons b s in
    let h : join b (p ∷ ps) ≡ s = ap (join b) (sym e) ∙ join-split b s in
    elim (Bool-cases (c == b)) [
      | inl hit ↦ rw (hit, e) (cc (join-nil_cons b p ps, h, (==_iff c b).0 hit))
      | inr miss ↦ rw (miss, e) (cc (join-push b c p ps, h))
    ]

pub index-take : (b : ℕ) (s : Bytes) {i : ℕ} → index b s ≡ some i → Lacks b (take i s)
unfolding index
index-take b [] h = cc
index-take b (c ∷ s) {i} h = elim (Bool-cases (c == b)) [
  | inl hit ↦ let z : i ≡ 0 = ground arith in rw z tt
  | inr miss ↦ elim (Option-cases (index b s)) [
    | inl e ↦ absurd (ground arith)
    | inr (j, e) ↦ let z : i ≡ suc j = ground arith in rw z (ground arith, index-take b s e)
  ]
]

pub split-All : (b : ℕ) (s : Bytes) → All (Lacks b) (split b s)
unfolding split
split-All b [] = (tt, tt)
split-All b (c ∷ s) =
    let (p, ps, e) = split-cons b s in
    let (h, hs) = subst (All (Lacks b)) e (split-All b s) in
    elim (Bool-cases (c == b)) [
      | inl hit ↦ rw (hit, e) (tt, (h, hs))
      | inr miss ↦ rw (miss, e) ((ground arith, h), hs)
    ]
