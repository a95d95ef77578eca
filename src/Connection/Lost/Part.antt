-- ===== src/Connection/Lost/Part.antt =====
-- Lists of lines that are parts of others.
use mathlib.Core.Path.{subst}
use ircparser.Base.{◌≡◌, ◌⊎◌, inl, inr, refl, sym, ap, List, [], ◌∷◌, ◌++◌, Bytes}

-- The first list is got from the second by leaving some of its members out.
abbrev pub IsPart : List Bytes → List Bytes → Type 0
IsPart part [] = part ≡ []
IsPart part (line ∷ lines) =
    IsPart part lines ⊎ ((rest : List Bytes) × (part ≡ line ∷ rest) × IsPart rest lines)

pub IsPart-nil : (lines : List Bytes) → IsPart [] lines
IsPart-nil [] = refl
IsPart-nil (line ∷ lines) = inl (IsPart-nil lines)

pub IsPart-self : (lines : List Bytes) → IsPart lines lines
IsPart-self [] = refl
IsPart-self (line ∷ lines) = inr (lines, refl, IsPart-self lines)

tail_of : List Bytes → List Bytes
tail_of [] = []
tail_of (line ∷ lines) = lines

head_of : Bytes → List Bytes → Bytes
head_of line [] = line
head_of line (l ∷ lines) = l

pub IsPart-front :
    (part behind lines : List Bytes) → IsPart (part ++ behind) lines → IsPart part lines
unfolding tail_of head_of
IsPart-front [] behind lines h = IsPart-nil lines
IsPart-front (l ∷ part) behind [] h = cc
IsPart-front (l ∷ part) behind (line ∷ lines) (inl h) = inl (IsPart-front (l ∷ part) behind lines h)
IsPart-front (l ∷ part) behind (line ∷ lines) (inr (rest, e, h)) = inr (
  part,
  ap (λ b. b ∷ part) (ap (head_of l) e),
  IsPart-front part behind lines (subst (λ r. IsPart r lines) (sym (ap tail_of e)) h),
)

pub IsPart-append :
    (part lines more : List Bytes) → IsPart part lines → IsPart (part ++ more) (lines ++ more)
IsPart-append part [] more h = subst (λ r. IsPart (r ++ more) more) (sym h) (IsPart-self more)
IsPart-append part (line ∷ lines) more (inl h) = inl (IsPart-append part lines more h)
IsPart-append part (line ∷ lines) more (inr (rest, e, h)) =
    inr (rest ++ more, ap (λ r. r ++ more) e, IsPart-append rest lines more h)
