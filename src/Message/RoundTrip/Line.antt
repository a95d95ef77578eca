-- ===== src/Message/RoundTrip/Line.antt =====
-- The source, the command and the parameters of a printed line are read back.
use ircparser.Base.{
  ℕ, zero, suc, ◌+◌, ◌<◌, ◌≡◌, ◌≢◌, refl, sym, ap, ◌∙◌, true, false, List, [], ◌∷◌, ◌++◌, some,
  Bytes, Lacks, Dict, ltb, length, take, drop, get_elem?, ok, arith, take-append_length,
  drop-append_length, Bool-cases, inl, inr,
}
use ircparser.Text.{index, split, join, slice}
use ircparser.Text.Split.{
  index-append, split-append, split-Lacks, split-cons, join-split, Lacks-of_contains,
}
use ircparser.Message.Print.{needs_colon, print_params}
use ircparser.Message.Parse.{read_params, read_source, read_command, starts_with}
use ircparser.Text.Runes.{to_upper}

get_elem?-drop : (n : ℕ) (s : Bytes) → get_elem? s n ≡ get_elem? (drop n s) 0
get_elem?-drop zero [] = refl
get_elem?-drop zero (c ∷ s) = refl
get_elem?-drop (suc n) [] = refl
get_elem?-drop (suc n) (c ∷ s) = get_elem?-drop n s

drop-nil : (n : ℕ) → drop {A = ℕ} n [] ≡ []
drop-nil zero = refl
drop-nil (suc n) = refl

pub drop-drop : (m n : ℕ) (s : Bytes) → drop (m + n) s ≡ drop n (drop m s)
drop-drop zero n s = let e : zero + n ≡ n = omega arith in ap (λ k. drop k s) e
drop-drop (suc m) n [] = drop-nil (suc m + n) ∙ sym (drop-nil n)
drop-drop (suc m) n (c ∷ s) =
    let e : suc m + n ≡ suc (m + n) = omega arith in ap (λ k. drop k (c ∷ s)) e ∙ drop-drop m n s

lt_of_drop : (n : ℕ) (s : Bytes) → drop n s ≢ [] → n < length s
lt_of_drop zero [] h = absurd (h refl)
lt_of_drop zero (c ∷ s) h = omega arith
lt_of_drop (suc n) [] h = absurd (h refl)
lt_of_drop (suc n) (c ∷ s) h = omega (arith, lt_of_drop n s h)

pub drop_sep : (b : ℕ) (s t : Bytes) → drop (length s + 1) (s ++ b ∷ t) ≡ t
drop_sep b s t = drop-drop (length s) 1 (s ++ b ∷ t) ∙ ap (drop 1) (drop-append_length s (b ∷ t))

-- At a colon the source is what stands before the next space, and reading goes on behind that.
pub read_source_at :
    (raw : Bytes) (pos : ℕ) (source rest : Bytes)
    → drop pos raw ≡ b':' ∷ (source ++ b' ' ∷ rest)
    → Lacks b' ' source
    → (next : ℕ) × (read_source raw pos ≡ ok (source, next)) × (drop next raw ≡ rest)
read_source_at raw pos source rest e h = (pos + (suc (length source) + 1), whole, behind)
  where
    found : index b' ' (drop pos raw) ≡ some (suc (length source))
    found = ap (index b' ') e ∙ index-append b' ' (b':' ∷ source) rest (omega arith, h)

    head : starts_with b':' (get_elem? raw pos) ≡ true
    head = ap (starts_with b':') (get_elem?-drop pos raw ∙ ap (λ s. get_elem? s 0) e)

    inside : slice (pos + 1) (pos + suc (length source)) raw ≡ source
    inside =
        ap (λ n. take n (drop (pos + 1) raw)) (omega arith)
        ∙ ap (take (length source)) (drop-drop pos 1 raw ∙ ap (drop 1) e)
        ∙ take-append_length source (b' ' ∷ rest)

    whole : read_source raw pos ≡ ok (source, pos + (suc (length source) + 1))
    whole =
        unfold read_source in
        rw (head, found) (ap (λ s. ok (s, pos + (suc (length source) + 1))) inside)

    behind : drop (pos + (suc (length source) + 1)) raw ≡ rest
    behind =
        drop-drop pos (suc (length source) + 1) raw
        ∙ ap (drop (suc (length source) + 1)) e
        ∙ drop_sep b' ' (b':' ∷ source) rest

pub read_source_none :
    (raw : Bytes) (pos : ℕ)
    → starts_with b':' (get_elem? (drop pos raw) 0) ≡ false
    → read_source raw pos ≡ ok ([], pos)
unfolding read_source
read_source_none raw pos h = rw (get_elem?-drop pos raw, h)

pub read_command_at :
    (unicode_upper : ℕ → ℕ) (raw : Bytes) (tags : Dict Bytes Bytes) (source : Bytes) (pos : ℕ)
    (text command : Bytes) (parts : List Bytes)
    → drop pos raw ≡ text
    → text ≢ []
    → split b' ' text ≡ command ∷ parts
    → read_command unicode_upper raw tags source pos
      ≡ ok (record {
        tags = tags;
        source = source;
        command = to_upper unicode_upper command;
        params = read_params parts;
        raw = raw;
      })
unfolding read_command
read_command_at up raw tags source pos text command parts e ne s =
    rw (lt→ltb pos (length raw) (lt_of_drop pos raw (λ z. ne (sym e ∙ z))))
      (rw (ap (split b' ') e ∙ s))
  where
    lt→ltb : (a b : ℕ) → a < b → ltb a b ≡ true
    lt→ltb a b h = ground arith

-- Every parameter but the last can stand without a colon.
abbrev pub AreParams : List Bytes → Type 0
AreParams [] = Unit
AreParams (p ∷ []) = Unit
AreParams (p ∷ q ∷ ps) = (needs_colon p ≡ false) × AreParams (q ∷ ps)

plain_param : (p : Bytes) → needs_colon p ≡ false → Lacks b' ' p
unfolding needs_colon
plain_param [] h = cc
plain_param (c ∷ p) h = Lacks-of_contains b' ' (c ∷ p) (ground arith)

read_params-plain :
    (p : Bytes) (ps : List Bytes)
    → needs_colon p ≡ false
    → read_params (p ∷ ps) ≡ p ∷ read_params ps
unfolding needs_colon read_params
read_params-plain [] ps h = cc
read_params-plain (c ∷ p) ps h = ground arith

split-colon : (p : Bytes) → read_params (split b' ' (b':' ∷ p)) ≡ p ∷ []
unfolding split read_params
split-colon p =
    let (q, qs, e) = split-cons b' ' p in
    rw e (ap (λ s. s ∷ []) (drop_colon q qs ∙ ap (join b' ') (sym e) ∙ join-split b' ' p))
  where
    drop_colon :
        (q : Bytes) (qs : List Bytes) → drop 1 (join b' ' ((b':' ∷ q) ∷ qs)) ≡ join b' ' (q ∷ qs)
    drop_colon q [] = unfold join in refl
    drop_colon q (r ∷ qs) = unfold join in refl

-- The parameters as they are printed, behind the command, are read back.
pub read_params-split :
    (p : Bytes) (ps : List Bytes)
    → AreParams (p ∷ ps)
    → read_params (split b' ' (join b' ' (print_params (p ∷ ps)))) ≡ p ∷ ps
unfolding print_params join
read_params-split p [] h = elim (Bool-cases (needs_colon p)) [
  | inl colon ↦ rw colon (split-colon p)
  | inr bare ↦ rw bare (
      ap read_params (split-Lacks b' ' p (plain_param p bare))
      ∙ read_params-plain p [] bare
      ∙ unfold read_params in refl)
]
read_params-split p (q ∷ []) (bare, h) =
    ap read_params (split-append b' ' p _ (plain_param p bare))
    ∙ read_params-plain p _ bare
    ∙ ap (λ l. p ∷ l) (read_params-split q [] h)
read_params-split p (q ∷ r ∷ ps) (bare, h) =
    ap read_params (split-append b' ' p _ (plain_param p bare))
    ∙ read_params-plain p _ bare
    ∙ ap (λ l. p ∷ l) (read_params-split q (r ∷ ps) h)
