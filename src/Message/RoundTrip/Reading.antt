-- ===== src/Message/RoundTrip/Reading.antt =====
-- What the parser reads of the parts of a printed line.
use ircparser.Base.{
  ℕ, suc, ◌+◌, ◌-◌, ◌≡◌, ◌≢◌, refl, ◌∙◌, ap, true, false, List, [], ◌∷◌, ◌++◌, some, Bytes, Lacks,
  Dict, get_elem?, length, take, ok, ◌>>=◌, arith, take-append_length, Result,
}
use ircparser.Text.{index, split, join, slice}
use ircparser.Text.Split.{index-append, split-append, split-Lacks}
use ircparser.Message.{Message}
use ircparser.Message.Print.{print_params, source_part}
use ircparser.Message.Parse.{read_params, read_tags, starts_with, wrap_tags}
use ircparser.Message.Tags.{parse_tags}
use ircparser.Message.RoundTrip.Line.{AreParams, read_params-split}

-- The line behind the source, and behind the tags.
abbrev pub command_text : Message → Bytes
command_text m = join b' ' (m.command ∷ print_params m.params)

abbrev pub behind_tags : Message → Bytes → Bytes
behind_tags m source = join b' ' (source_part source ++ (m.command ∷ print_params m.params))

abbrev pub source_text : Message → Bytes
source_text m = behind_tags m m.source

pub join-head :
    (p : Bytes) (ps : List Bytes) → p ≢ [] → get_elem? (join b' ' (p ∷ ps)) 0 ≡ get_elem? p 0
unfolding join
join-head [] ps h = absurd (h refl)
join-head (c ∷ p) [] h = refl
join-head (c ∷ p) (q ∷ ps) h = refl

pub join-cons :
    (p q : Bytes) (ps : List Bytes) → join b' ' (p ∷ q ∷ ps) ≡ p ++ b' ' ∷ join b' ' (q ∷ ps)
unfolding join
join-cons p q ps = refl

ne_nil_of_head : (s : Bytes) {c : ℕ} → get_elem? s 0 ≡ some c → s ≢ []
ne_nil_of_head [] h = cc
ne_nil_of_head (c ∷ s) h = cc

head_of_ne_nil : (s : Bytes) → s ≢ [] → (c : ℕ) × (get_elem? s 0 ≡ some c)
head_of_ne_nil [] h = absurd (h refl)
head_of_ne_nil (c ∷ s) h = (c, refl)

-- The command and the parameters.
pub command_read :
    (m : Message)
    → AreParams m.params
    → Lacks b' ' m.command
    → (parts : List Bytes) × (split b' ' (command_text m) ≡ m.command ∷ parts)
      × (read_params parts ≡ m.params)
command_read m ps w = go m.params ps
  where
    go :
        (params : List Bytes)
        → AreParams params
        → (parts : List Bytes) × (split b' ' (join b' ' (m.command ∷ print_params params))
            ≡ m.command ∷ parts)
          × (read_params parts ≡ params)
    go [] h =
        ([], unfold print_params join in split-Lacks b' ' m.command w, unfold read_params in refl)
    go (p ∷ []) h = (
      split b' ' (join b' ' (print_params (p ∷ []))),
      unfold print_params in
          ap (split b' ') (join-cons m.command _ []) ∙ split-append b' ' m.command _ w,
      read_params-split p [] h,
    )
    go (p ∷ q ∷ ps) h = (
      split b' ' (join b' ' (print_params (p ∷ q ∷ ps))),
      unfold print_params in
          ap (split b' ') (join-cons m.command _ _) ∙ split-append b' ' m.command _ w,
      read_params-split p (q ∷ ps) h,
    )

pub join_ne_nil_of_head : (p : Bytes) (ps : List Bytes) → p ≢ [] → join b' ' (p ∷ ps) ≢ []
join_ne_nil_of_head p ps h =
    let (c, e) = head_of_ne_nil p h in ne_nil_of_head (join b' ' (p ∷ ps)) (join-head p ps h ∙ e)

pub read_tags_none :
    (raw : Bytes) → starts_with b'@' (get_elem? raw 0) ≡ false → read_tags raw ≡ ok ([], 0)
unfolding read_tags
read_tags_none raw h = rw h

pub read_tags_at :
    (raw written rest : Bytes) {tags : Dict Bytes Bytes}
    → raw ≡ b'@' ∷ (written ++ b' ' ∷ rest)
    → Lacks b' ' written
    → parse_tags written ≡ ok tags
    → read_tags raw ≡ ok (tags, suc (length written) + 1)
unfolding read_tags wrap_tags
read_tags_at raw written rest {tags} e h back =
    let head : starts_with b'@' (get_elem? raw 0) ≡ true =
      ap (λ s. starts_with b'@' (get_elem? s 0)) e in
    let found : index b' ' raw ≡ some (suc (length written)) =
      ap (index b' ') e ∙ index-append b' ' (b'@' ∷ written) rest (omega arith, h) in
    let width : suc (length written) - 1 ≡ length written = omega arith in
    let inside : slice 1 (suc (length written)) raw ≡ written =
      ap (slice 1 (suc (length written))) e
      ∙ ap (λ n. take n (written ++ b' ' ∷ rest)) width
      ∙ take-append_length written (b' ' ∷ rest) in
    rw (head, found)
      (ap (λ s. wrap_tags (parse_tags s) >>= λ tags. ok (tags, suc (length written) + 1)) inside
        ∙ ap (λ r. wrap_tags r >>= λ tags. ok (tags, suc (length written) + 1)) back)

pub bind_ok {ℓ κ} :
    {E : Type 0} {A : Type ℓ} {B : Type κ} {r : Result E A} (f : A → Result E B) {a : A}
    → r ≡ ok a
    → (r >>= f) ≡ f a
bind_ok f e = ap (λ r. r >>= f) e

pub join-cons_ne_nil :
    (p : Bytes) (ps : List Bytes) → ps ≢ [] → join b' ' (p ∷ ps) ≡ p ++ b' ' ∷ join b' ' ps
join-cons_ne_nil p [] h = absurd (h refl)
join-cons_ne_nil p (q ∷ ps) h = join-cons p q ps

pub source_part-ne-nil :
    (source command : Bytes) (ps : List Bytes) → source_part source ++ (command ∷ ps) ≢ []
unfolding source_part
source_part-ne-nil [] command ps = cc
source_part-ne-nil (c ∷ source) command ps = cc
