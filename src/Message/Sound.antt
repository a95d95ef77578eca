-- ===== src/Message/Sound.antt =====
-- What is known of a message that the parser accepts.
pub mod Keys
use mathlib.Core.Path.{subst}
use ircparser.Base.{
  ℕ, zero, suc, ◌+◌, ◌-◌, ◌≤◌, ◌≡◌, ◌≢◌, refl, sym, ◌∙◌, true, false, List, [], ◌∷◌, Option, none,
  some, Bytes, Lacks, Dict, bytes_eq, equal, equal_iff, lookup, insert, lookup-insert, ◌==◌, ltb,
  length, take, drop, get_elem?, get_or, Result, ok, err, bind-eq-ok, arith, All, Bool-cases, inl,
  inr, ◌⊎◌,
}
use ircparser.Text.{index, split, split_two, contains, slice, trim_crlf}
use ircparser.Text.Runes.{valid_string}
use ircparser.Text.Split.{index-take, split-All, contains-Lacks}
use ircparser.Message.{Message}
use ircparser.Message.Tags.{TagError, add_tag, add_tags, parse_tags, unescape_tag_value}
use ircparser.Message.Print.{needs_colon}
use ircparser.Message.Parse.{
  read_params, read_source, read_tags, read_command, starts_with, parse_trimmed, parse_message,
  wrap_tags,
}
use ircparser.Message.RoundTrip.Line.{AreParams, drop-drop}
use ircparser.Message.RoundTrip.Tags.{Distinct}
use Keys.{AreKeys, read_tags-AreKeys}

behind_first : (s : Bytes) (n : ℕ) → Lacks b' ' (take n s) → Lacks b' ' (take (n - 1) (drop 1 s))
behind_first [] zero h = tt
behind_first [] (suc n) h = let e : suc n - 1 ≡ n = omega arith in rw e (no_bytes n)
  where
    no_bytes : (n : ℕ) → Lacks b' ' (take {A = ℕ} n [])
    no_bytes zero = tt
    no_bytes (suc n) = tt
behind_first (c ∷ s) zero h = tt
behind_first (c ∷ s) (suc n) h = let e : suc n - 1 ≡ n = omega arith in rw e h.1

bare_word :
    (c : ℕ) (p : Bytes) → (c == b':') ≡ false → Lacks b' ' (c ∷ p) → needs_colon (c ∷ p) ≡ false
unfolding needs_colon
bare_word c p h w = rw (contains-Lacks b' ' (c ∷ p) w) h

AreParams-cons :
    (p : Bytes) (ps : List Bytes) → needs_colon p ≡ false → AreParams ps → AreParams (p ∷ ps)
AreParams-cons p [] h _ = tt
AreParams-cons p (q ∷ ps) h hs = (h, hs)

-- A source that was read holds no space.
read_source-Lacks :
    (raw : Bytes) (pos : ℕ) {u : Bytes × ℕ} → read_source raw pos ≡ ok u → Lacks b' ' u.0
unfolding read_source
read_source-Lacks raw pos {u} h =
    go (Bool-cases (starts_with b':' (get_elem? raw pos))) (index b' ' (drop pos raw)) refl
  where
    go :
        (starts_with b':' (get_elem? raw pos) ≡ true)
          ⊎ (starts_with b':' (get_elem? raw pos) ≡ false)
        → (o : Option ℕ) → index b' ' (drop pos raw) ≡ o
        → Lacks b' ' u.0
    go (inr none_there) o e =
        let z : ([], pos) ≡ u = ground arith in subst (λ u. Lacks b' ' u.0) z tt
    go (inl there) none e = absurd (ground arith)
    go (inl there) (some n) e =
        let z : (slice (pos + 1) (pos + n) raw, pos + (n + 1)) ≡ u = ground arith in
        subst (λ u. Lacks b' ' u.0) z
          (let width : pos + n - (pos + 1) ≡ n - 1 = omega arith in
            rw width (
              rw (drop-drop pos 1 raw)
                (behind_first (drop pos raw) n (index-take b' ' (drop pos raw) e))))

read_params-AreParams : (ps : List Bytes) → All (Lacks b' ') ps → AreParams (read_params ps)
unfolding read_params
read_params-AreParams [] h = tt
read_params-AreParams ([] ∷ ps) (_, h) = read_params-AreParams ps h
read_params-AreParams ((c ∷ p) ∷ ps) (w, h) = elim (Bool-cases (c == b':')) [
  | inl colon ↦ rw colon tt
  | inr bare ↦
      rw bare (
        AreParams-cons (c ∷ p) (read_params ps) (bare_word c p bare w) (read_params-AreParams ps h))
]

-- What an accepted line `raw` tells of the message `m`.
pub record IsParsed (line : Bytes) (m : Message) : Type 0 where
  pub valid : valid_string line ≡ true
  pub short : length line ≤ 8704
  pub raw_is : m.raw ≡ trim_crlf line
  pub raw_ne_nil : m.raw ≢ []
  pub keys : AreKeys m.tags
  pub source_word : Lacks b' ' m.source
  pub params_are : AreParams m.params

module _ (unicode_upper : ℕ → ℕ) where
  read_command_fields :
      (raw : Bytes) (tags : Dict Bytes Bytes) (source : Bytes) (pos : ℕ) {m : Message}
      → read_command unicode_upper raw tags source pos ≡ ok m
      → (m.tags ≡ tags) × (m.source ≡ source) × (m.raw ≡ raw) × AreParams m.params
  unfolding read_command
  read_command_fields raw tags source pos {m} h =
      go (split b' ' (drop pos raw)) refl (split-All b' ' (drop pos raw))
        (Bool-cases (ltb pos (length raw)))
    where
      go :
          (parts : List Bytes)
          → split b' ' (drop pos raw) ≡ parts
          → All (Lacks b' ') (split b' ' (drop pos raw))
          → (ltb pos (length raw) ≡ true) ⊎ (ltb pos (length raw) ≡ false)
          → (m.tags ≡ tags) × (m.source ≡ source) × (m.raw ≡ raw) × AreParams m.params
      go parts e w (inr none_left) = absurd (ground arith)
      go [] e w (inl more) = absurd (ground arith)
      go (command ∷ params) e w (inl more) =
          let z : read_params params ≡ m.params = ground arith in
          (
            ground arith,
            ground arith,
            ground arith,
            subst AreParams z (read_params-AreParams params (subst (All (Lacks b' ')) e w).1),
          )

  trimmed_sound :
      (raw : Bytes) {m : Message}
      → parse_trimmed unicode_upper raw ≡ ok m
      → (m.raw ≡ raw) × (raw ≢ []) × AreKeys m.tags × Lacks b' ' m.source × AreParams m.params
  unfolding parse_trimmed
  trimmed_sound [] h = cc
  trimmed_sound (c ∷ s) h =
      let (t, tags_read, h') = bind-eq-ok (read_tags (c ∷ s)) _ h in
      let (u, source_read, h'') = bind-eq-ok (read_source (c ∷ s) t.1) _ h' in
      let (tags_are, source_is, raw_is, params) = read_command_fields (c ∷ s) t.0 u.0 u.1 h'' in
      (
        raw_is,
        cc,
        subst AreKeys (sym tags_are) (read_tags-AreKeys (c ∷ s) tags_read),
        subst (Lacks b' ') (sym source_is) (read_source-Lacks (c ∷ s) t.1 source_read),
        params,
      )

  -- An accepted line is valid UTF-8 of at most 8704 bytes that is not empty behind the trimming.
  -- The message has that text as `raw`, tags with distinct keys that are not empty, a source
  -- without spaces, and parameters of which all but the last are words that need no colon.
  pub parse_sound :
      (line : Bytes) {m : Message} → parse_message unicode_upper line ≡ ok m → IsParsed line m
  unfolding parse_message
  parse_sound line {m} h = elim (Bool-cases (valid_string line)) [
    | inr bad ↦ absurd (ground arith)
    | inl good ↦ elim (Bool-cases (ltb 8704 (length line))) [
      | inl long ↦ absurd (ground arith)
      | inr short ↦
          let trimmed : parse_trimmed unicode_upper (trim_crlf line) ≡ ok m = ground arith in
          let (raw_is, ne, keys, source, params) = trimmed_sound (trim_crlf line) trimmed in
          record {
            valid = good;
            short = ground arith;
            raw_is = raw_is;
            raw_ne_nil = λ e. ne (sym raw_is ∙ e);
            keys = keys;
            source_word = source;
            params_are = params;
          }
    ]
  ]
