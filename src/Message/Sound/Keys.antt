-- ===== src/Message/Sound/Keys.antt =====
-- The keys of the tags that the parser accepts.
use mathlib.Core.Path.{subst}
use ircparser.Base.{
  ℕ, ◌+◌, ◌≡◌, ◌≢◌, refl, true, false, List, [], ◌∷◌, Option, none, some, Bytes, Dict, bytes_eq,
  equal, equal_iff, lookup, insert, lookup-insert, get_elem?, get_or, Result, ok, err, bind-eq-ok,
  arith, All, Bool-cases, inl, inr, ◌⊎◌,
}
use ircparser.Text.{index, split, split_two, contains, slice}
use ircparser.Message.Tags.{TagError, add_tag, add_tags, parse_tags, unescape_tag_value}
use ircparser.Message.Parse.{read_tags, starts_with, wrap_tags}
use ircparser.Message.RoundTrip.Tags.{Distinct}

-- The keys of a tag map: none is empty, and none stands twice.
pub record AreKeys (tags : Dict Bytes Bytes) : Type 0 where
  pub ne_nil : All (λ t. t.0 ≢ []) tags
  pub distinct : Distinct tags

insert-ne-nil :
    (k v : Bytes) (m : Dict Bytes Bytes)
    → k ≢ []
    → All (λ t. t.0 ≢ []) m
    → All (λ t. t.0 ≢ []) (insert k v m)
unfolding insert
insert-ne-nil k v [] h _ = (h, tt)
insert-ne-nil k v ((j, w) ∷ m) h (hj, hm) = elim (Bool-cases (equal j k)) [
  | inl same ↦ rw same (h, hm)
  | inr other ↦ rw other (hj, insert-ne-nil k v m h hm)
]

insert-Distinct : (k v : Bytes) (m : Dict Bytes Bytes) → Distinct m → Distinct (insert k v m)
unfolding insert lookup
insert-Distinct k v [] _ = (refl, tt)
insert-Distinct k v ((j, w) ∷ m) (d, ds) = elim (Bool-cases (equal j k)) [
  | inl same ↦ rw same (rw (← (equal_iff j k).0 same) (d, ds))
  | inr other ↦ rw other (
    ground (arith, lookup-insert k j v m, equal_iff j k, equal_iff k j),
    insert-Distinct k v m ds,
  )
]

insert-AreKeys : (k v : Bytes) (m : Dict Bytes Bytes) → k ≢ [] → AreKeys m → AreKeys (insert k v m)
insert-AreKeys k v m h a = record {
  ne_nil = insert-ne-nil k v m h a.ne_nil;
  distinct = insert-Distinct k v m a.distinct;
}

ok-injective {ℓ} : {E : Type 0} {A : Type ℓ} {a b : A} → ◌≡◌ {A = Result E A} (ok a) (ok b) → a ≡ b
ok-injective h = cc

add_tag-AreKeys :
    (m : Dict Bytes Bytes) (pair : Bytes) {m' : Dict Bytes Bytes}
    → add_tag m pair ≡ ok m'
    → AreKeys m
    → AreKeys m'
unfolding add_tag
add_tag-AreKeys m [] h a = subst AreKeys (ok-injective h) a
add_tag-AreKeys m (c ∷ pair) {m'} h a =
    go (Bool-cases (contains b'=' (c ∷ pair))) (get_or (split_two b'=' (c ∷ pair)) 0 []) refl
  where
    go :
        ((contains b'=' (c ∷ pair)) ≡ true) ⊎ ((contains b'=' (c ∷ pair)) ≡ false)
        → (key : Bytes) → get_or (split_two b'=' (c ∷ pair)) 0 [] ≡ key
        → AreKeys m'
    go (inl has) [] e = absurd (ground arith)
    go (inl has) (k ∷ ks) e =
        let z : insert (k ∷ ks) (unescape_tag_value (get_or (split_two b'=' (c ∷ pair)) 1 [])) m
            ≡ m' =
          ground arith in
        subst AreKeys z (insert-AreKeys (k ∷ ks) _ m (cc) a)
    go (inr lacks) key e =
        let z : insert (c ∷ pair) [] m ≡ m' = ground arith in
        subst AreKeys z (insert-AreKeys (c ∷ pair) [] m (cc) a)

add_tags-AreKeys :
    (m : Dict Bytes Bytes) (pairs : List Bytes) {m' : Dict Bytes Bytes}
    → add_tags m pairs ≡ ok m'
    → AreKeys m
    → AreKeys m'
unfolding add_tags
add_tags-AreKeys m [] h a = subst AreKeys (ok-injective h) a
add_tags-AreKeys m (pair ∷ pairs) h a =
    let (m₁, first, later) = bind-eq-ok (add_tag m pair) (λ n. add_tags n pairs) h in
    add_tags-AreKeys m₁ pairs later (add_tag-AreKeys m pair first a)

no_tags-AreKeys : AreKeys []
no_tags-AreKeys = record { ne_nil = tt; distinct = tt }

parse_tags-AreKeys : (s : Bytes) {m : Dict Bytes Bytes} → parse_tags s ≡ ok m → AreKeys m
unfolding parse_tags
parse_tags-AreKeys [] h = subst AreKeys (ok-injective h) no_tags-AreKeys
parse_tags-AreKeys (c ∷ s) h = add_tags-AreKeys [] (split b';' (c ∷ s)) h no_tags-AreKeys

wrap_tags-eq-ok :
    (r : Result TagError (Dict Bytes Bytes)) {m : Dict Bytes Bytes} → wrap_tags r ≡ ok m → r ≡ ok m
unfolding wrap_tags
wrap_tags-eq-ok (ok m) h = cc
wrap_tags-eq-ok (err e) h = cc

pub read_tags-AreKeys :
    (raw : Bytes) {t : Dict Bytes Bytes × ℕ} → read_tags raw ≡ ok t → AreKeys t.0
unfolding read_tags
read_tags-AreKeys raw {t} h =
    go (Bool-cases (starts_with b'@' (get_elem? raw 0))) (index b' ' raw) refl
  where
    go :
        (starts_with b'@' (get_elem? raw 0) ≡ true) ⊎ (starts_with b'@' (get_elem? raw 0) ≡ false)
        → (o : Option ℕ) → index b' ' raw ≡ o
        → AreKeys t.0
    go (inr none_there) o e =
        let z : ([], 0) ≡ t = ground arith in subst (λ t. AreKeys t.0) z no_tags-AreKeys
    go (inl there) none e = absurd (ground arith)
    go (inl there) (some pos) e =
        let (m, read, z) =
          bind-eq-ok (wrap_tags (parse_tags (slice 1 pos raw))) (λ tags. ok (tags, pos + 1))
            (rw (there, e) at h) in
        subst (λ t. AreKeys t.0) (ok-injective z) (parse_tags-AreKeys _ (wrap_tags-eq-ok _ read))
