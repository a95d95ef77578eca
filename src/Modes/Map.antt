-- ===== src/Modes/Map.antt =====
-- A list of modes stands for a map from modes to parameters.
use ircparser.Base.{
  ℕ, ◌≡◌, refl, Bool, true, false, List, [], ◌∷◌, Option, none, some, Bytes, ◌==◌, if◌then◌else◌,
  arith, Bool-cases, inl, inr,
}
use ircparser.Modes.{ModeEntry, has_mode, add_mode, remove_mode}

-- The abstract view: the parameter of a mode that is set.
abbrev pub view : List ModeEntry → ℕ → Option Bytes
view [] n = none
view (m ∷ ms) n = if m.mode == n then some m.parameter else view ms n

-- No mode stands twice.
abbrev pub AreModes : List ModeEntry → Type 0
AreModes [] = Unit
AreModes (m ∷ ms) = (view ms m.mode ≡ none) × AreModes ms

abbrev pub is_set : Option Bytes → Bool
is_set none = false
is_set (some _) = true

-- `HasMode` asks the map.
pub has_mode-view : (n : ℕ) (ms : List ModeEntry) → has_mode n ms ≡ is_set (view ms n)
unfolding has_mode
has_mode-view n [] = refl
has_mode-view n (m ∷ ms) = ground (arith, has_mode-view n ms)

-- `AddMode` sets one key of the map.
view-add_mode :
    (k n : ℕ) (p : Bytes) (ms : List ModeEntry)
    → view (add_mode k p ms) n ≡ (if k == n then some p else view ms n)
unfolding add_mode
view-add_mode k n p [] = refl
view-add_mode k n p (m ∷ ms) = ground (arith, view-add_mode k n p ms)

-- `RemoveMode` deletes one key of the map, if no mode stands twice.
view-remove_mode :
    (k n : ℕ) (ms : List ModeEntry)
    → AreModes ms
    → view (remove_mode k ms) n ≡ (if k == n then none else view ms n)
unfolding remove_mode
view-remove_mode k n [] h = ground arith
view-remove_mode k n (m ∷ ms) h = elim (Bool-cases (m.mode == n)) [
  | inl e ↦
      let z : m.mode ≡ n = ground arith in ground (arith, view-remove_mode k n ms h.1, rw z at h.0)
  | inr e ↦ ground (arith, view-remove_mode k n ms h.1)
]

-- No mode stands twice after `AddMode`, if none did before.
pub add_mode-AreModes :
    (k : ℕ) (p : Bytes) (ms : List ModeEntry) → AreModes ms → AreModes (add_mode k p ms)
unfolding add_mode
add_mode-AreModes k p [] h = (refl, tt)
add_mode-AreModes k p (m ∷ ms) (h, hs) = elim (Bool-cases (m.mode == k)) [
  | inl e ↦ let z : m.mode ≡ k = ground arith in rw e (rw z at h, hs)
  | inr e ↦ rw e (ground (arith, view-add_mode k m.mode p ms), add_mode-AreModes k p ms hs)
]

-- `RemoveMode` keeps the list free of modes that stand twice.
pub remove_mode-AreModes : (k : ℕ) (ms : List ModeEntry) → AreModes ms → AreModes (remove_mode k ms)
unfolding remove_mode
remove_mode-AreModes k [] h = tt
remove_mode-AreModes k (m ∷ ms) (h, hs) = elim (Bool-cases (m.mode == k)) [
  | inl e ↦ rw e hs
  | inr e ↦ rw e (ground (arith, view-remove_mode k m.mode ms hs), remove_mode-AreModes k ms hs)
]
