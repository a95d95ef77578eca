-- ===== src/EventBus/Handlers/Ids.antt =====
-- The lists of handlers and their ids.
use mathlib.Core.Path.{subst}
use ircparser.Base.{
  ℕ, suc, ◌≡◌, ◌≢◌, ◌<◌, refl, sym, ap, ◌∙◌, false, List, [], ◌∷◌, ◌++◌, Dict, lookup, Option, none,
  some, Eq, insert, lookup-insert, ◌==◌, if◌then◌else◌, All, Bool-cases, Option-cases, inl, inr,
  arith,
}
use ircparser.EventBus.{HandlerWrapper, list_or_nil, remove_last}

module _ {ℓ} {H : Type ℓ} where
  pub remove_last-append :
      (ws : List (HandlerWrapper H)) (w : HandlerWrapper H)
      → remove_last w.id (ws ++ w ∷ []) ≡ some ws
  unfolding remove_last
  remove_last-append [] w = ground arith
  remove_last-append (v ∷ ws) w = rw (remove_last-append ws w) refl

  pub lookup_list :
      {K : Type 0} ⦃e : Eq K⦄ (k j : K) (ws : List (HandlerWrapper H))
      (m : Dict K (List (HandlerWrapper H)))
      → list_or_nil (lookup j (insert k ws m))
        ≡ (if e.beq k j then ws else list_or_nil (lookup j m))
  lookup_list ⦃e⦄ k j ws m = ap list_or_nil (lookup-insert k j ws m) ∙ ground arith

  -- The entries of other ids.
  abbrev pub others : ℕ → List (HandlerWrapper H) → List (HandlerWrapper H)
  others id [] = []
  others id (w ∷ ws) = let rest = others id ws in if w.id == id then rest else w ∷ rest

  -- No id stands twice, and all are below a bound.
  abbrev pub AreIds : ℕ → List (HandlerWrapper H) → Type 0
  AreIds n [] = Unit
  AreIds n (w ∷ ws) = (w.id < n) × All (λ v. w.id ≢ v.id) ws × AreIds n ws

  abbrev pub kept :
      List (HandlerWrapper H) → Option (List (HandlerWrapper H)) → List (HandlerWrapper H)
  kept ws none = ws
  kept ws (some rest) = rest

  absent :
      (id : ℕ) (ws : List (HandlerWrapper H))
      → All (λ v. id ≢ v.id) ws
      → (remove_last id ws ≡ none) × (others id ws ≡ ws)
  unfolding remove_last
  absent id [] h = (refl, refl)
  absent id (w ∷ ws) (hw, h) =
      let (gone, same) = absent id ws h in
      let differs : (w.id == id) ≡ false = ground arith in
      (rw gone (rw differs), rw differs (ap (λ r. w ∷ r) same))

  -- With distinct ids, the loop takes out just the id.
  pub remove_last-others :
      (n : ℕ) (id : ℕ) (ws : List (HandlerWrapper H))
      → AreIds n ws
      → kept ws (remove_last id ws) ≡ others id ws
  unfolding remove_last
  remove_last-others n id [] h = refl
  remove_last-others n id (w ∷ ws) (_, hw, h) = elim (Bool-cases (w.id == id)) [
    | inl same ↦
        let e : w.id ≡ id = ground arith in
        let (gone, left) = absent id ws (subst (λ i. All (λ v. i ≢ v.id) ws) e hw) in
        rw (gone, same) (sym left)
    | inr differs ↦ elim (Option-cases (remove_last id ws)) [
      | inl e ↦
          rw (e, differs) (ap (λ r. w ∷ r) (ap (kept ws) (sym e) ∙ remove_last-others n id ws h))
      | inr (rest, e) ↦
          rw (e, differs) (ap (λ r. w ∷ r) (ap (kept ws) (sym e) ∙ remove_last-others n id ws h))
    ]
  ]

  All-others :
      (P : HandlerWrapper H → Type 0) (id : ℕ) (ws : List (HandlerWrapper H))
      → All P ws
      → All P (others id ws)
  All-others P id [] h = tt
  All-others P id (w ∷ ws) (hw, h) = elim (Bool-cases (w.id == id)) [
    | inl same ↦ rw same (All-others P id ws h)
    | inr differs ↦ rw differs (hw, All-others P id ws h)
  ]

  pub others-AreIds :
      (n : ℕ) (id : ℕ) (ws : List (HandlerWrapper H)) → AreIds n ws → AreIds n (others id ws)
  others-AreIds n id [] h = tt
  others-AreIds n id (w ∷ ws) (b, hw, h) = elim (Bool-cases (w.id == id)) [
    | inl same ↦ rw same (others-AreIds n id ws h)
    | inr differs ↦ rw differs (b, All-others _ id ws hw, others-AreIds n id ws h)
  ]

  pub AreIds-suc : (n : ℕ) (ws : List (HandlerWrapper H)) → AreIds n ws → AreIds (suc n) ws
  AreIds-suc n [] h = tt
  AreIds-suc n (w ∷ ws) (b, hw, h) = (omega arith, hw, AreIds-suc n ws h)

  All-append :
      (P : HandlerWrapper H → Type 0) (ws : List (HandlerWrapper H)) (v : HandlerWrapper H)
      → All P ws
      → P v
      → All P (ws ++ v ∷ [])
  All-append P [] v h p = (p, tt)
  All-append P (w ∷ ws) v (hw, h) p = (hw, All-append P ws v h p)

  pub AreIds-append :
      (ws : List (HandlerWrapper H)) (v : HandlerWrapper H)
      → AreIds v.id ws
      → AreIds (suc v.id) (ws ++ v ∷ [])
  AreIds-append [] v h = (omega arith, tt, tt)
  AreIds-append (w ∷ ws) v (b, hw, h) =
      (omega arith, All-append _ ws v hw (λ e. absurd (omega arith)), AreIds-append ws v h)
