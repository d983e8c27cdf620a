-- ===== src/Mm/Paging/Tree/Reaches.antt =====
-- Which walks come to a given entry of a table of the last level: by `unique`, one at most.
use mathlib.Core.Path.{subst, ap₂}
use modos.Base.{ℕ, ◌≡◌, true, List, [], ◌∷◌, length, arith, clear12, refl, sym, ◌∙◌, ap}
use modos.Mm.Layout.{check_valid_table}
use modos.Mm.Paging.{Space}
use modos.Mm.Paging.Tree.{IsTree, entry, Leads}
use modos.Mm.Paging.Tree.Translate.{descend, InTable, descend-Leads}

-- The walk from table `x` by `path` comes to entry `i` of table `pt`.
abbrev pub Reaches : Space → ℕ → List ℕ → ℕ → ℕ → Type 0
Reaches s x [] pt i = ⊥
Reaches s x (a ∷ []) pt i = (x ≡ pt) × (a ≡ i)
Reaches s x (a ∷ b ∷ path) pt i =
    (check_valid_table (entry s x a) ≡ true) × Reaches s (clear12 (entry s x a)) (b ∷ path) pt i

module _ (s : Space) (pt i : ℕ) where
  pub Reaches-Leads :
      (x a b t' : ℕ) (path : List ℕ)
      → Leads s x a t'
      → Reaches s t' (b ∷ path) pt i
      → Reaches s x (a ∷ b ∷ path) pt i
  Reaches-Leads x a b t' path l r = (l.0, subst (λ t. Reaches s t (b ∷ path) pt i) (sym l.1) r)

  pub descend-Reaches :
      (x : ℕ) (path : List ℕ) → Reaches s x path pt i → descend s x path ≡ descend s pt (i ∷ [])
  descend-Reaches x [] r = elim r [ ]
  descend-Reaches x (a ∷ []) r = ap₂ (λ x a. descend s x (a ∷ [])) r.0 r.1
  descend-Reaches x (a ∷ b ∷ path) r =
      descend-Leads s x a b path (r.0, refl)
      ∙ descend-Reaches (clear12 (entry s x a)) (b ∷ path) r.1

  pub Reaches-unique :
      (level : ℕ → ℕ)
      → IsTree level s
      → (x y : ℕ) (path other : List ℕ) → level x ≡ length path
      → level y ≡ length other
      → length path ≡ length other
      → InTable path
      → InTable other
      → Reaches s x path pt i
      → Reaches s y other pt i
      → (x ≡ y) × (path ≡ other)
  Reaches-unique level tree x y [] other hx hy e p q r t = elim r [ ]
  Reaches-unique level tree x y (a ∷ []) [] hx hy e p q r t = elim t [ ]
  Reaches-unique level tree x y (a ∷ b ∷ path) [] hx hy e p q r t = elim t [ ]
  Reaches-unique level tree x y (a ∷ []) (c ∷ []) hx hy e p q r t =
      (r.0 ∙ sym t.0, ap (λ a. a ∷ []) (r.1 ∙ sym t.1))
  Reaches-unique level tree x y (a ∷ []) (c ∷ d ∷ other) hx hy e p q r t = absurd (omega arith)
  Reaches-unique level tree x y (a ∷ b ∷ path) (c ∷ []) hx hy e p q r t = absurd (omega arith)
  Reaches-unique level tree x y (a ∷ b ∷ path) (c ∷ d ∷ other) hx hy e p q r t =
      let down = tree.child x a (omega (arith, hx)) p.0 r.0 in
      let down' = tree.child y c (omega (arith, hy)) q.0 t.0 in
      let (same, rest) =
        Reaches-unique level tree (clear12 (entry s x a)) (clear12 (entry s y c)) (b ∷ path)
          (d ∷ other) (omega (arith, down, hx)) (omega (arith, down', hy)) (omega arith) p.1 q.1 r.1
          t.1 in
      let up = tree.unique x a y c (omega (arith, hx)) (omega (arith, hy)) p.0 q.0 r.0 t.0 same in
      (up.0, ap₂ ◌∷◌ up.1 rest)
