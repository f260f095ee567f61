-- ===== src/Analyze/Adds.antt =====
-- What a call of analyzeBuild of internal/lottery-tree/lottery_archive.go adds to its groups.
use mathlib.Core.List.{append-nil, append_assoc}
use stat_tree_server.Base.{
  ℕ, suc, ◌-◌, ◌≤◌, ◌<◌, ◌≡◌, ◌∙◌, ap, List, [], ◌∷◌, ◌++◌, some, arith, length, ◌==◌,
  if◌then◌else◌, get_or, Option-cases, inl, inr, ne→==, eq→==, lt→ltb, le→ltb,
}
use native.Mathlib.Decide.{ℕ_discrete, dec_lt}
use stat_tree_server.Combos.Spec.{combos}
use stat_tree_server.Tree.{Node, count, NodeEntry, lookup}
use stat_tree_server.Tree.Groups.{count_at}
use stat_tree_server.Tree.Sized.{IsSized}
use stat_tree_server.Tree.Present.{present}
use stat_tree_server.Analyze.{append_at, analyze_child, analyze_build}
use stat_tree_server.Analyze.Counts.{
  lookup-IsSized, first_groups, first_groups-none, first_groups-some, first_groups-leaf, added,
  present-step, added-append, added-nil, length-append_at, get_or-append_at, length-analyze_child,
  length-analyze_build, present-empty, added-early,
}

-- What a call of analyzeBuild on the rest of a form adds to the groups.
abbrev pub Adds : ℕ → List ℕ → ℕ → ℕ → Type 0
Adds top form s m =
    (prefix : List ℕ) (n : Node) (groups : List (List NodeEntry)) (j : ℕ)
    → IsSized top n
    → m ≤ length groups
    → j < m
    → get_or (analyze_build form s m prefix n groups) j []
      ≡ get_or groups j []
        ++ added s j (present (λ p. count_at p n) prefix (combos (suc (j - s)) form))

-- The entry of the child itself and those of its groups are the groups that begin with its number.
child_entries :
    (top : ℕ) (form : List ℕ) (x s j : ℕ) (prefix : List ℕ) (n c : Node)
    → lookup x n ≡ some c
    → 0 < count c
    → (if s == j then (record { numbers = prefix ++ x ∷ []; count = count c }) ∷ [] else [])
        ++ added
            (suc s)
            j
            (present (λ p. count_at p c) (prefix ++ x ∷ []) (combos (suc (j - suc s)) form))
      ≡ added s j (first_groups form x prefix n (j - s))
unfolding added
child_entries top form x s j prefix n c e pos = elim (ℕ_discrete s j) [
  | yes same ↦
      let d : j - s ≡ 0 = omega arith in
      rw (
        eq→== s j same,
        lt→ltb j (suc s) (omega arith),
        le→ltb j s (omega arith),
        d,
        first_groups-leaf form x prefix n e pos,
      )
  | no other ↦ elim (dec_lt j s) [
    | yes early ↦ rw (ne→== s j other, lt→ltb j (suc s) (omega arith), lt→ltb j s early)
    | no late ↦
        let d : j - s ≡ suc (j - suc s) = omega arith in
        rw (
          ne→== s j other,
          le→ltb j (suc s) (omega arith),
          le→ltb j s (omega arith),
          d,
          first_groups-some form x prefix n (suc (j - suc s)) e,
        )
  ]
]

analyze_child-Adds :
    (top : ℕ) (form : List ℕ) (x s m : ℕ) (prefix : List ℕ) (n : Node)
    (groups : List (List NodeEntry)) (j : ℕ)
    → Adds top form (suc s) m
    → IsSized top n
    → m ≤ length groups
    → j < m
    → s < m
    → get_or
        (analyze_child s
          (prefix ++ x ∷ [])
          (analyze_build form (suc s) m (prefix ++ x ∷ []))
          (lookup x n)
          groups)
        j
        []
      ≡ get_or groups j [] ++ added s j (first_groups form x prefix n (j - s))
unfolding analyze_child
analyze_child-Adds top form x s m prefix n groups j deeper h room jm sm =
    elim (Option-cases (lookup x n)) [
      | inl e ↦
          rw (
            e,
            analyze_child,
            first_groups-none form x prefix n (j - s) e,
            added-nil s j,
            append-nil,
          )
      | inr (c, e) ↦
          let (pos, sized) = lookup-IsSized top x n c h e in
          let entry : NodeEntry = record { numbers = prefix ++ x ∷ []; count = count c } in
          let below =
            deeper (prefix ++ x ∷ []) c (append_at s entry groups) j sized
              (rw (length-append_at s entry groups) room) jm in
          rw (e, analyze_child, below, get_or-append_at s j entry groups (omega arith))
            (append_assoc (get_or groups j []) _ _
              ∙ ap (◌++◌ (get_or groups j [])) (child_entries top form x s j prefix n c e pos))
    ]

-- For each size, analyzeBuild appends the subsequences of the form that the tree below the node
-- counts, in lexicographic order of their places, each with its count.
pub analyze_build-Adds : (top : ℕ) (form : List ℕ) (s m : ℕ) → s ≤ m → Adds top form s m
unfolding analyze_build
analyze_build-Adds top [] s m sm prefix n groups j h room jm =
    rw (present-empty (λ p. count_at p n) prefix (j - s), added-nil s j, append-nil)
analyze_build-Adds top (x ∷ form) s m sm prefix n groups j h room jm = elim (ℕ_discrete s m) [
  | yes full ↦ rw (eq→== s m full, analyze_build, added-early s j _ (omega arith), append-nil)
  | no more ↦
      let child =
        analyze_child s (prefix ++ x ∷ []) (analyze_build form (suc s) m (prefix ++ x ∷ []))
          (lookup x n) groups in
      let first =
        analyze_child-Adds top form x s m prefix n groups j
          (analyze_build-Adds top form (suc s) m (omega arith)) h room jm (omega arith) in
      let rest =
        analyze_build-Adds top form s m sm prefix n child j h
          (rw
            (length-analyze_child s (prefix ++ x ∷ []) _ (lookup x n) groups
              (λ c g. length-analyze_build form (suc s) m (prefix ++ x ∷ []) c g))
            room)
          jm in
      rw
        (
          ne→== s m more,
          analyze_build,
          rest,
          first,
          present-step form x prefix n (j - s),
          added-append,
        )
        (append_assoc (get_or groups j []) _ _)
]
