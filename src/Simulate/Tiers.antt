-- ===== src/Simulate/Tiers.antt =====
-- The prize tiers of simulateDraw of internal/services/simulate.go.
use native.Mathlib.Decide.{ℕ_discrete}
use stat_tree_server.Base.{
  ℕ, ◌+◌, ◌*◌, ◌≡◌, refl, ◌∙◌, Bool, true, false, List, [], ◌∷◌, arith, length, ◌==◌, if◌then◌else◌,
  ne→==,
}
use stat_tree_server.Combos.Spec.{combos, choose}
use stat_tree_server.Combos.Enumerate.{generate_combinations-combos}
use stat_tree_server.Simulate.Hits.{with_matches, with_matches-combos}
use stat_tree_server.Simulate.{
  simulate_combinations, match_to_tier, matches, add_hit, count_hits, no_hits,
}

-- The counters of simulateDraw with the hits of 6, 5, 4 and 3 matches, at the tiers with the strong
-- number or at those without it.
abbrev pub table : Bool → ℕ → ℕ → ℕ → ℕ → List ℕ
table true a b c d = a ∷ 0 ∷ b ∷ 0 ∷ c ∷ 0 ∷ d ∷ 0 ∷ []
table false a b c d = 0 ∷ a ∷ 0 ∷ b ∷ 0 ∷ c ∷ 0 ∷ d ∷ []

add_hit-table :
    (s : Bool) (m a b c d : ℕ)
    → add_hit (match_to_tier m s) (table s a b c d)
      ≡ table s
          (if m == 6 then a + 1 else a)
          (if m == 5 then b + 1 else b)
          (if m == 4 then c + 1 else c)
          (if m == 3 then d + 1 else d)
unfolding add_hit match_to_tier
add_hit-table true m a b c d = elim (ℕ_discrete m 6) [
  | yes e ↦ rw e refl
  | no n ↦ elim (ℕ_discrete m 5) [
    | yes e ↦ rw e refl
    | no n' ↦ elim (ℕ_discrete m 4) [
      | yes e ↦ rw e refl
      | no n'' ↦ elim (ℕ_discrete m 3) [
        | yes e ↦ rw e refl
        | no n3 ↦ rw (ne→== m 6 n, ne→== m 5 n', ne→== m 4 n'', ne→== m 3 n3) refl
      ]
    ]
  ]
]
add_hit-table false m a b c d = elim (ℕ_discrete m 6) [
  | yes e ↦ rw e refl
  | no n ↦ elim (ℕ_discrete m 5) [
    | yes e ↦ rw e refl
    | no n' ↦ elim (ℕ_discrete m 4) [
      | yes e ↦ rw e refl
      | no n'' ↦ elim (ℕ_discrete m 3) [
        | yes e ↦ rw e refl
        | no n3 ↦ rw (ne→== m 6 n, ne→== m 5 n', ne→== m 4 n'', ne→== m 3 n3) refl
      ]
    ]
  ]
]

table-eq :
    (s : Bool) {a b c d a' b' c' d' : ℕ}
    → a ≡ a'
    → b ≡ b'
    → c ≡ c'
    → d ≡ d'
    → table s a b c d ≡ table s a' b' c' d'
table-eq s ea eb ec ed i = table s (ea i) (eb i) (ec i) (ed i)

count_hits-table :
    (winning : List ℕ) (s : Bool) (cs : List (List ℕ)) (a b c d : ℕ)
    → count_hits winning s cs (table s a b c d)
      ≡ table s
          (a + with_matches winning 6 cs)
          (b + with_matches winning 5 cs)
          (c + with_matches winning 4 cs)
          (d + with_matches winning 3 cs)
unfolding count_hits with_matches
count_hits-table winning s [] a b c d =
    table-eq s (omega arith) (omega arith) (omega arith) (omega arith)
count_hits-table winning s (x ∷ cs) a b c d = rw (add_hit-table s (matches winning x) a b c d) (
    count_hits-table winning s cs _ _ _ _
    ∙ table-eq s (ground arith) (ground arith) (ground arith) (ground arith))

no_hits-table : (s : Bool) → no_hits ≡ table s 0 0 0 0
no_hits-table true = refl
no_hits-table false = refl

-- For a form of which w numbers are in the draw and l are not, simulateDraw counts, among all
-- combinations of six that the form gives, choose w m times choose l (6 - m) with m matches, for m from
-- 3 to 6, at the tier of m matches with or without the strong number, and none at the other tiers.
pub count_hits-hypergeometric :
    (winning form : List ℕ) (strong_matched : Bool) (l : ℕ)
    → matches winning form + l ≡ length form
    → count_hits winning strong_matched (simulate_combinations form 6) no_hits
      ≡ table strong_matched
          (choose (matches winning form) 6 * choose l 0)
          (choose (matches winning form) 5 * choose l 1)
          (choose (matches winning form) 4 * choose l 2)
          (choose (matches winning form) 3 * choose l 3)
count_hits-hypergeometric winning form s l e =
    rw (generate_combinations-combos form 6 (omega arith), no_hits-table s)
      (count_hits-table winning s (combos 6 form) 0 0 0 0
        ∙ table-eq s (tier 6 0 refl) (tier 5 1 refl) (tier 4 2 refl) (tier 3 3 refl))
  where
    tier :
        (m j : ℕ)
        → 6 ≡ m + j
        → 0 + with_matches winning m (combos 6 form) ≡ choose (matches winning form) m * choose l j
    tier m j h = omega (arith, with_matches-combos winning form l e m j 6 h)
