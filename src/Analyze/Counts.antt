-- ===== src/Analyze/Counts.antt =====
-- The groups that analyzeBuild of internal/lottery-tree/lottery_archive.go reports for one number of a form.
use mathlib.Core.List.{append-nil}
use stat_tree_server.Base.{
  ℕ, suc, ◌-◌, ◌<◌, ◌≡◌, refl, ◌∙◌, ap, List, [], ◌∷◌, ◌++◌, map, Option, none, some, arith, length,
  length-set, get_or-set, ltb, ◌==◌, if◌then◌else◌, get_or, All-every, Bool-cases, inl, inr, ne→==,
  eq→==, lt→ltb,
}
use native.Mathlib.Decide.{ℕ_discrete}
use stat_tree_server.Combos.Spec.{combos}
use stat_tree_server.Tree.{Node, node, count, NodeEntry, lookup}
use stat_tree_server.Tree.Groups.{count_at}
use stat_tree_server.Tree.Sized.{IsSized, slot-IsSized}
use stat_tree_server.Tree.Present.{
  present, present-append, present-map-cons, present-absent, present-agree,
}
use stat_tree_server.Tree.Collect.{present-leaf}
use stat_tree_server.Tree.Counts.{leaf-count}
use stat_tree_server.Analyze.{append_at, analyze_child, analyze_build}

-- The child that a lookup finds has been counted, and is in shape.
pub lookup-IsSized :
    (top x : ℕ) (n : Node) (c : Node)
    → IsSized top n
    → lookup x n ≡ some c
    → (0 < count c) × IsSized top c
unfolding lookup
lookup-IsSized top x (node n k s) c h e = elim (Bool-cases (ltb n x)) [
  | inl above ↦
      let (number, seen, sized) = slot-IsSized top (suc n) s (x - n - 1) h.1 (rw above at e) in
      (seen, sized)
  | inr below ↦ cc (rw below at e)
]

-- What one number of the form adds to the groups of its node, for the size `suc d`.
pub first_groups : List ℕ → ℕ → List ℕ → Node → ℕ → List NodeEntry
first_groups form x prefix n d = present (λ p. count_at p n) prefix (map (◌∷◌ x) (combos d form))

pub count_at-lookup :
    (x : ℕ) (p : List ℕ) (n : Node) {c : Node}
    → lookup x n ≡ some c
    → count_at (x ∷ p) n ≡ count_at p c
unfolding count_at
count_at-lookup x p n e = rw (e, count_at)

pub count_at-missing : (x : ℕ) (p : List ℕ) (n : Node) → lookup x n ≡ none → count_at (x ∷ p) n ≡ 0
unfolding count_at
count_at-missing x p n e = rw (e, count_at)

pub first_groups-none :
    (form : List ℕ) (x : ℕ) (prefix : List ℕ) (n : Node) (d : ℕ)
    → lookup x n ≡ none
    → first_groups form x prefix n d ≡ []
unfolding first_groups
first_groups-none form x prefix n d e =
    present-map-cons (λ p. count_at p n) prefix x (combos d form)
    ∙ present-absent _ _ _ (All-every (λ p. count_at-missing x p n e) (combos d form))

pub first_groups-some :
    (form : List ℕ) (x : ℕ) (prefix : List ℕ) (n : Node) (d : ℕ) {c : Node}
    → lookup x n ≡ some c
    → first_groups form x prefix n d
      ≡ present (λ p. count_at p c) (prefix ++ x ∷ []) (combos d form)
unfolding first_groups
first_groups-some form x prefix n d e =
    present-map-cons (λ p. count_at p n) prefix x (combos d form)
    ∙ present-agree _ _ _ _ (All-every (λ p. count_at-lookup x p n e) (combos d form))

pub first_groups-leaf :
    (form : List ℕ) (x : ℕ) (prefix : List ℕ) (n : Node) {c : Node}
    → lookup x n ≡ some c
    → 0 < count c
    → first_groups form x prefix n 0 ≡ (record { numbers = prefix ++ x ∷ []; count = count c }) ∷ []
first_groups-leaf form x prefix n {c} e pos =
    first_groups-some form x prefix n 0 e
    ∙ present-leaf (λ p. count_at p c) (prefix ++ x ∷ []) form (rw (leaf-count c) pos)
    ∙ ap (λ k. (record { numbers = prefix ++ x ∷ []; count = k }) ∷ []) (leaf-count c)

-- The entries that a call with `s` numbers chosen adds to the group at the index `j`.
unfoldable pub added : ℕ → ℕ → List NodeEntry → List NodeEntry
added s j new = if ltb j s then [] else new

pub present-step :
    (form : List ℕ) (x : ℕ) (prefix : List ℕ) (n : Node) (d : ℕ)
    → present (λ p. count_at p n) prefix (combos (suc d) (x ∷ form))
      ≡ first_groups form x prefix n d ++ present (λ p. count_at p n) prefix (combos (suc d) form)
unfolding combos first_groups
present-step form x prefix n d =
    present-append (λ p. count_at p n) prefix (map (◌∷◌ x) (combos d form)) _

pub added-append :
    (s j : ℕ) (a b : List NodeEntry) → added s j (a ++ b) ≡ added s j a ++ added s j b
unfolding added
added-append s j a b = ground arith

pub added-nil : (s j : ℕ) → added s j [] ≡ []
unfolding added
added-nil s j = ground arith

pub length-append_at :
    (i : ℕ) (e : NodeEntry) (groups : List (List NodeEntry))
    → length (append_at i e groups) ≡ length groups
unfolding append_at
length-append_at i e groups = length-set groups i _

pub get_or-append_at :
    (i j : ℕ) (e : NodeEntry) (groups : List (List NodeEntry))
    → i < length groups
    → get_or (append_at i e groups) j [] ≡ get_or groups j [] ++ (if i == j then e ∷ [] else [])
unfolding append_at
get_or-append_at i j e groups h = elim (ℕ_discrete i j) [
  | yes same ↦
      rw (← same, get_or-set groups i i (get_or groups i [] ++ e ∷ []) [] h, eq→== i i refl)
  | no other ↦
      rw (get_or-set groups i j (get_or groups i [] ++ e ∷ []) [] h, ne→== i j other, append-nil)
]

pub length-analyze_child :
    (s : ℕ) (numbers : List ℕ) (deeper : Node → List (List NodeEntry) → List (List NodeEntry))
    (o : Option Node) (groups : List (List NodeEntry))
    → ((c : Node) (g : List (List NodeEntry)) → length (deeper c g) ≡ length g)
    → length (analyze_child s numbers deeper o groups) ≡ length groups
unfolding analyze_child
length-analyze_child s numbers deeper none groups keeps = refl
length-analyze_child s numbers deeper (some c) groups keeps = keeps c _ ∙ length-set groups s _

pub length-analyze_build :
    (form : List ℕ) (s max_size : ℕ) (prefix : List ℕ) (n : Node) (groups : List (List NodeEntry))
    → length (analyze_build form s max_size prefix n groups) ≡ length groups
unfolding analyze_build
length-analyze_build [] s m prefix n groups = refl
length-analyze_build (x ∷ form) s m prefix n groups = elim (Bool-cases (s == m)) [
  | inl full ↦ rw (full, analyze_build)
  | inr more ↦
      rw (more, analyze_build)
        (length-analyze_build form s m prefix n _
          ∙ length-analyze_child s (prefix ++ x ∷ []) _ (lookup x n) groups
              (λ c g. length-analyze_build form (suc s) m (prefix ++ x ∷ []) c g))
]

pub present-empty :
    (f : List ℕ → ℕ) (prefix : List ℕ) (d : ℕ) → present f prefix (combos (suc d) []) ≡ []
unfolding present combos
present-empty f prefix d = refl

pub added-early : (s j : ℕ) (new : List NodeEntry) → j < s → added s j new ≡ []
unfolding added
added-early s j new h = rw (lt→ltb j s h)
