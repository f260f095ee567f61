-- ===== src/Analyze/Frequency.antt =====
-- AnalyzeArray of internal/lottery-tree/lottery_archive.go against the draws.
use stat_tree_server.Base.{
  ℕ, zero, suc, ◌+◌, ◌-◌, ◌≤◌, ◌<◌, ◌≡◌, ◌≢◌, refl, ◌∙◌, ap, Bool, true, false, ◌&&◌, List, [], ◌∷◌,
  map, some, arith, length, ltb, leb, if◌then◌else◌, get_or, All, All-map, Bool-cases, Option-cases,
  inl, inr, le→ltb,
}
use stat_tree_server.Base.Sort.{sort_stable}
use stat_tree_server.Combos.Spec.{combos, combos-length, range}
use stat_tree_server.Tree.{
  Node, node, num, slot, size, Slots, end, empty, child, NodeEntry, lookup, build, new_tree,
}
use stat_tree_server.Tree.Groups.{count_at, IsGroup}
use stat_tree_server.Tree.Sized.{IsSized, slot-IsSized, build-IsSized}
use stat_tree_server.Tree.Present.{present, present-agree}
use stat_tree_server.Tree.Frequency.{Ascends, frequency, build-frequency}
use stat_tree_server.Analyze.{
  FrequencyGroup, AnalyzeResponse, max_group_size, more_frequent, analyze_build, analyze_array,
  group_of,
}
use stat_tree_server.Analyze.Counts.{added, count_at-lookup, count_at-missing}
use stat_tree_server.Analyze.Adds.{analyze_build-Adds}

-- Whether a list is an ascending group of numbers above `lo` and up to `top`.
unfoldable pub is_group : ℕ → ℕ → List ℕ → Bool
is_group top lo [] = true
is_group top lo (x ∷ p) = ltb lo x && leb x top && is_group top x p

is_group-IsGroup : (top lo : ℕ) (p : List ℕ) → is_group top lo p ≡ true → IsGroup top lo p
unfolding is_group
is_group-IsGroup top lo [] h = tt
is_group-IsGroup top lo (x ∷ p) h =
    (ground arith, ground arith, is_group-IsGroup top x p (ground arith))

slot-lt-size : (s : Slots) (i : ℕ) {c : Node} → slot s i ≡ some c → i < size s
unfolding slot size
slot-lt-size end i e = cc
slot-lt-size (empty s) zero e = cc
slot-lt-size (child n s) zero e = omega arith
slot-lt-size (empty s) (suc i) e = omega (arith, slot-lt-size s i e)
slot-lt-size (child n s) (suc i) e = omega (arith, slot-lt-size s i e)

lookup-number :
    (top x : ℕ) (n : Node) (c : Node)
    → IsSized top n
    → lookup x n ≡ some c
    → (num n < x) × (x ≤ top) × (num c ≡ x) × IsSized top c
unfolding lookup
lookup-number top x (node n k s) c h e = elim (Bool-cases (ltb n x)) [
  | inl above ↦
      let found = rw above at e in
      let (number, seen, sized) = slot-IsSized top (suc n) s (x - n - 1) h.1 found in
      let low : n < x = ground arith in
      (low, omega (arith, slot-lt-size s (x - n - 1) found), omega arith, sized)
  | inr below ↦ cc (rw below at e)
]

-- The tree counts nothing but ascending groups in range.
count_at-unordered :
    (top : ℕ) (p : List ℕ) (n : Node)
    → IsSized top n
    → is_group top (num n) p ≡ false
    → count_at p n ≡ 0
unfolding is_group
count_at-unordered top [] n h e = cc
count_at-unordered top (x ∷ p) n h e = elim (Option-cases (lookup x n)) [
  | inl absent ↦ count_at-missing x p n absent
  | inr (c, found) ↦
      let (low, high, number, sized) = lookup-number top x n c h found in
      count_at-lookup x p n found ∙ count_at-unordered top p c sized (rw number (ground arith))
]

-- How many draws hold the group, for an ascending group in range, and 0 for any other list.
unfoldable pub group_frequency : ℕ → List (List ℕ) → List ℕ → ℕ
group_frequency top draws p = if is_group top 0 p then frequency p draws else 0

-- What an analysis of a form should say of a size: every subsequence of the form that is an
-- ascending group of some draw, with the number of such draws, most frequent first.
unfoldable pub analysis_group : ℕ → List (List ℕ) → List ℕ → ℕ → FrequencyGroup
analysis_group top draws form i = record {
  size = suc i;
  combos = 0;
  entries =
      sort_stable more_frequent (present (group_frequency top draws) [] (combos (suc i) form));
}

-- The analysis says so for each size up to six.
unfoldable pub analysis : ℕ → List (List ℕ) → List ℕ → AnalyzeResponse
unfolding analysis_group
analysis top draws form = record {
  frequency_groups = map (analysis_group top draws form) (range 0 max_group_size);
  archive_size = length draws;
}

pub map-agree {ℓ} :
    {A : Type ℓ} (f g : ℕ → A) (xs : List ℕ) → All (λ x. f x ≡ g x) xs → map f xs ≡ map g xs
map-agree f g [] h = refl
map-agree f g (x ∷ xs) h = rw (h.0, map-agree f g xs h.1)

pub range-lt : (i n top : ℕ) → i + n ≤ top → All (λ j. j < top) (range i n)
unfolding range
range-lt i zero top h = tt
range-lt i (suc n) top h = (omega arith, range-lt (suc i) n top (omega arith))

blank : ℕ → ℕ → List (List NodeEntry)
blank i n = map (λ _. []) (range i n)

get_or-blank : (i n j : ℕ) → get_or (blank i n) j [] ≡ []
unfolding blank range
get_or-blank i zero j = refl
get_or-blank i (suc n) zero = refl
get_or-blank i (suc n) (suc j) = get_or-blank (suc i) n j

length-blank : (i n : ℕ) → length (blank i n) ≡ n
unfolding blank range
length-blank i zero = refl
length-blank i (suc n) = ap suc (length-blank (suc i) n)

build_calls-build :
    (top k : ℕ) (draws : List (List ℕ)) → (build (new_tree top) draws k).build_calls ≡ length draws
unfolding build
build_calls-build top k draws = refl

count_at-group_frequency :
    (top k : ℕ) (draws : List (List ℕ)) (p : List ℕ)
    → top ≢ 3
    → 6 ≤ k
    → All (Ascends 0) draws
    → 0 < length p
    → length p ≤ 6
    → count_at p (build (new_tree top) draws k).anchor ≡ group_frequency top draws p
unfolding group_frequency
count_at-group_frequency top k draws [] other deep asc some_number fits = absurd (omega arith)
count_at-group_frequency top k draws (x ∷ p) other deep asc some_number fits =
    let (number, sized) = build-IsSized top k draws other in
    elim (Bool-cases (is_group top 0 (x ∷ p))) [
      | inl e ↦ rw e (
          build-frequency top k draws x p other asc (is_group-IsGroup top 0 (x ∷ p) e)
            (omega arith))
      | inr e ↦ rw e (count_at-unordered top (x ∷ p) _ sized (rw number e))
    ]

group_of-analysis_group :
    (top k : ℕ) (draws : List (List ℕ)) (form : List ℕ) (i : ℕ)
    → top ≢ 3
    → 6 ≤ k
    → All (Ascends 0) draws
    → i < 6
    → group_of (analyze_build form 0 6 [] (build (new_tree top) draws k).anchor (blank 0 6)) i
      ≡ analysis_group top draws form i
unfolding group_of analysis_group added
group_of-analysis_group top k draws form i other deep asc h =
    let (number, sized) = build-IsSized top k draws other in
    let same : i - 0 ≡ i = omega arith in
    ap (λ l. record { size = suc i; combos = 0; entries = sort_stable more_frequent l })
      (analyze_build-Adds top form 0 6 (omega arith) [] _ (blank 0 6) i sized
          (omega (arith, length-blank 0 6)) h
        ∙ rw (get_or-blank 0 6 i, same, le→ltb i 0 (omega arith))
            (present-agree _ _ [] _ (
              All-map _ _
                (λ p l.
                  count_at-group_frequency top k draws p other deep asc (omega arith) (omega arith))
                _ (combos-length (suc i) form))))

-- On strictly ascending draws, AnalyzeArray of a tree (whose top number is not 3) that is built to
-- at least six levels returns, for every form and each size up to six, exactly the subsequences of
-- the form that are ascending groups of some draw, each with the number of draws that hold it, most
-- frequent first.
pub analyze_array-analysis :
    (top k : ℕ) (draws : List (List ℕ)) (form : List ℕ)
    → top ≢ 3
    → 6 ≤ k
    → All (Ascends 0) draws
    → analyze_array (build (new_tree top) draws k) form max_group_size ≡ analysis top draws form
unfolding analyze_array analysis blank
analyze_array-analysis top k draws form other deep asc = rw (build_calls-build top k draws) (
    ap (λ l. record { frequency_groups = l; archive_size = length draws })
      (map-agree _ _ (range 0 6) (
        All-map _ _ (λ i h. group_of-analysis_group top k draws form i other deep asc h) (range 0 6)
          (range-lt 0 6 6 (omega arith)))))
