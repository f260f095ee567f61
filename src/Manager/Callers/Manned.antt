-- ===== src/Manager/Callers/Manned.antt =====
-- The loads in flight of LotteryManager in internal/services/lottery_manager.go, while calls run side
-- by side: each has one call.
use mathlib.Core.Path.{fun_ext}
use mathlib.Core.Option.{some-injective, none-ne-some}
use native.Mathlib.Decide.{ℕ_discrete}
use stat_tree_server.Base.{
  ℕ, suc, ◌<◌, ◌≡◌, ◌≢◌, refl, sym, ap, ◌∙◌, true, false, Option, none, some, inl, inr, arith,
  Bool-cases, ◌==◌, eq→==, ne→==, clash, if◌then◌else◌,
}
use stat_tree_server.Manager.Cache.{CacheEntry, store}
use stat_tree_server.Manager.Sections.{store_self}
use stat_tree_server.Manager.Callers.{
  Caller, idle, calling, holding, selecting, listening, stranded, hitting, building, finishing,
  returned, update,
}
use stat_tree_server.Manager.Callers.Loads.{store_other}

-- The entry that a call loads.
abbrev pub load_of : {A : Type 0} → Caller A → Option ℕ
load_of idle = none
load_of (calling from to) = none
load_of (holding e) = none
load_of (selecting e) = none
load_of (listening e) = none
load_of stranded = none
load_of (hitting e) = none
load_of (building e from to) = some e
load_of (finishing e from to result) = some e
load_of (returned a) = none

abbrev pub loads : {A : Type 0} → (ℕ → Caller A) → ℕ → Option ℕ
loads callers i = load_of (callers i)

abbrev pub put : (ℕ → Option ℕ) → ℕ → Option ℕ → ℕ → Option ℕ
put f i o j = if j == i then o else f j

pub loads-update :
    {A : Type 0} (callers : ℕ → Caller A) (i : ℕ) (p : Caller A)
    → loads (update callers i p) ≡ put (loads callers) i (load_of p)
loads-update callers i p =
    fun_ext λ j. elim (Bool-cases (j == i)) [ inl same ↦ rw same refl | inr other ↦ rw other refl ]

pub put_same : (f : ℕ → Option ℕ) (i : ℕ) (o : Option ℕ) → o ≡ f i → put f i o ≡ f
put_same f i o same = fun_ext λ j. elim (ℕ_discrete j i) [
  | yes at_i ↦ rw (eq→== j i at_i) (same ∙ ap f (sym at_i))
  | no other ↦ rw (ne→== j i other) refl
]

put_other : (f : ℕ → Option ℕ) (i : ℕ) (o : Option ℕ) (j : ℕ) → j ≢ i → put f i o j ≡ f j
put_other f i o j other = rw (ne→== j i other) refl

put_at : (f : ℕ → Option ℕ) (i : ℕ) (o : Option ℕ) (j : ℕ) → j ≡ i → put f i o j ≡ o
put_at f i o j same = rw (eq→== j i same) refl

-- Each entry in flight is loaded by a call, each call that loads has an entry in flight, and no
-- other call has the same.
pub record IsManned {A : Type 0} (entries : ℕ → CacheEntry A) (next_id : ℕ) (f : ℕ → Option ℕ)
    : Type 0 where
  pub manned : (e : ℕ) → (entries e).loading ≡ true → (i : ℕ) × (f i ≡ some e)
  pub flying : (i e : ℕ) → f i ≡ some e → ((entries e).loading ≡ true) × (e < next_id)
  pub alone : (i j e : ℕ) → f i ≡ some e → f j ≡ some e → i ≡ j

module _ {A : Type 0} where
  -- A call starts to load a new entry.
  pub start-IsManned :
      (entries : ℕ → CacheEntry A) (n : ℕ) (f : ℕ → Option ℕ) (i : ℕ) (v : CacheEntry A)
      → f i ≡ none
      → v.loading ≡ true
      → IsManned entries n f
      → IsManned (store entries n v) (suc n) (put f i (some n))
  start-IsManned entries n f i v none_yet busy h = record {
    manned = λ e fly. elim (ℕ_discrete e n) [
      | yes at_n ↦ (i, put_at f i (some n) i refl ∙ ap some (sym at_n))
      | no other ↦
          let (j, at_j) =
            h.manned e (sym (ap (λ r. r.loading) (store_other entries n v e other)) ∙ fly) in
          (
            j,
            put_other f i (some n) j
                  (λ same. none-ne-some _ (sym none_yet ∙ ap f (sym same) ∙ at_j))
                ∙ at_j,
          )
    ];
    flying = λ j e at_j. elim (ℕ_discrete j i) [
      | yes same ↦
          let e_n : n ≡ e = some-injective _ _ (sym (put_at f i (some n) j same) ∙ at_j) in
          (
            ap (λ x. (store entries n v x).loading) (sym e_n)
                ∙ ap (λ r. r.loading) (store_self entries n v)
                ∙ busy,
            omega arith,
          )
      | no other ↦
          let (fly, below) = h.flying j e (sym (put_other f i (some n) j other) ∙ at_j) in
          (ap (λ r. r.loading) (store_other entries n v e (λ same. omega arith)) ∙ fly, omega arith)
    ];
    alone = λ j k e at_j at_k. elim (ℕ_discrete j i) [
      | yes same ↦ elim (ℕ_discrete k i) [
        | yes same' ↦ same ∙ sym same'
        | no other ↦ absurd (fresh j k e same other at_j at_k)
      ]
      | no other ↦ elim (ℕ_discrete k i) [
        | yes same ↦ absurd (fresh k j e same other at_k at_j)
        | no other' ↦
            h.alone j k e (sym (put_other f i (some n) j other) ∙ at_j)
              (sym (put_other f i (some n) k other') ∙ at_k)
      ]
    ];
  }
    where
      fresh :
          (j k e : ℕ)
          → j ≡ i
          → k ≢ i
          → put f i (some n) j ≡ some e
          → put f i (some n) k ≡ some e
          → ⊥
      fresh j k e same other at_j at_k =
          let e_n : n ≡ e = some-injective _ _ (sym (put_at f i (some n) j same) ∙ at_j) in
          let below = (h.flying k e (sym (put_other f i (some n) k other) ∙ at_k)).1 in omega arith

  -- A call ends its load.
  pub end-IsManned :
      (entries : ℕ → CacheEntry A) (n : ℕ) (f : ℕ → Option ℕ) (i e : ℕ) (v : CacheEntry A)
      → f i ≡ some e
      → v.loading ≡ false
      → IsManned entries n f
      → IsManned (store entries e v) n (put f i none)
  end-IsManned entries n f i e v at_i over h = record {
    manned = λ x fly. elim (ℕ_discrete x e) [
      | yes at_e ↦ absurd (
          clash fly (
            ap (λ y. (store entries e v y).loading) at_e
            ∙ ap (λ r. r.loading) (store_self entries e v)
            ∙ over))
      | no other ↦
          let (j, at_j) =
            h.manned x (sym (ap (λ r. r.loading) (store_other entries e v x other)) ∙ fly) in
          (
            j,
            put_other f i none j (λ same. other (some-injective _ _ (sym at_j ∙ ap f same ∙ at_i)))
                ∙ at_j,
          )
    ];
    flying = λ j x at_j. elim (ℕ_discrete j i) [
      | yes same ↦ absurd (none-ne-some _ (sym (put_at f i none j same) ∙ at_j))
      | no other ↦
          let was = sym (put_other f i none j other) ∙ at_j in
          let (fly, below) = h.flying j x was in
          (
            ap (λ r. r.loading)
                  (store_other entries e v x
                    (λ same. other (h.alone j i x was (at_i ∙ ap some (sym same)))))
                ∙ fly,
            below,
          )
    ];
    alone = λ j k x at_j at_k. elim (ℕ_discrete j i) [
      | yes same ↦ absurd (none-ne-some _ (sym (put_at f i none j same) ∙ at_j))
      | no other ↦ elim (ℕ_discrete k i) [
        | yes same ↦ absurd (none-ne-some _ (sym (put_at f i none k same) ∙ at_k))
        | no other' ↦
            h.alone j k x (sym (put_other f i none j other) ∙ at_j)
              (sym (put_other f i none k other') ∙ at_k)
      ]
    ];
  }
