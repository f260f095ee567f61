-- ===== src/Manager/Answers.antt =====
-- Archive of internal/services/lottery_manager.go without other calls between its sections: what it
-- answers, and what it leaves in the cache.
use mathlib.Core.Path.{subst}
use mathlib.Core.Option.{some-injective, none-ne-some}
use native.Mathlib.Decide.{ℕ_discrete}
use stat_tree_server.Base.{
  ℕ, ◌≤◌, ◌≡◌, refl, ap, ◌∙◌, false, List, [], ◌∷◌, Option, none, some, arith, length, Bool-cases,
  inl, inr, eq→==, ne→==, Option-cases,
}
use stat_tree_server.Manager.{normalize_window}
use stat_tree_server.Manager.Keys.{same_key-path, find-deleted, length-delete}
use stat_tree_server.Manager.Cache.{
  Key, same_key, find_key, LotteryManager, CacheEntry, Answer, found, error, blocked, Loaded, built,
  failed, answer_of, window_key, access, archive, touch, finish_load, add_entry, store,
}
use stat_tree_server.Manager.Sound.{IsWell, IsBuilt, IsValid}
use stat_tree_server.Manager.Sections.{touch-IsWell, finish-built, finish-failed}
use stat_tree_server.Manager.Trim.{IsIdle, IsRoomy, trim-IsRoomy}

module _ {A : Type 0} (P : Key → A → Type 0) where
  -- The cache is in order, has at most eight entries, and none is in flight.
  pub record IsCache (m : LotteryManager A) : Type 0 where
    pub well : IsWell P m
    pub bound : length m.cache ≤ 8
    pub idle : IsIdle m

  valid_found :
      (k : Key) (e : ℕ) (m : LotteryManager A) (cache : List (Key × ℕ))
      → IsIdle m
      → IsValid P m.entries cache
      → find_key k cache ≡ some e
      → IsBuilt P k (m.entries e).arch
  valid_found k e m [] idle v h = absurd (none-ne-some _ h)
  valid_found k e m ((i, x) ∷ cache) idle v h = elim (Bool-cases (same_key i k)) [
    | inl s ↦
        let x_e = some-injective _ _ (rw s at h) in
        subst (λ y. IsBuilt P k (m.entries y).arch) x_e
          (subst (λ j. IsBuilt P j (m.entries x).arch) (same_key-path i k s) (v.0 (idle x)))
    | inr n ↦ valid_found k e m cache idle v.1 (rw n at h)
  ]

  -- The cache holds the archive under the key.
  abbrev pub Holds : LotteryManager A → Key → A → Type 0
  Holds m k a = (e : ℕ) × (find_key k m.cache ≡ some e) × ((m.entries e).arch ≡ some a)

  -- What Archive has done, by its answer: a found archive is one for the key and is held; an error
  -- is that of the build, and then nothing is held under the key.
  abbrev pub IsAnswered : Key → Loaded A → Answer A × LotteryManager A → Type 0
  IsAnswered k b (found none, m) = ⊥
  IsAnswered k b (found (some a), m) = P k a × Holds m k a × IsCache m
  IsAnswered k b (error text, m) = (b ≡ failed text) × (find_key k m.cache ≡ none) × IsCache m
  IsAnswered k b (blocked, m) = ⊥

  hit-IsAnswered :
      (k : Key) (b : Loaded A) (e : ℕ) (m : LotteryManager A) (o : Option A)
      → find_key k m.cache ≡ some e
      → (m.entries e).arch ≡ o
      → IsBuilt P k o
      → IsCache m
      → IsAnswered k b (found o, touch e m)
  unfolding touch
  hit-IsAnswered k b e m none at_key arch good c = good
  hit-IsAnswered k b e m (some a) at_key arch good c = (
    good,
    (e, at_key, arch),
    record { well = touch-IsWell P k e m at_key c.well; bound = c.bound; idle = c.idle },
  )

  -- Nothing is in flight when the new entry is written.
  idle_after :
      (k : Key) (from to : ℕ) (m0 m : LotteryManager A) (v : CacheEntry A)
      → IsIdle m0
      → v.loading ≡ false
      → IsRoomy P k m0.next_id (add_entry k from to m0).entries m
      → (x : ℕ) → (store m.entries m0.next_id v x).loading ≡ false
  unfolding add_entry
  idle_after k from to m0 m v idle v_idle r x = elim (ℕ_discrete x m0.next_id) [
    | yes same ↦ rw (eq→== x m0.next_id same) v_idle
    | no other ↦
        let n = ne→== x m0.next_id other in
        rw n (ap (λ f. (f x).loading) r.same_entries ∙ rw n (idle x))
  ]

  miss-IsAnswered :
      (k : Key) (b : Loaded A) (from to : ℕ) (m0 m : LotteryManager A)
      → IsIdle m0
      → ((a : A) → b ≡ built a → P k a)
      → IsRoomy P k m0.next_id (add_entry k from to m0).entries m
      → IsAnswered k b (answer_of b, finish_load k m0.next_id b m)
  unfolding finish_load
  miss-IsAnswered k (built a) from to m0 m idle builds r = (
    builds a refl,
    (m0.next_id, r.at_key, rw (eq→== m0.next_id m0.next_id refl) refl),
    record {
      well = finish-built P k m0.next_id a m r.at_key (builds a refl) r.well;
      bound = r.bound;
      idle = idle_after k from to m0 m _ idle refl r;
    },
  )
  miss-IsAnswered k (failed text) from to m0 m idle builds r = (
    refl,
    find-deleted k m.cache,
    record {
      well = finish-failed P k m0.next_id text m r.at_key r.well;
      bound = omega (arith, length-delete k m.cache, r.bound);
      idle = idle_after k from to m0 m _ idle refl r;
    },
  )

  -- Archive answers with the archive of the cache or of the build, or with the error of the build.
  pub archive-IsAnswered :
      (build : ℕ → ℕ → Loaded A) (from to : ℕ) (m : LotteryManager A)
      → (let (lo, hi) = normalize_window from to in
          (a : A) → build lo hi ≡ built a → P (window_key lo hi) a)
      → IsCache m
      → (let (lo, hi) = normalize_window from to in
          IsAnswered (window_key lo hi) (build lo hi) (archive build from to m))
  unfolding archive access
  archive-IsAnswered build from to m builds c =
      let (lo, hi) = normalize_window from to in
      elim (Option-cases (find_key (window_key lo hi) m.cache)) [
        | inl e ↦ rw e (
            miss-IsAnswered (window_key lo hi) (build lo hi) lo hi m _ c.idle builds
              (trim-IsRoomy P (window_key lo hi) lo hi m c.bound c.idle e c.well))
        | inr (i, e) ↦
            rw (e, c.idle i)
              (hit-IsAnswered (window_key lo hi) (build lo hi) i m (m.entries i).arch e refl
                (valid_found (window_key lo hi) i m m.cache c.idle c.well.1.valid e) c)
      ]
