-- ===== src/Memory/Tree/Mapping.antt =====
-- mm.c: `map_frame_to_adr` maps its page and keeps every other walk.
use smp_boot.Base.{
  ℕ, suc, ◌^◌, ◌≤◌, ◌<◌, ◌≡◌, ◌≢◌, refl, some, arith, Bool-cases, Option-cases, inl, inr, ap, ◌∙◌,
  sym, List, [], ◌∷◌, length,
}
use mathlib.Core.Path.{subst}
use native.Mathlib.Decide.{ℕ_discrete}
use smp_boot.Memory.Freemap.{max_frames}
use smp_boot.Memory.Freemap.Scan.{IsShift}
use smp_boot.Memory.Paging.{Machine, Arch, window, enter_table, map_page}
use smp_boot.Memory.Tree.{view, lookup}
use smp_boot.Memory.Tree.Lookup.{lookup-same, IsTree-same}
use smp_boot.Memory.Tree.Enter.{HasTree, Entered, enter_table-Entered}
use smp_boot.Memory.Tree.Path.{
  map_path, Mapped, lookup-blank, view-map_page_other, view-map_page_old, view-map_page_new,
}

module _ (arch : Arch) (one_shl : ℕ → ℕ) (frame flags : ℕ)
    (small : frame < 2 ^ arch.frame_bits) where
  freemap-map_page : (i : ℕ) (m : Machine) → (map_page arch frame i flags m).freemap ≡ m.freemap
  unfolding map_page
  freemap-map_page i m = ground arith

  pd1-map_page : (i : ℕ) (m : Machine) → (map_page arch frame i flags m).pd1 ≡ m.pd1
  unfolding map_page
  pd1-map_page i m = ground arith

  others-map_page :
      (m : Machine) (i s : ℕ) (js : List ℕ)
      → length js ≡ 1
      → (s ≡ window arch m → js ≢ i ∷ [])
      → lookup (view arch (map_page arch frame i flags m)) s js ≡ lookup (view arch m) s js
  others-map_page m i s [] l apart = refl
  others-map_page m i s (k ∷ l ∷ ks) l' apart = absurd (omega arith)
  others-map_page m i s (k ∷ []) l apart =
      let beside : s ≡ window arch m → k ≢ i = λ here at. apart here (ap (λ n. n ∷ []) at) in
      rw (view-map_page_other arch one_shl frame i flags m s k beside)

  -- The last level.
  map_page-Mapped :
      {rank : ℕ → ℕ} (m : Machine) (i : ℕ)
      → HasTree arch one_shl rank m
      → rank (window arch m) ≡ 1
      → Mapped arch one_shl rank m (window arch m) (i ∷ []) frame (map_page arch frame i flags m)
  map_page-Mapped {rank} m i has low =
      let t = window arch m in
      let m' = map_page arch frame i flags m in
      record {
        rank' = rank;
        has = record {
          tree =
              IsTree-same (view arch m) (view arch m')
                (λ s j h.
                  view-map_page_other arch one_shl frame i flags m s j
                    (λ e. absurd (omega (arith, ap rank e))))
                has.tree;
          window_rank = has.window_rank;
          valid = rw (freemap-map_page i m) has.valid;
          free_rank = rw (freemap-map_page i m) has.free_rank;
        };
        pd1_same = pd1-map_page i m;
        free_kept = rw (freemap-map_page i m) (λ g free. free);
        rank_kept = λ s h. refl;
        above = λ s j h other.
            view-map_page_other arch one_shl frame i flags m s j (λ e. absurd (other e));
        others = λ s js r l apart. others-map_page m i s js l apart;
        new_page = λ absent. elim (Bool-cases (view arch m t i).p) [
          | inl present ↦ absurd (ground arith)
          | inr missing ↦
              let (present, names) = view-map_page_new arch one_shl frame i flags m small missing in
              (view arch m' t i, rw present, names)
        ];
        old_page = λ e found. elim (Bool-cases (view arch m t i).p) [
          | inl present ↦ rw (view-map_page_old arch one_shl frame i flags m present) found
          | inr missing ↦ absurd (ground arith)
        ];
      }

  rank-window :
      {rank : ℕ → ℕ} {m m1 : Machine} {t i n : ℕ} (level : Entered arch one_shl rank m t i m1)
      → rank t ≡ suc (suc n)
      → level.rank' (window arch m1) ≡ suc n
  rank-window {t} {i} level top =
      let kept = level.rank_kept t (omega arith) in
      let up = level.has.tree.child t i (omega arith) level.present in rw level.shown (omega arith)

  -- One level, and the levels below it.
  module _ {rank : ℕ → ℕ} {m m1 m' : Machine} {t i j : ℕ} {is : List ℕ}
      (has : HasTree arch one_shl rank m) (top : rank t ≡ length (i ∷ j ∷ is))
      (level : Entered arch one_shl rank m t i m1)
      (rest : Mapped arch one_shl level.rank' m1 (window arch m1) (j ∷ is) frame m') where
    below : level.rank' (window arch m1) ≡ length (j ∷ is)
    below = rank-window level top

    not_below : (s : ℕ) → length (i ∷ j ∷ is) ≤ rank s → s ≢ window arch m1
    not_below s high e = omega (arith, below, level.rank_kept s (omega arith), ap level.rank' e)

    entry_kept : (s k : ℕ) → length (i ∷ j ∷ is) ≤ rank s → view arch m' s k ≡ view arch m1 s k
    entry_kept s k high =
        rest.above s k (omega (arith, level.rank_kept s (omega arith))) (not_below s high)

    lower_same :
        (ks : List ℕ) (s : ℕ)
        → rank s ≡ length ks
        → length ks ≡ length (j ∷ is)
        → lookup (view arch m1) s ks ≡ lookup (view arch m) s ks
    lower_same ks s r l =
        lookup-same (view arch m) (view arch m1) has.tree ks s r
          (λ u n low high. level.kept u n low (λ e. absurd (omega (arith, ap rank e))))

    -- From the table of this level through its entry.
    through :
        (ks : List ℕ)
        → length ks ≡ length (j ∷ is)
        → lookup (view arch m') t (i ∷ ks) ≡ lookup (view arch m') (window arch m1) ks
    through [] l = absurd (omega arith)
    through (k ∷ ks) l =
        let same : view arch m' t i ≡ view arch m1 t i = entry_kept t i (omega arith) in
        rw (same, level.present, level.shown)

    into :
        (ks : List ℕ)
        → length ks ≡ length (j ∷ is)
        → lookup (view arch m1) (window arch m1) ks ≡ lookup (view arch m) t (i ∷ ks)
    into [] l = absurd (omega arith)
    into (k ∷ ks) l = elim (Bool-cases (view arch m t i).p) [
      | inl present ↦
          let shows : window arch m1 ≡ (view arch m t i).frame =
            level.shown ∙ ap (λ e. e.frame) (level.old present) in
          let low = has.tree.child t i (omega arith) present in
          rw (present, shows) (lower_same (k ∷ ks) (view arch m t i).frame (omega arith) l)
      | inr absent ↦
          rw absent (lookup-blank (view arch m1) (window arch m1) k ks (level.fresh absent k))
    ]

    -- Through another entry of this rank.
    beside :
        (s k : ℕ) (ks : List ℕ)
        → rank s ≡ length (i ∷ j ∷ is)
        → length ks ≡ length (j ∷ is)
        → (s ≡ t → k ≢ i)
        → lookup (view arch m') s (k ∷ ks) ≡ lookup (view arch m) s (k ∷ ks)
    beside s k [] r l apart = absurd (omega arith)
    beside s k (n ∷ ks) r l apart =
        let once : view arch m1 s k ≡ view arch m s k = level.kept s k (omega arith) apart in
        let same : view arch m' s k ≡ view arch m s k = entry_kept s k (omega arith) ∙ once in
        rw same (elim (Bool-cases (view arch m s k).p) [
          | inr absent ↦ rw absent
          | inl present ↦
              let c = (view arch m s k).frame in
              let low = has.tree.child s k (omega arith) present in
              let other : c ≢ window arch m1 = λ e.
                let (here, at) =
                  level.has.tree.unique s k t i (omega (arith, level.rank_kept s (omega arith)))
                    (omega (arith, level.rank_kept t (omega arith))) (ap (λ e. e.p) once ∙ present)
                    level.present (ap (λ e. e.frame) once ∙ e ∙ level.shown) in
                absurd (apart here at) in
              rw present (
                rest.others c (n ∷ ks) (omega (arith, level.rank_kept c (omega arith))) l
                  (λ e. absurd (other e))
                ∙ lower_same (n ∷ ks) c (omega arith) l)
        ])

    others_below :
        (s : ℕ) (js : List ℕ)
        → rank s ≡ length (i ∷ j ∷ is)
        → length js ≡ length (i ∷ j ∷ is)
        → (s ≡ t → js ≢ i ∷ j ∷ is)
        → lookup (view arch m') s js ≡ lookup (view arch m) s js
    others_below s [] r l apart = absurd (omega arith)
    others_below s (k ∷ ks) r l apart = elim (ℕ_discrete s t) [
      | no other ↦ beside s k ks r (omega arith) (λ e. absurd (other e))
      | yes here ↦ elim (ℕ_discrete k i) [
        | no next ↦ beside s k ks r (omega arith) (λ _. next)
        | yes at ↦
            let tail : ks ≢ j ∷ is = λ e. apart here (cc) in
            subst (λ u. lookup (view arch m') u (k ∷ ks) ≡ lookup (view arch m) u (k ∷ ks))
              (sym here)
              (subst (λ n. lookup (view arch m') t (n ∷ ks) ≡ lookup (view arch m) t (n ∷ ks))
                (sym at)
                (through ks (omega arith)
                  ∙ rest.others (window arch m1) ks below (omega arith) (λ _. tail)
                  ∙ into ks (omega arith)))
      ]
    ]

    level-Mapped : Mapped arch one_shl rank m t (i ∷ j ∷ is) frame m'
    level-Mapped = record {
      rank' = rest.rank';
      has = rest.has;
      pd1_same = rest.pd1_same ∙ level.pd1_same;
      free_kept = λ g free. level.free_kept g (rest.free_kept g free);
      rank_kept = λ s h. let once = level.rank_kept s h in rest.rank_kept s (omega arith) ∙ once;
      above = λ s k high other.
          entry_kept s k high ∙ level.kept s k (omega arith) (λ e. absurd (other e));
      others = others_below;
      new_page = λ absent.
          let (e, found, names) = rest.new_page (into (j ∷ is) refl ∙ absent) in
          (e, through (j ∷ is) refl ∙ found, names);
      old_page = λ e found. through (j ∷ is) refl ∙ rest.old_page e (into (j ∷ is) refl ∙ found);
    }

  module _ (shift : IsShift arch.ulong_bits one_shl) (room : max_frames ≤ 2 ^ arch.frame_bits) where
    pub map_path-Mapped :
        (is : List ℕ) {rank : ℕ → ℕ} (m : Machine) (t : ℕ) {m' : Machine}
        → HasTree arch one_shl rank m
        → rank t ≡ length is
        → 0 < length is
        → (rank t ≡ 1 → window arch m ≡ t)
        → map_path arch one_shl frame flags t is m ≡ some m'
        → Mapped arch one_shl rank m t is frame m'
    unfolding map_path
    map_path-Mapped [] m t has top some_level shown e = absurd (omega arith)
    map_path-Mapped (i ∷ []) {rank} m t {m'} has top some_level shown e =
        let at = shown top in
        let done : map_page arch frame i flags m ≡ m' = cc in
        subst (λ u. Mapped arch one_shl rank m u (i ∷ []) frame m') at
          (subst (Mapped arch one_shl rank m (window arch m) (i ∷ []) frame) done
            (map_page-Mapped m i has (rw at top)))
    map_path-Mapped (i ∷ j ∷ is) {rank} m t {m'} has top some_level shown e =
        elim (Option-cases (enter_table arch one_shl t i m)) [
          | inl halted ↦ absurd (ground arith)
          | inr (m1, entered) ↦
              let level =
                enter_table-Entered arch one_shl shift room m t i has (omega arith) entered in
              let more : map_path arch one_shl frame flags (window arch m1) (j ∷ is) m1 ≡ some m' =
                ground arith in
              level-Mapped has top level (
                map_path-Mapped (j ∷ is) m1 (window arch m1) level.has (rank-window level top)
                  (omega arith) (λ _. refl) more)
        ]
