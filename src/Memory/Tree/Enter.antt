-- ===== src/Memory/Tree/Enter.antt =====
-- mm.c: one level of `map_frame_to_adr` on the tree of page tables.
use smp_boot.Base.{
  ℕ, ◌-◌, ◌^◌, ◌≤◌, ◌<◌, ◌≡◌, ◌≢◌, refl, true, false, some, arith, Bool-cases, Option-cases, inl,
  inr, ap, ◌∙◌,
}
use mathlib.Core.Path.{subst}
use smp_boot.Memory.Freemap.{Freemap, max_frames, frame_type_pt, is_free, get_free_frame}
use smp_boot.Memory.Freemap.Scan.{IsShift, IsValid}
use smp_boot.Memory.Freemap.Grants.{get_free_frame-Gives}
use smp_boot.Memory.Paging.{Entry, Machine, Arch, blank, window, map_temporary, enter_table}
use smp_boot.Memory.Translate.Laws.{window-map_temporary}
use smp_boot.Memory.Tree.{view, IsTree, link, set_rank}
use smp_boot.Memory.Tree.View.{
  view-map_temporary, freemap-map_temporary, pd1-map_temporary, view-upper, made, view-made,
  freemap-made, pd1-made, window-made, enter_table-made,
}
use smp_boot.Memory.Tree.Lookup.{link-IsTree, link-new, link-kept, link-fresh}

module _ (arch : Arch) (one_shl : ℕ → ℕ) where
  -- The machine's page tables form a tree, in which the window's table is a last level, and no
  -- frame of a table is free.
  pub record HasTree (rank : ℕ → ℕ) (m : Machine) : Type 0 where
    pub tree : IsTree arch.frame_bits rank (view arch m)
    pub window_rank : rank arch.tmp_table ≡ 1
    pub valid : IsValid m.freemap
    pub free_rank : (f : ℕ) → is_free arch.ulong_bits one_shl m.freemap.words f ≡ true → rank f ≡ 0

  -- What a level does: its entry names a table, which the window shows and which has no entries if
  -- it is new; every other entry stays.
  pub record Entered (rank : ℕ → ℕ) (m : Machine) (t i : ℕ) (m' : Machine) : Type 0 where
    pub rank' : ℕ → ℕ
    pub has : HasTree rank' m'
    pub pd1_same : m'.pd1 ≡ m.pd1
    pub free_kept :
        (f : ℕ)
        → is_free arch.ulong_bits one_shl m'.freemap.words f ≡ true
        → is_free arch.ulong_bits one_shl m.freemap.words f ≡ true
    pub present : (view arch m' t i).p ≡ true
    pub shown : window arch m' ≡ (view arch m' t i).frame
    pub rank_kept : (s : ℕ) → 1 ≤ rank s → rank' s ≡ rank s
    pub kept : (s j : ℕ) → 1 ≤ rank s → (s ≡ t → j ≢ i) → view arch m' s j ≡ view arch m s j
    pub old : (view arch m t i).p ≡ true → view arch m' t i ≡ view arch m t i
    pub fresh : (view arch m t i).p ≡ false → (j : ℕ) → view arch m' (window arch m') j ≡ blank

  module _ (shift : IsShift arch.ulong_bits one_shl) (room : max_frames ≤ 2 ^ arch.frame_bits) where
    enter_old :
        {rank : ℕ → ℕ} (m : Machine) (t i : ℕ)
        → HasTree rank m
        → 2 ≤ rank t
        → (m.table t i).p ≡ true
        → Entered rank m t i (map_temporary arch (m.table t i).frame m)
    enter_old {rank} m t i has high p =
        let f = (m.table t i).frame in
        let same : view arch (map_temporary arch f m) ≡ view arch m = view-map_temporary arch f m in
        let here : view arch m t i ≡ m.table t i =
          view-upper arch rank m t i has.window_rank high in
        let present : (view arch m t i).p ≡ true = ap (λ e. e.p) here ∙ p in
        let fits : f < 2 ^ arch.frame_bits =
          subst (λ (e : Entry). e.frame < 2 ^ arch.frame_bits) here
            (has.tree.fits t i high present) in
        record {
          rank' = rank;
          has = record {
            tree = rw same has.tree;
            window_rank = has.window_rank;
            valid = rw (freemap-map_temporary arch f m) has.valid;
            free_rank = rw (freemap-map_temporary arch f m) has.free_rank;
          };
          pd1_same = pd1-map_temporary arch f m;
          free_kept = rw (freemap-map_temporary arch f m) (λ g free. free);
          present = rw same present;
          shown = window-map_temporary arch f m fits ∙ rw (same, here);
          rank_kept = λ s h. refl;
          kept = λ s j h other. rw same;
          old = λ h. rw same;
          fresh = λ absent. absurd (ground (arith, present));
        }

    enter_new :
        {rank : ℕ → ℕ} (m : Machine) (t i f : ℕ) (freemap : Freemap)
        → HasTree rank m
        → 2 ≤ rank t
        → (m.table t i).p ≡ false
        → get_free_frame arch.ulong_bits one_shl frame_type_pt m.freemap ≡ some (f, freemap)
        → Entered rank m t i (made arch m freemap t i f)
    enter_new {rank} m t i f freemap has high absent given =
        let (was_free, taken, others, inside, valid) =
          get_free_frame-Gives shift frame_type_pt m.freemap has.valid given in
        let new : rank f ≡ 0 = has.free_rank f was_free in
        let small : f < 2 ^ arch.frame_bits = omega (arith, room, inside) in
        let other : f ≢ arch.tmp_table = λ e. omega (arith, ap rank e, has.window_rank) in
        let upper : t ≢ arch.tmp_table = λ e. omega (arith, ap rank e, has.window_rank) in
        let old : t ≢ f = λ e. omega (arith, ap rank e) in
        let after : view arch (made arch m freemap t i f) ≡ link (view arch m) t i f =
          view-made arch m freemap t i f small other upper in
        record {
          rank' = set_rank rank f (rank t - 1);
          has = record {
            tree = rw after (link-IsTree (view arch m) t i f has.tree high new small);
            window_rank = ground (arith, has.window_rank);
            valid = rw (freemap-made arch m freemap t i f) valid;
            free_rank = rw (freemap-made arch m freemap t i f) (λ g free. ground (
              arith,
              has.free_rank g,
              others g,
              ap (is_free arch.ulong_bits one_shl freemap.words) {x = g} {y = f},
            ));
          };
          pd1_same = pd1-made arch m freemap t i f;
          free_kept = rw (freemap-made arch m freemap t i f) others;
          present = rw (after, link-new (view arch m) t i f old);
          shown =
              rw (after, link-new (view arch m) t i f old)
                (window-made arch m freemap t i f small other);
          rank_kept = λ s h. ground arith;
          kept = λ s j h apart.
              rw after (link-kept (view arch m) t i f s j (λ e. omega (arith, ap rank e)) apart);
          old = λ h. absurd (ground (arith, view-upper arch rank m t i has.window_rank high));
          fresh = λ h j.
              rw (after, window-made arch m freemap t i f small other)
                (link-fresh (view arch m) t i f j);
        }

    pub enter_table-Entered :
        {rank : ℕ → ℕ} (m : Machine) (t i : ℕ) {m' : Machine}
        → HasTree rank m
        → 2 ≤ rank t
        → enter_table arch one_shl t i m ≡ some m'
        → Entered rank m t i m'
    unfolding enter_table
    enter_table-Entered {rank} m t i {m'} has high e = elim (Bool-cases (m.table t i).p) [
      | inl present ↦
          let same : map_temporary arch (m.table t i).frame m ≡ m' = ground arith in
          subst (Entered rank m t i) same (enter_old m t i has high present)
      | inr absent ↦
          elim (Option-cases (get_free_frame arch.ulong_bits one_shl frame_type_pt m.freemap)) [
            | inl halted ↦ absurd (ground arith)
            | inr ((f, freemap), given) ↦
                let same : made arch m freemap t i f ≡ m' =
                  cc (enter_table-made arch one_shl m t i f freemap absent given) in
                subst (Entered rank m t i) same (enter_new m t i f freemap has high absent given)
          ]
    ]
