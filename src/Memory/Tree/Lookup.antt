-- ===== src/Memory/Tree/Lookup.antt =====
-- mm.c: which entries a walk through the tree of page tables depends on.
use smp_boot.Base.{
  ◌-◌, ℕ, ◌+◌, ◌^◌, ◌≤◌, ◌<◌, ◌≡◌, ◌≢◌, ◌⊎◌, refl, true, false, List, [], ◌∷◌, ◌==◌, arith, length,
  Bool-cases, inl, inr, ap, ◌∙◌, sym,
}
use native.Mathlib.Decide.{ℕ_discrete}
use smp_boot.Memory.Paging.{Entry, blank}
use smp_boot.Memory.Tree.{lookup, IsTree, link, set_rank}

-- A walk reads only tables of the ranks on its way.
pub lookup-same :
    {bits : ℕ} {rank : ℕ → ℕ} (tables tables' : ℕ → ℕ → Entry)
    → IsTree bits rank tables
    → (is : List ℕ) (s : ℕ) → rank s ≡ length is
    → ((u j : ℕ) → 1 ≤ rank u → rank u ≤ length is → tables' u j ≡ tables u j)
    → lookup tables' s is ≡ lookup tables s is
lookup-same tables tables' tree [] s r same = refl
lookup-same tables tables' tree (i ∷ []) s r same = rw (same s i (omega arith) (omega arith))
lookup-same {rank} tables tables' tree (i ∷ j ∷ is) s r same =
    rw (same s i (omega arith) (omega arith)) (elim (Bool-cases (tables s i).p) [
      | inl present ↦ rw present (
          lookup-same tables tables' tree (j ∷ is) (tables s i).frame
            (omega (arith, tree.child s i (omega arith) present))
            (λ u k low high. same u k low (omega arith)))
      | inr absent ↦ rw absent
    ])

-- An entry that is present after `link` is the new one, or an old one of an old table.
link-cases :
    (tables : ℕ → ℕ → Entry) (t i f s j : ℕ)
    → (link tables t i f s j).p ≡ true
    → ((s ≡ t) × (j ≡ i) × ((link tables t i f s j).frame ≡ f))
      ⊎ ((s ≢ f) × ((tables s j).p ≡ true) × ((link tables t i f s j).frame ≡ (tables s j).frame))
link-cases tables t i f s j p = elim (ℕ_discrete s f) [
  | yes new ↦ absurd (ground arith)
  | no old ↦ elim (ℕ_discrete s t) [
    | no other ↦ inr (old, ground arith, ground arith)
    | yes here ↦ elim (ℕ_discrete j i) [
      | yes at ↦ inl (here, at, ground arith)
      | no beside ↦ inr (old, ground arith, ground arith)
    ]
  ]
]

pub link-new :
    (tables : ℕ → ℕ → Entry) (t i f : ℕ)
    → t ≢ f
    → link tables t i f t i ≡ record (tables t i) { p = true; rw = true; frame = f }
link-new tables t i f old =
    let other : (t == f) ≡ false = ground arith in
    let here : (t == t) ≡ true = ground arith in
    let at : (i == i) ≡ true = ground arith in rw (other, here, at)

pub link-kept :
    (tables : ℕ → ℕ → Entry) (t i f s j : ℕ)
    → s ≢ f
    → (s ≡ t → j ≢ i)
    → link tables t i f s j ≡ tables s j
link-kept tables t i f s j old beside = elim (ℕ_discrete s t) [
  | no other ↦ ground arith
  | yes here ↦ let next : j ≢ i = beside here in ground arith
]

pub link-fresh : (tables : ℕ → ℕ → Entry) (t i f j : ℕ) → link tables t i f f j ≡ blank
link-fresh tables t i f j = let new : (f == f) ≡ true = ground arith in rw new

-- A new table keeps the tree.
module _ {bits : ℕ} {rank : ℕ → ℕ} (tables : ℕ → ℕ → Entry) (t i f : ℕ)
    (tree : IsTree bits rank tables) (high : 2 ≤ rank t) (new : rank f ≡ 0) where
  abbrev rank' : ℕ → ℕ
  rank' = set_rank rank f (rank t - 1)

  abbrev tables' : ℕ → ℕ → Entry
  tables' = link tables t i f

  old_rank : (s : ℕ) → s ≢ f → rank' s ≡ rank s
  old_rank s other = ground arith

  new_rank : rank' f ≡ rank t - 1
  new_rank = ground arith

  child' :
      (s j : ℕ) → 2 ≤ rank' s → (tables' s j).p ≡ true → rank' (tables' s j).frame + 1 ≡ rank' s
  child' s j h p = elim (link-cases tables t i f s j p) [
    | inl (here, at, frame) ↦
        let apart : s ≢ f = λ e. omega (arith, ap rank e, ap rank here) in
        rw (frame, new_rank, old_rank s apart) (omega (arith, ap rank here))
    | inr (old, present, frame) ↦
        let same = old_rank s old in
        let up = tree.child s j (omega arith) present in
        let apart : (tables s j).frame ≢ f = λ e. omega (arith, ap rank e) in
        rw (frame, same, old_rank (tables s j).frame apart) up
  ]

  unique' :
      (s j s' j' : ℕ)
      → 2 ≤ rank' s
      → 2 ≤ rank' s'
      → (tables' s j).p ≡ true
      → (tables' s' j').p ≡ true
      → (tables' s j).frame ≡ (tables' s' j').frame
      → (s ≡ s') × (j ≡ j')
  unique' s j s' j' h h' p p' e = elim (link-cases tables t i f s j p) [
    | inl (here, at, frame) ↦ elim (link-cases tables t i f s' j' p') [
      | inl (here', at', frame') ↦ omega arith
      | inr (old', present', frame') ↦
          let up = tree.child s' j' (omega (arith, old_rank s' old')) present' in
          absurd (
            omega (
              arith,
              old_rank s' old',
              ap rank {x = (tables s' j').frame} {y = f} (sym frame' ∙ sym e ∙ frame),
            ))
    ]
    | inr (old, present, frame) ↦
        let up = tree.child s j (omega (arith, old_rank s old)) present in
        elim (link-cases tables t i f s' j' p') [
          | inl (here', at', frame') ↦ absurd (
              omega (
                arith,
                old_rank s old,
                ap rank {x = (tables s j).frame} {y = f} (sym frame ∙ e ∙ frame'),
              ))
          | inr (old', present', frame') ↦
              tree.unique s j s' j' (omega (arith, old_rank s old))
                (omega (arith, old_rank s' old')) present present' (sym frame ∙ e ∙ frame')
        ]
  ]

  pub link-IsTree : f < 2 ^ bits → IsTree bits rank' tables'
  link-IsTree small = record {
    child = child';
    unique = unique';
    plain = λ s j h. ground (arith, tree.plain s j, tree.plain t i);
    fits = λ s j h p. elim (link-cases tables t i f s j p) [
      | inl (here, at, frame) ↦ rw frame small
      | inr (old, present, frame) ↦ rw frame (tree.fits s j (omega (arith, old_rank s old)) present)
    ];
  }

-- Tables that agree above the last level form the same tree.
pub IsTree-same :
    {bits : ℕ} {rank : ℕ → ℕ} (tables tables' : ℕ → ℕ → Entry)
    → ((s j : ℕ) → 2 ≤ rank s → tables' s j ≡ tables s j)
    → IsTree bits rank tables
    → IsTree bits rank tables'
IsTree-same {rank} tables tables' same tree =
    let was : (s j : ℕ) → 2 ≤ rank s → (tables' s j).p ≡ true → (tables s j).p ≡ true =
      λ s j h p. ap (λ e. e.p) (sym (same s j h)) ∙ p in
    record {
      child = λ s j h p. rw (same s j h) (tree.child s j h (was s j h p));
      unique = λ s j s' j' h h' p p' e.
          tree.unique s j s' j' h h' (was s j h p) (was s' j' h' p')
            (ap (λ e. e.frame) (sym (same s j h)) ∙ e ∙ ap (λ e. e.frame) (same s' j' h'));
      plain = λ s j h. rw (same s j h) (tree.plain s j h);
      fits = λ s j h p. rw (same s j h) (tree.fits s j h (was s j h p));
    }
