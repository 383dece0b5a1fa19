-- ===== src/Memory/Tree/Maps.antt =====
-- mm.c: `map_frame_to_adr` of the 64-bit build, in terms of the processor's walk.
use smp_boot.Base.{
  ℕ, ◌+◌, ◌*◌, ◌/◌, ◌%◌, ◌^◌, ◌<◌, ◌≡◌, ◌≢◌, refl, true, Option, none, some, arith, Bool-cases, inl,
  inr, ap, ◌∙◌, sym, List, [], ◌∷◌,
}
use smp_boot.Clib.Masks.{is_mask_set}
use smp_boot.Memory.Freemap.{is_free}
use smp_boot.Memory.Freemap.Scan.{IsShift}
use smp_boot.Memory.Paging.{
  Entry, Machine, x86_64, map_huge, map_frame_to_adr, pt_index, pd3_index, pd2_index, pd1_index,
}
use smp_boot.Memory.Translate.{Leaf, page_4k, walk, physical}
use smp_boot.Memory.Tree.{view, lookup}
use smp_boot.Memory.Tree.Enter.{HasTree}
use smp_boot.Memory.Tree.Path.{map_path, Mapped}
use smp_boot.Memory.Tree.Mapping.{map_path-Mapped}

abbrev pub indices : ℕ → List ℕ
indices adr = pd1_index adr ∷ pd2_index adr ∷ pd3_index adr ∷ pt_index adr ∷ []

-- The page of an address, of the 48 bits that the tables translate.
abbrev pub page : ℕ → ℕ
page adr = adr / 2 ^ 12 % 2 ^ 36

-- The machine with the entry of the window masked.
abbrev pub seen : Machine → Machine
seen m = record m { table = view x86_64 m }

abbrev leaf : Option Entry → Option Leaf
leaf none = none
leaf (some e) = some (page_4k e)

-- A state between two calls: `pd1` is the root of a tree of page tables with four levels.
pub record IsMachine (one_shl : ℕ → ℕ) (m : Machine) : Type 0 where
  pub rank : ℕ → ℕ
  pub has : HasTree x86_64 one_shl rank m
  pub root : rank m.pd1 ≡ 4

page-indices : (adr adr' : ℕ) → indices adr' ≡ indices adr → page adr' ≡ page adr
page-indices adr adr' e =
    let first : pd1_index adr' ≡ pd1_index adr = cc in
    let second : pd2_index adr' ≡ pd2_index adr = cc in
    let third : pd3_index adr' ≡ pd3_index adr = cc in
    let fourth : pt_index adr' ≡ pt_index adr = cc in omega arith

-- A walk depends on the page of the address only.
walk-page : (a b : ℕ) (m : Machine) → page a ≡ page b → walk a m ≡ walk b m
walk-page a b m same =
    let first : pd1_index a ≡ pd1_index b = omega arith in
    let second : pd2_index a ≡ pd2_index b = omega arith in
    let third : pd3_index a ≡ pd3_index b = omega arith in
    let fourth : pt_index a ≡ pt_index b = omega arith in rw (first, second, third, fourth)

walk-lookup :
    {one_shl : ℕ → ℕ} (adr : ℕ) (m : Machine)
    → IsMachine one_shl m
    → walk adr (seen m) ≡ leaf (lookup (view x86_64 m) m.pd1 (indices adr))
walk-lookup adr m is =
    let tree = is.has.tree in
    let e1 = view x86_64 m m.pd1 (pd1_index adr) in
    let e2 = view x86_64 m e1.frame (pd2_index adr) in
    let e3 = view x86_64 m e2.frame (pd3_index adr) in
    ground (
      arith,
      is.root,
      tree.child m.pd1 (pd1_index adr),
      tree.plain e1.frame (pd2_index adr),
      tree.child e1.frame (pd2_index adr),
      tree.plain e2.frame (pd3_index adr),
    )

leaf-none : {o : Option Entry} → leaf o ≡ none → o ≡ none
leaf-none {o = none} e = refl
leaf-none {o = some x} e = absurd (ground arith)

leaf-some :
    {o : Option Entry} {l : Leaf} → leaf o ≡ some l → (e : Entry) × (o ≡ some e) × (page_4k e ≡ l)
leaf-some {o = none} e = absurd (ground arith)
leaf-some {o = some x} e = (x, refl, cc)

-- What mapping `frame` at `adr` does: the page of `adr` leads to the frame, if it led nowhere
-- before, and stays as it is otherwise; every other page stays, and no frame becomes free.
pub record Maps (one_shl : ℕ → ℕ) (frame adr : ℕ) (m m' : Machine) : Type 0 where
  pub still : IsMachine one_shl m'
  pub new_page :
      walk adr (seen m) ≡ none
      → (a : ℕ) → page a ≡ page adr
      → physical a (walk a (seen m')) ≡ frame * 2 ^ 12 + a % 2 ^ 12
  pub old_page : (l : Leaf) → walk adr (seen m) ≡ some l → walk adr (seen m') ≡ some l
  pub others : (a : ℕ) → page a ≢ page adr → walk a (seen m') ≡ walk a (seen m)
  pub free_kept :
      (f : ℕ)
      → is_free 64 one_shl m'.freemap.words f ≡ true
      → is_free 64 one_shl m.freemap.words f ≡ true

module _ {one_shl : ℕ → ℕ} (shift : IsShift 64 one_shl) where
  map_frame_to_adr-path :
      (frame adr flags : ℕ) (m : Machine) {m' : Machine}
      → map_frame_to_adr one_shl frame adr flags m ≡ some m'
      → map_path x86_64 one_shl frame flags m.pd1 (indices adr) m ≡ some m'
  unfolding map_frame_to_adr map_path
  map_frame_to_adr-path frame adr flags m {m'} e = elim (Bool-cases (is_mask_set flags map_huge)) [
    | inl huge ↦ absurd (ground arith)
    | inr small ↦
        let same : map_frame_to_adr one_shl frame adr flags m
            ≡ map_path x86_64 one_shl frame flags m.pd1 (indices adr) m =
          rw small in
        sym same ∙ e
  ]

  Maps-Mapped :
      (frame adr : ℕ) (m m' : Machine) (is : IsMachine one_shl m)
      → Mapped x86_64 one_shl is.rank m m.pd1 (indices adr) frame m'
      → Maps one_shl frame adr m m'
  Maps-Mapped frame adr m m' is mapped =
      let same : m'.pd1 ≡ m.pd1 = mapped.pd1_same in
      let still : IsMachine one_shl m' = record {
        rank = mapped.rank';
        has = mapped.has;
        root = rw same (mapped.rank_kept m.pd1 (omega (arith, is.root)) ∙ is.root);
      } in
      let before : (a : ℕ) → walk a (seen m) ≡ leaf (lookup (view x86_64 m) m.pd1 (indices a)) =
        λ a. walk-lookup a m is in
      let after : (a : ℕ) → walk a (seen m') ≡ leaf (lookup (view x86_64 m') m.pd1 (indices a)) =
        λ a. walk-lookup a m' still ∙ ap (λ t. leaf (lookup (view x86_64 m') t (indices a))) same in
      record {
        still = still;
        new_page = λ absent a at.
            let (e, found, names) = mapped.new_page (leaf-none (sym (before adr) ∙ absent)) in
            ap (physical a) (walk-page a adr (seen m') at ∙ after adr ∙ ap leaf found) ∙ rw names;
        old_page = λ l there.
            let (e, found, is_l) = leaf-some (sym (before adr) ∙ there) in
            after adr ∙ ap leaf (mapped.old_page e found) ∙ ap some is_l;
        others = λ a other.
            after a
            ∙ ap leaf
                (mapped.others m.pd1 (indices a) is.root refl (λ _ e. other (page-indices adr a e)))
            ∙ sym (before a);
        free_kept = mapped.free_kept;
      }

  -- Where the page tables form a tree and `map_frame_to_adr` returns, it maps a frame that fits
  -- into an entry at its address, if that was free, and leaves every other page as it is, apart
  -- from the window that it works through.
  pub map_frame_to_adr-Maps :
      (frame adr flags : ℕ) (m : Machine) {m' : Machine}
      → frame < 2 ^ 40
      → IsMachine one_shl m
      → map_frame_to_adr one_shl frame adr flags m ≡ some m'
      → Maps one_shl frame adr m m'
  map_frame_to_adr-Maps frame adr flags m {m'} small is e = Maps-Mapped frame adr m m' is (
      map_path-Mapped x86_64 one_shl frame flags small shift (omega arith) (indices adr) m m.pd1
        is.has is.root (omega arith) (λ low. absurd (omega (arith, is.root)))
        (map_frame_to_adr-path frame adr flags m e))
