-- ===== src/Memory/Freemap/Grants.antt =====
-- mm.c: `get_free_frame` as a whole, and sequences of its calls.
use smp_boot.Base.{
  ℕ, ◌-◌, ◌<◌, ◌≡◌, ◌≢◌, ◌⊎◌, refl, true, false, Option, none, some, List, [], ◌∷◌, arith,
  Option-cases, inl, inr, ap,
}
use native.Mathlib.Decide.{ℕ_discrete}
use smp_boot.Memory.Freemap.{
  Freemap, max_frames, frame_type_pt, frame_type_4k, is_free, take_frame, get_free_frame,
}
use smp_boot.Memory.Freemap.Scan.{
  IsShift, IsValid, is_free-take_frame_self, is_free-take_frame, First, scan-First, Grants,
}

-- The calls of `get_free_frame` for the types of a list, in order.
unfoldable pub grant_all : (w : ℕ) (one_shl : ℕ → ℕ) → List ℕ → Freemap → Option (List ℕ × Freemap)
grant_all w one_shl [] m = some ([], m)
grant_all w one_shl (type ∷ types) m = elim (get_free_frame w one_shl type m) [
  | none ↦ none
  | some (f, m') ↦ elim (grant_all w one_shl types m') [
    | none ↦ none
    | some (fs, last) ↦ some (f ∷ fs, last)
  ]
]

abbrev pub All : (ℕ → Type 0) → List ℕ → Type 0
All P [] = Unit
All P (x ∷ xs) = P x × All P xs

-- No number stands twice in the list.
abbrev pub Distinct : List ℕ → Type 0
Distinct [] = Unit
Distinct (x ∷ xs) = All (λ y. y ≢ x) xs × Distinct xs

All-map : {P Q : ℕ → Type 0} → ((n : ℕ) → P n → Q n) → (xs : List ℕ) → All P xs → All Q xs
All-map f [] h = tt
All-map f (x ∷ xs) h = (f x h.0, All-map f xs h.1)

module _ {w : ℕ} {one_shl : ℕ → ℕ} (shift : IsShift w one_shl) where
  small_grant :
      (m : Freemap) (o : Option ℕ)
      → IsValid m
      → First shift m.words m.last_frame_4k o
      → Grants shift frame_type_4k m (elim o [
        | none ↦ none
        | some f ↦ some (f, record m { words = take_frame w one_shl m.words f; last_frame_4k = f })
      ])
  small_grant m none v h = h
  small_grant m (some f) v h = record {
    from_start = h.0;
    in_memory = h.1;
    was_free = h.2;
    first = h.3;
    taken = is_free-take_frame_self shift m.words f;
    others = is_free-take_frame shift m.words f;
    moved = refl;
    valid = record { pt_in = omega arith; small_in = omega arith };
  }

  table_grant :
      (m : Freemap) (o : Option ℕ)
      → IsValid m
      → First shift m.words m.last_frame_pt o
      → Grants shift frame_type_pt m (elim o [
        | none ↦ none
        | some f ↦ some (f, record m { words = take_frame w one_shl m.words f; last_frame_pt = f })
      ])
  table_grant m none v h = h
  table_grant m (some f) v h = record {
    from_start = h.0;
    in_memory = h.1;
    was_free = h.2;
    first = h.3;
    taken = is_free-take_frame_self shift m.words f;
    others = is_free-take_frame shift m.words f;
    moved = refl;
    valid = record { pt_in = omega arith; small_in = omega arith };
  }

  -- `get_free_frame` for a page table or a page gives out the first free frame from the last one
  -- of its type on, which is then taken, and frees no other; it halts only if none is free there.
  pub get_free_frame-Grants :
      (type : ℕ) (m : Freemap)
      → IsValid m
      → (type ≡ frame_type_4k) ⊎ (type ≡ frame_type_pt)
      → Grants shift type m (get_free_frame w one_shl type m)
  unfolding get_free_frame
  get_free_frame-Grants type m v (inl e) = rw e (
      small_grant m _ v
        (scan-First shift (max_frames - m.last_frame_4k) m.words m.last_frame_4k (omega arith)))
  get_free_frame-Grants type m v (inr e) = rw e (
      table_grant m _ v
        (scan-First shift (max_frames - m.last_frame_pt) m.words m.last_frame_pt (omega arith)))

  -- Any other type halts.
  get_free_frame-unsupported :
      (type : ℕ) (m : Freemap)
      → type ≢ frame_type_4k
      → type ≢ frame_type_pt
      → get_free_frame w one_shl type m ≡ none
  unfolding get_free_frame
  get_free_frame-unsupported type m a b = ground arith

  -- A frame that is given out was free before, is not free after, and nothing became free.
  abbrev pub Gives : Freemap → ℕ → Freemap → Type 0
  Gives m f m' =
      (is_free w one_shl m.words f ≡ true)
      × (is_free w one_shl m'.words f ≡ false)
      × ((g : ℕ) → is_free w one_shl m'.words g ≡ true → is_free w one_shl m.words g ≡ true)
      × (f < max_frames)
      × IsValid m'

  Gives-of-Granted :
      (type : ℕ) (m : Freemap) (o : Option (ℕ × Freemap)) {f : ℕ} {m' : Freemap}
      → Grants shift type m o
      → o ≡ some (f, m')
      → Gives m f m'
  Gives-of-Granted type m none g e = cc
  Gives-of-Granted type m (some (f, m')) {f = h} {m' = n} g e =
      let ef : f ≡ h = cc in
      let em : m' ≡ n = cc in rw (← ef, ← em) (g.was_free, g.taken, g.others, g.in_memory, g.valid)

  pub get_free_frame-Gives :
      (type : ℕ) (m : Freemap) {f : ℕ} {m' : Freemap}
      → IsValid m
      → get_free_frame w one_shl type m ≡ some (f, m')
      → Gives m f m'
  get_free_frame-Gives type m v e = elim (ℕ_discrete type frame_type_4k) [
    | yes is_page ↦ Gives-of-Granted type m _ (get_free_frame-Grants type m v (inl is_page)) e
    | no not_page ↦ elim (ℕ_discrete type frame_type_pt) [
      | yes is_table ↦ Gives-of-Granted type m _ (get_free_frame-Grants type m v (inr is_table)) e
      | no other ↦ cc (get_free_frame-unsupported type m not_page other)
    ]
  ]

  grant_all-cons :
      (type : ℕ) (types : List ℕ) (m : Freemap) {fs : List ℕ} {last : Freemap}
      → grant_all w one_shl (type ∷ types) m ≡ some (fs, last)
      → (f : ℕ) × (m' : Freemap) × (rest : List ℕ) × (get_free_frame w one_shl type m
          ≡ some (f, m'))
        × (grant_all w one_shl types m' ≡ some (rest, last))
        × (fs ≡ f ∷ rest)
  unfolding grant_all
  grant_all-cons type types m e = elim (Option-cases (get_free_frame w one_shl type m)) [
    | inl halted ↦ absurd (ground arith)
    | inr ((f, m'), given) ↦ elim (Option-cases (grant_all w one_shl types m')) [
      | inl halted ↦ absurd (ground arith)
      | inr ((rest, last'), more) ↦ (f, m', rest, given, ground arith, ground arith)
    ]
  ]

  -- All frames that calls give out were free before the first of them.
  grant_all-were_free :
      (types : List ℕ) (m : Freemap) {fs : List ℕ} {last : Freemap}
      → IsValid m
      → grant_all w one_shl types m ≡ some (fs, last)
      → All (λ f. is_free w one_shl m.words f ≡ true) fs
  unfolding grant_all
  grant_all-were_free [] m {fs} v e = let none_given : [] ≡ fs = cc in rw (← none_given) tt
  grant_all-were_free (type ∷ types) m v e =
      let (f, m', rest, given, more, split) = grant_all-cons type types m e in
      let (set, taken, others, inside, v') = get_free_frame-Gives type m v given in
      rw split (set, All-map others rest (grant_all-were_free types m' v' more))

  -- From a state whose search positions are frames of the supported memory, no two calls of
  -- `get_free_frame` give out the same frame, whatever the types asked for.
  pub grant_all-Distinct :
      (types : List ℕ) (m : Freemap) {fs : List ℕ} {last : Freemap}
      → IsValid m
      → grant_all w one_shl types m ≡ some (fs, last)
      → Distinct fs
  unfolding grant_all
  grant_all-Distinct [] m {fs} v e = let none_given : [] ≡ fs = cc in rw (← none_given) tt
  grant_all-Distinct (type ∷ types) m v e =
      let (f, m', rest, given, more, split) = grant_all-cons type types m e in
      let (set, taken, others, inside, v') = get_free_frame-Gives type m v given in
      let later = grant_all-were_free types m' v' more in
      rw split (
        All-map (λ g set' same. cc (ap (is_free w one_shl m'.words) same)) rest later,
        grant_all-Distinct types m' v' more,
      )
