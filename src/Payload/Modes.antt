-- ===== src/Payload/Modes.antt =====
-- payload.c: the flags that the buffers get.
use smp_boot.Base.{
  ℕ, ◌≡◌, ◌≢◌, refl, sym, ap, ◌∙◌, ◌⊎◌, inl, inr, arith, Bool, true, false, ◌==◌, if◌then◌else◌,
  Bool-cases, some, List, [], ◌∷◌, ◌++◌,
}
use mathlib.Core.List.{append-nil, append_assoc}
use smp_boot.Payload.{
  BenchOpt, Call, reconfig_buffer, reconfig_contender, run_bench, reconfigure, bench_round,
  bench_menu, quit,
}

-- No call sets the flags 0, those of a write-back buffer.
abbrev pub is_back : Call → Bool
is_back (reconfig_buffer flags) = flags == 0
is_back (reconfig_contender flags) = flags == 0
is_back _ = false

abbrev pub NoBack : List Call → Type 0
NoBack [] = Unit
NoBack (c ∷ calls) = (is_back c ≡ false) × NoBack calls

-- Choices that do not leave the loop, with a second value that the menus for the modes offer: a
-- `cachemode_t`, which is below 3, or the one to abort.
abbrev pub Offered : List (ℕ × ℕ) → Type 0
Offered [] = Unit
Offered ((t, r) ∷ choices) = (t ≢ quit) × (r ≢ 3) × Offered choices

NoBack-append : (a b : List Call) → NoBack a → NoBack b → NoBack (a ++ b)
NoBack-append [] b ha hb = hb
NoBack-append (c ∷ a) b (h, ha) hb = (h, NoBack-append a b ha hb)

reconfigure-flag : (r mode flag : ℕ) → r ≢ 3 → flag ≢ 0 → ((reconfigure r mode flag).0 == 0) ≡ false
unfolding reconfigure
reconfigure-flag r mode flag offered set = ground arith

if-NoBack : (b : Bool) (x y : List Call) → NoBack x → NoBack y → NoBack (if b then x else y)
if-NoBack true x y hx hy = hx
if-NoBack false x y hx hy = hy

run_bench-NoBack : (t : ℕ) → NoBack (run_bench t)
unfolding run_bench
run_bench-NoBack t =
    if-NoBack (t == 4) _ _ (refl, tt)
      (if-NoBack (t == 5) _ _ (refl, tt)
        (if-NoBack (t == 6) _ _ (refl, tt)
          (if-NoBack (t == 7) _ _ (refl, tt) (if-NoBack (t == 8) _ _ (refl, tt) tt))))

bench_round-NoBack :
    (t r : ℕ) (s : BenchOpt)
    → r ≢ 3
    → s.flag ≢ 0
    → ((bench_round t r s).0.flag ≢ 0) × NoBack (bench_round t r s).1
unfolding bench_round
bench_round-NoBack t r s offered set =
    let own = reconfigure-flag r s.cm_buffer s.flag offered set in
    let other = reconfigure-flag r s.cm_contender s.flag offered set in
    elim (Bool-cases (t == 1)) [
      | inl buffer ↦ rw buffer (ground arith, if-NoBack (r == quit) _ _ tt (own, tt))
      | inr not1 ↦ elim (Bool-cases (t == 2)) [
        | inl contender ↦
            rw (not1, contender) (ground arith, if-NoBack (r == quit) _ _ tt (other, tt))
        | inr not2 ↦ elim (Bool-cases (t == 3)) [
          | inl base ↦ rw (not1, not2, base) (ground arith, tt)
          | inr not3 ↦ rw (not1, not2, not3) (set, run_bench-NoBack t)
        ]
      ]
    ]

bench_menu-NoBack_set :
    (choices later : List (ℕ × ℕ)) (s : BenchOpt)
    → Offered choices
    → s.flag ≢ 0
    → (last : BenchOpt) × (calls : List Call) × (bench_menu (choices ++ (quit, quit) ∷ later) s
        ≡ some (last, calls))
      × NoBack calls
unfolding bench_menu
bench_menu-NoBack_set [] later s offered set = (s, [], refl, tt)
bench_menu-NoBack_set ((t, r) ∷ choices) later s (stays, other, offered) set =
    let (set', no_back) = bench_round-NoBack t r s other set in
    let (last, calls, ends, rest) =
      bench_menu-NoBack_set choices later (bench_round t r s).0 offered set' in
    let not_quit : (t == quit) ≡ false = ground arith in
    (
      last,
      (bench_round t r s).1 ++ calls,
      rw (not_quit, ends) refl,
      NoBack-append (bench_round t r s).1 calls no_back rest,
    )

-- The rounds for choices that do not leave the loop.
bench_menu-rounds :
    (choices : List (ℕ × ℕ)) (s : BenchOpt)
    → Offered choices
    → (s1 : BenchOpt) × (before : List Call) × ((rest : List (ℕ × ℕ)) (last : BenchOpt)
          (calls : List Call)
        → bench_menu rest s1 ≡ some (last, calls)
        → bench_menu (choices ++ rest) s ≡ some (last, before ++ calls))
unfolding bench_menu
bench_menu-rounds [] s offered = (s, [], λ rest last calls e. e)
bench_menu-rounds ((t, r) ∷ choices) s (stays, other, offered) =
    let (s', calls) = bench_round t r s in
    let (s1, before, run) = bench_menu-rounds choices s' offered in
    let not_quit : (t == quit) ≡ false = ground arith in
    (
      s1,
      calls ++ before,
      λ rest last more e.
          rw (not_quit, run rest last more e)
            (ap (λ l. some (last, l)) (sym (append_assoc calls before more))),
    )

-- A round for one of the buffers with the first or the second case of the inner `switch`.
abbrev pub Sets : ℕ → ℕ → Type 0
Sets t r = ((t ≡ 1) ⊎ (t ≡ 2)) × ((r ≡ 1) ⊎ (r ≡ 2))

bench_round-Sets :
    (t r : ℕ) (s : BenchOpt)
    → Sets t r
    → ((bench_round t r s).0.flag ≢ 0) × NoBack (bench_round t r s).1
unfolding bench_round reconfigure
bench_round-Sets t r s (inl buffer, inl first) = rw (buffer, first) (omega arith, (refl, tt))
bench_round-Sets t r s (inl buffer, inr second) = rw (buffer, second) (omega arith, (refl, tt))
bench_round-Sets t r s (inr contender, inl first) = rw (contender, first) (omega arith, (refl, tt))
bench_round-Sets t r s (inr contender, inr second) =
    rw (contender, second) (omega arith, (refl, tt))

Sets-stays : (t r : ℕ) → Sets t r → (t == quit) ≡ false
Sets-stays t r (inl buffer, mode) = ground arith
Sets-stays t r (inr contender, mode) = ground arith

-- From any state, for any choices that the menus offer, the loop of `payload_benchmark_menu` ends
-- with the choice to return. Once a round has reconfigured a buffer with the second value 1 or 2,
-- "write back" or "write through", no later call of the loop sets the flags 0, those of write-back.
pub bench_menu-NoBack :
    (earlier choices later : List (ℕ × ℕ)) (t r : ℕ) (s : BenchOpt)
    → Offered earlier
    → Sets t r
    → Offered choices
    → (s1 : BenchOpt) × (last : BenchOpt) × (before : List Call) × (after : List Call) × (bench_menu
          (earlier ++ (quit, quit) ∷ [])
          s
        ≡ some (s1, before))
      × (bench_menu (earlier ++ (t, r) ∷ (choices ++ (quit, quit) ∷ later)) s
          ≡ some (last, before ++ after))
      × NoBack after
unfolding bench_menu
bench_menu-NoBack earlier choices later t r s offered sets others =
    let (s1, before, run) = bench_menu-rounds earlier s offered in
    let (set, no_back) = bench_round-Sets t r s1 sets in
    let (last, calls, ends, rest) =
      bench_menu-NoBack_set choices later (bench_round t r s1).0 others set in
    let after = (bench_round t r s1).1 ++ calls in
    let round : bench_menu ((t, r) ∷ (choices ++ (quit, quit) ∷ later)) s1 ≡ some (last, after) =
      rw (Sets-stays t r sets, ends) refl in
    (
      s1,
      last,
      before,
      after,
      run ((quit, quit) ∷ []) s1 [] refl ∙ ap (λ l. some (s1, l)) (append-nil before),
      run ((t, r) ∷ (choices ++ (quit, quit) ∷ later)) last after round,
      NoBack-append (bench_round t r s1).1 calls no_back rest,
    )
