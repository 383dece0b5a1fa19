-- ===== src/Sync/Flag.antt =====
-- sync.c: flags, which count signals, as calls that run one after another. That two processors wait
-- for one flag at the same time is outside of this model.
use smp_boot.Base.{
  ℕ, zero, suc, ◌+◌, ◌%◌, ◌^◌, ◌-◌, ◌<◌, ◌≡◌, refl, Bool, true, false, arith, ltb, List, [], ◌∷◌,
  if◌then◌else◌,
}

-- `flag_t`
pub record Flag : Type 0 where
  pub flag : ℕ
  pub next : ℕ

abbrev pub flag_init : Flag
flag_init = record { flag = 0; next = 0 }

unfoldable pub flag_signal : Flag → Flag
flag_signal f = record f { flag = (f.flag + 1) % 2 ^ 32 }

-- `flag_trywait`, and one round of the loop of `flag_wait`. The source reads `next`, compares, and
-- increments `next` in a second access; here the call is a whole, which is exact as long as no
-- other wait for the flag runs between the two.
unfoldable pub flag_trywait : Flag → Bool × Flag
flag_trywait f =
    let n = (f.next + 1) % 2 ^ 32 in
    if ltb f.flag n then (false, f) else (true, record f { next = n })

pub data Call : Type 0 where
  signal trywait : Call

-- The results of the waits in a sequence of calls.
unfoldable pub wait_results : List Call → Flag → List Bool
wait_results [] f = []
wait_results (signal ∷ cs) f = wait_results cs (flag_signal f)
wait_results (trywait ∷ cs) f = let (got, f') = flag_trywait f in got ∷ wait_results cs f'

-- What a counter of pending signals would answer: a wait takes one if there is one.
abbrev pub counter_results : List Call → ℕ → List Bool
counter_results [] pending = []
counter_results (signal ∷ cs) pending = counter_results cs (suc pending)
counter_results (trywait ∷ cs) zero = false ∷ counter_results cs zero
counter_results (trywait ∷ cs) (suc pending) = true ∷ counter_results cs pending

abbrev pub signals : List Call → ℕ
signals [] = 0
signals (signal ∷ cs) = suc (signals cs)
signals (trywait ∷ cs) = signals cs

-- For calls that run one after another, each as a whole, and with fewer than 2 ^ 32 - 1 signals, a
-- flag answers every wait as a counter of the signals that no wait has taken yet.
pub wait_results-counter :
    (cs : List Call) (f : Flag) (pending : ℕ)
    → f.next + pending ≡ f.flag
    → f.flag + signals cs < 2 ^ 32 - 1
    → wait_results cs f ≡ counter_results cs pending
unfolding wait_results flag_signal flag_trywait
wait_results-counter [] f pending sum room = refl
wait_results-counter (signal ∷ cs) f pending sum room =
    wait_results-counter cs (flag_signal f) (suc pending) (omega arith) (omega arith)
wait_results-counter (trywait ∷ cs) f zero sum room =
    ground (arith, wait_results-counter cs f zero sum room)
wait_results-counter (trywait ∷ cs) f (suc pending) sum room =
    let f' : Flag = record f { next = (f.next + 1) % 2 ^ 32 } in
    ground (arith, wait_results-counter cs f' pending (omega arith) (omega arith))
