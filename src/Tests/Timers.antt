-- ===== src/Tests/Timers.antt =====
-- Runs of the calibration, of `udelay`, and of a menu.
use smp_boot.Base.{
  ℕ, suc, ◌+◌, ◌-◌, ◌*◌, ◌^◌, ◌<◌, ◌≤◌, ◌≡◌, refl, true, false, none, some, List, [], ◌∷◌, ◌++◌,
  arith, get_elem?,
}
use smp_boot.Timer.{Rates, pit_measure_tsc_per_sec, pit_get_tsc_per_xxx, udelay}
use smp_boot.Timer.Calibration.{Fits, pit_measure_tsc_per_sec-Fits}
use smp_boot.Timer.Delay.{First, udelay-First}
use smp_boot.Keyboard.{key_up, key_down}
use smp_boot.Menu.{draw, enter, menu}
use smp_boot.Menu.Choice.{IsDefault, clamp_all, menu-clamp_all}

-- 2.4 GHz, in 2^14 microseconds
pit_measure_tsc_per_sec-Fits_example :
    (r : Rates) × (pit_measure_tsc_per_sec (suc 1049) (λ c. 2400 * 2 ^ 14) ≡ some r)
    × (1000 ≤ r.tsc_per_usec)
    × Fits r.tsc_per_usec r.usec_per_mtsc
pit_measure_tsc_per_sec-Fits_example =
    pit_measure_tsc_per_sec-Fits 1049 (λ c. 2400 * 2 ^ 14) (omega arith)

udelay-First_example :
    (n : ℕ) × (udelay 32 31 (λ k. 1000 + k * 7) 10 3 ≡ some n)
    × First (λ k. 1000 + k * 7) (1000 + 30) 0 n
udelay-First_example =
    udelay-First 32 31 10 3 (λ k. 1000 + k * 7) (λ k. omega arith) (omega arith) (omega arith)
      (omega arith)

-- The timer counts down from 2^16.
pit_get_tsc_per_xxx_run :
    pit_get_tsc_per_xxx 10 500 (λ k. 1000 + k * 100) (λ k. 65535 - k * 5000) ≡ some 900
unfolding pit_get_tsc_per_xxx
pit_get_tsc_per_xxx_run = refl

menu-clamp_all_example :
    let entries : List ℕ = 10 ∷ 20 ∷ 30 ∷ [] in
    let moves : List ℕ = key_down ∷ b'x' ∷ key_down ∷ key_up ∷ [] in
    (s : ℕ) × IsDefault 20 entries s
    × (menu entries 20 (moves ++ enter ∷ key_up ∷ [])
        ≡ some (get_elem? entries (clamp_all 3 moves s)))
    × (clamp_all 3 moves s < 3)
menu-clamp_all_example =
    menu-clamp_all (10 ∷ 20 ∷ 30 ∷ []) (key_down ∷ b'x' ∷ key_down ∷ key_up ∷ []) (key_up ∷ []) 20
      (omega arith) (omega arith) (omega arith, (omega arith, (omega arith, (omega arith, tt))))

-- The first drawing marks the first entry and the default one, and an empty menu reads behind its
-- entries.
first_drawing :
    (draw true 20 0 (10 ∷ 20 ∷ 30 ∷ []) 0 ≡ (true ∷ true ∷ false ∷ [], 1))
    × (menu [] 20 (key_down ∷ enter ∷ []) ≡ some none)
unfolding draw menu
first_drawing = (refl, refl)
