-- ===== src/Tests/Tables.antt =====
-- Runs of the table readers of boot32.c.
use smp_boot.Base.{ℕ, ◌%◌, ◌^◌, ◌≡◌, refl, true, false, some, List, [], ◌∷◌, get_or, arith}
use smp_boot.Boot.{Bytes, check_sum, sum_bytes, read_madt}
use smp_boot.Boot.Info.{no_info}
use smp_boot.Boot.Search.{total, check_sum-total}
use smp_boot.Boot.Madt.{Entry, lapic, ioapic, enter_all, emptied, read_madt-enter_all}

abbrev pub table_bytes : List ℕ
table_bytes =
    b'A' ∷ b'P' ∷ b'I' ∷ b'C' ∷ 72 ∷ 0 ∷ 0 ∷ 0 ∷ 1 ∷ 209 ∷ 0 ∷ 0 ∷ 0 ∷ 0 ∷ 0 ∷ 0 ∷ 0 ∷ 0 ∷ 0 ∷ 0 ∷ 0
    ∷ 0 ∷ 0 ∷ 0 ∷ 0 ∷ 0 ∷ 0 ∷ 0 ∷ 0 ∷ 0 ∷ 0 ∷ 0 ∷ 0 ∷ 0 ∷ 0 ∷ 0 ∷ 0 ∷ 0 ∷ 0xe0 ∷ 0xfe ∷ 1 ∷ 0 ∷ 0
    ∷ 0 ∷ 0 ∷ 8 ∷ 0 ∷ 5 ∷ 1 ∷ 0 ∷ 0 ∷ 0 ∷ 0 ∷ 8 ∷ 1 ∷ 6 ∷ 0 ∷ 0 ∷ 0 ∷ 0 ∷ 1 ∷ 12 ∷ 2 ∷ 0 ∷ 0 ∷ 0
    ∷ 0xc0 ∷ 0xfe ∷ 0 ∷ 0 ∷ 0 ∷ 0 ∷ []

abbrev madt : Bytes
madt a = get_or table_bytes a 0

abbrev pub entries : List Entry
entries = lapic 5 true ∷ lapic 6 false ∷ ioapic 2 0xfec00000 ∷ []

read_madt-enter_all_example :
    let hw' = enter_all entries (emptied 0xfee00000 no_info) in
    (read_madt madt 0 no_info ≡ some (true, hw')) × (hw'.cpu_cnt ≡ 1) × (hw'.ioapic_cnt ≡ 1)
unfolding check_sum sum_bytes
read_madt-enter_all_example =
    read_madt-enter_all entries madt 0 28 no_info refl refl
      ((refl, refl, refl, refl), ((refl, refl, refl, refl), ((refl, refl, refl, refl), refl)))
      (omega arith) (omega arith)

check_sum-total_example : check_sum madt 0 72 ≡ total madt 0 72 % 2 ^ 8
check_sum-total_example = check_sum-total madt 0 72
