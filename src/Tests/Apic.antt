-- ===== src/Tests/Apic.antt =====
-- Runs of apic.c.
use smp_boot.Base.{◌+◌, ◌≡◌, false, arith, []}
use smp_boot.Boot.{HwInfo}
use smp_boot.Boot.Info.{Options, default_options, no_info}
use smp_boot.Apic.{Registers, apic_init}
use smp_boot.Apic.Start.{orders, start_of, apic_init-starts_of}

abbrev reset : Registers
reset i = 0x10000

-- Four processors, whose local APICs have the ids 0, 2, 4 and 6.
abbrev four_cpus : HwInfo
four_cpus = record no_info { cpu_cnt = 4; cpu_lapic_id = λ i. i + i }

-- The second processor is not in the mask, the fourth is above maxcpu.
abbrev not_second : Options
not_second = record default_options { cmd_maxcpu = 3; cmd_cpumask = 0b1101 }

apic_init-starts_of_example :
    orders (apic_init four_cpus not_second (λ u. false) 200 reset).1 ≡ start_of four_cpus 2 []
apic_init-starts_of_example =
    apic_init-starts_of four_cpus not_second (λ u. false) 200 reset (omega arith)
