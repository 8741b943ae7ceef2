-- ===== src/SpinWait/Tests.antt =====
-- SpinWait at concrete counts and rounds.
use logpp.Common.{◌*◌, ◌^◌, ◌≤◌, ◌<◌, ◌≡◌, true, false, take, ltb, if◌then◌else◌, replicate, arith}
use logpp.FileSink.Sizes.{negsuc}
use logpp.SpinWait.{Round, yielding, spins, spin_once, spin_until, returned, tick_count}
use logpp.SpinWait.Counts.{count_after, wrapped, yields_in_loop, spin_once-counts}
use logpp.SpinWait.Until.{any_held, spin_until-endless}

abbrev not_yet : Round
not_yet = record { condition = false; tick = 5 }

spin_until-endless_example :
    spin_until true (negsuc 0) 3 (replicate 12 not_yet)
    ≡ returned (any_held (take 11 (replicate 12 not_yet)))
spin_until-endless_example = spin_until-endless 3 (replicate 12 not_yet) (omega arith)

spin_once-counts_example :
    (count_after 7 12 ≡ wrapped 12)
    × (count_after 7 12 < 0x80000000)
    × ((spin_once (count_after 7 12)).0
        ≡ (if ltb 10 (wrapped 12) then yielding (wrapped 12) else spins (4 * 2 ^ wrapped 12)))
    × (yields_in_loop (spin_once (count_after 7 12)).0 ≤ 4096)
spin_once-counts_example = spin_once-counts 7 12

-- The ticks count microseconds within the second, and milliseconds over the seconds: they go back.
tick_count-back : tick_count 2 0 < tick_count 1 999000000
unfolding tick_count
tick_count-back = omega arith
