-- ===== src/System/Tests.antt =====
-- The theorem about reachable states at a concrete run: a switch, then a failure.
use qcc_plus.Floats.{fractions, Fraction}
use qcc_plus.Server.Defs.{Server}
use qcc_plus.Examples.{server, world, server-IsCoherent}
use qcc_plus.Select.Activate.{reselect}
use qcc_plus.Recovery.Failing.{handle_failure}
use qcc_plus.Recovery.Coherent.{IsCoherent}
use qcc_plus.System.Steps.{Reach, switches, fails, begin, later}
use qcc_plus.System.Reachable.{Reach-IsCoherent}

abbrev switched : Server Fraction
switched = (reselect fractions world 100 "acc" server).0

abbrev broken : Server Fraction
broken = handle_failure fractions world 200 "n-2" "HTTP 500" switched

run : Reach fractions server broken
run =
    later switched broken (later server switched begin (switches world 100 "acc"))
      (fails world 200 "n-2" "HTTP 500")

Reach-IsCoherent_example : IsCoherent broken
Reach-IsCoherent_example = Reach-IsCoherent fractions server broken run server-IsCoherent
