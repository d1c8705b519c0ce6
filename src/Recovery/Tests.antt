-- ===== src/Recovery/Tests.antt =====
-- The theorems about failures and recoveries at concrete inputs.
use qcc_plus.Prelude.{true}
use qcc_plus.Floats.{fractions}
use qcc_plus.Examples.{server, world, server-IsCoherent}
use qcc_plus.Recovery.Check.{check_failed_nodes}
use qcc_plus.Recovery.Coherent.{IsCoherent}
use qcc_plus.Recovery.Agreement.{check_failed_nodes-IsCoherent}

check_failed_nodes-IsCoherent_example :
    IsCoherent (check_failed_nodes fractions world 100 true server).0
check_failed_nodes-IsCoherent_example =
    check_failed_nodes-IsCoherent fractions world 100 true server server-IsCoherent
