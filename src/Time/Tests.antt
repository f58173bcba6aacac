-- ===== src/Time/Tests.antt =====
-- The last second of February 29, 2000.
use chatease_server.Common.{◌≡◌, refl, arith}
use chatease_server.Time.Clock.{IsTime, gmtime-IsTime}
use chatease_server.Time.Gmtime.{gmtime, date_of, of_yday}

gmtime-IsTime_example : IsTime 951868799 (gmtime 951868799)
gmtime-IsTime_example = gmtime-IsTime 951868799 (omega arith)

leap_day_test :
    gmtime 951868799
    ≡ record { sec = 59; min = 59; hour = 23; mday = 29; mon = 2; year = 2000; wday = 2 }
unfolding gmtime date_of of_yday
leap_day_test = refl
