-- ===== src/User/Tests.antt =====
-- Roles of users, and the theorem at two of them.
use chatease_server.Common.{◌≡◌, refl}
use chatease_server.User.{User, get_interval}

abbrev visitor : User
visitor = record { role = 0; interval = 2000 }

third_vip : get_interval 3 ≡ 800
unfolding get_interval
third_vip = refl
