-- ===== src/Abuse/Tests.antt =====
-- Tests and witnesses for crates/sentio-abuse.
use sentio.Common.{false, some, ◌≡◌, refl, arith, err}
use sentio.Common.Text.{Text, codes, decimal}
use sentio.Abuse.Counters.{accept, defer, greylist_check, is_banned, new_greylister, new_auth_guard}
use sentio.Abuse.Lists.{
  reverse_ip, join_dots, texts_of, onto, new_whitelist, parse_all, contains_ip, in_cidrs,
}
use sentio.Abuse.Guard.{new_guard, refused, check_connection}
use sentio.Abuse.AutoBan.{failures, is_banned-failures}
use sentio.Abuse.Refused.{check_connection-failures}
use sentio.Core.Error.{redis}
use sentio.Abuse.Down.{IsDown, guards_down}
use sentio.Abuse.Greylist.{greylist_check_retry}
use sentio.Abuse.Samples.{World, deps, broken, deps-IsStore, empty, config, client}

reversed_v4 : reverse_ip client ≡ some (codes "1.2.0.192")
unfolding reverse_ip join_dots texts_of onto decimal
reversed_v4 = refl

client_banned :
    (is_banned deps client (failures deps (new_auth_guard config) client 2 (empty 7000))).0 ≡ false
client_banned =
    is_banned-failures deps (λ w. w.value) deps-IsStore (new_auth_guard config) client (omega arith)
      2 (empty 7000) (omega arith) refl refl

check_connection-failures_example :
    (check_connection deps
      (new_guard deps config)
      client
      (failures deps (new_auth_guard config) client 4 (empty 7000))).0
    ≡ refused deps (codes "banned:") client
unfolding new_whitelist parse_all contains_ip in_cidrs
check_connection-failures_example =
    check_connection-failures deps (λ w. w.value) deps-IsStore (new_guard deps config) client 4
      (empty 7000) (omega arith) (omega arith) (omega arith) refl refl refl refl

abbrev from : Text
from = codes "a@b"

abbrev to : Text
to = codes "c@d"

broken-IsDown : IsDown broken (redis (codes "down"))
broken-IsDown = record {
  no_get = λ key w. refl;
  no_exists = λ key w. refl;
  no_incr = λ key w. refl;
}

guards_down_example :
    ((is_banned broken client (empty 7000)).0 ≡ false)
    × ((greylist_check broken (new_greylister config.greylist) client from to (empty 7000)).0
        ≡ defer)
    × ((check_connection broken (new_guard broken config) client (empty 7000)).0
        ≡ err (redis (codes "down")))
unfolding new_whitelist parse_all contains_ip in_cidrs
guards_down_example =
    guards_down broken (redis (codes "down")) broken-IsDown (new_guard broken config) client from to
      (empty 7000) refl refl refl

abbrev seen : World
seen = (greylist_check deps (new_greylister config.greylist) client from to (empty 7000)).1

greylist_check_retry_example :
    ((greylist_check deps (new_greylister config.greylist) client from to (empty 7000)).0 ≡ defer)
    × ((greylist_check deps
          (new_greylister config.greylist)
          client
          from
          to
          (record seen { clock = 7300 })).0
        ≡ accept)
greylist_check_retry_example =
    greylist_check_retry deps (λ w. w.value) deps-IsStore (new_greylister config.greylist) client
      from to (empty 7000) (record seen { clock = 7300 }) refl refl refl (omega arith) (omega arith)
      (omega arith)
