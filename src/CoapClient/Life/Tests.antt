-- ===== src/CoapClient/Life/Tests.antt =====
-- A client that is in libcoap.
use device_tester.Prelude.{◌+◌, ◌≤◌, refl}
use device_tester.CoapClient.Life.{
  waiting, processing, Life, create, begin, begins, shares, Reach, starts, goes, calls,
  is_processing,
}
use device_tester.CoapClient.Life.Driven.{bit, shut, CanDangle, Reach-Driven}

abbrev entered : Life
entered = record create { posted = 0; io = waiting }

abbrev in_libcoap : Life
in_libcoap = record entered { io = processing }

in_libcoap-Reach : Reach in_libcoap
unfolding create begin
in_libcoap-Reach =
    goes entered in_libcoap (goes create entered starts (begins 0 refl refl)) (shares refl refl)

Reach-Driven_example :
    (calls in_libcoap ≤ 1)
    × (bit in_libcoap.do_work ≤ calls in_libcoap)
    × (bit (is_processing in_libcoap.io) + shut in_libcoap.stage ≤ 1 + bit in_libcoap.dangling)
    × CanDangle in_libcoap
Reach-Driven_example = Reach-Driven in_libcoap in_libcoap-Reach
