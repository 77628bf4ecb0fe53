-- ===== src/Cc/Null.antt =====
-- common/null_cc.hpp: the controller that does nothing and gives no rate.
use win_udpsharded_echo.Float.{Double, nought}
use win_udpsharded_echo.Cc.{Controller}

module _ {F : Type 0} ⦃d : Double F⦄ where
  abbrev pub null_congestion_controller : Controller F (Unit {0})
  null_congestion_controller = record {
    default = tt;
    set_initial_rate = λ _ c. c;
    on_send = λ _ _ c. c;
    on_ack = λ _ _ _ c. c;
    on_poll = λ _ c. c;
    target_rate_pps = λ _. nought;
  }
