-- ===== src/Examples/Hub.antt =====
-- A worker that reconnects before its old connection ends.
use saturnus.Base.{true, false, ◌≡◌, refl}
use saturnus.Server.Hub.{Hub, connect, disconnect, is_online}
use saturnus.Server.Hub.History.{new_hub, connection_end}

abbrev first : Hub
first = connect 10 "w1" 1 new_hub

first_open : first.closed ≡ false
unfolding connect
first_open = refl

connection_end_example :
    (is_online "w1" (disconnect "w1" 1 (connect 20 "w1" 2 first)) ≡ true)
    × ((disconnect "w1" 1 (connect 20 "w1" 2 first)).online "w1" ≡ 20)
connection_end_example = connection_end 20 "w1" 2 1 first first_open
