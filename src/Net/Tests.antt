-- ===== src/Net/Tests.antt =====
-- Queues at a page, and a bus with the device in its third slot.
use pindos.Base.{List, [], ◌∷◌}
use pindos.Net.{init}
use pindos.Net.Queue.{Packet, send_all, HasTaken, send_all-HasTaken}

abbrev packets : List Packet
packets = record { addr = 8192; len = 60 } ∷ record { addr = 12288; len = 1514 } ∷ []

send_all-HasTaken_example : HasTaken packets (send_all (init 4096 49152 1) packets)
send_all-HasTaken_example = send_all-HasTaken packets 4096 49152 1
