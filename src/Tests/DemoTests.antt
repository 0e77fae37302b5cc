-- ===== src/Tests/DemoTests.antt =====
-- A demonstration that asks the gate first.
use Prim.Native.String.{len}
use esclusa.Prelude.{ℕ, ◌≡◌, true, Option, some, none, List, [], ◌∷◌, refl}
use esclusa.Text.{show, byte_len}
use esclusa.Db.{TopologyRow}
use esclusa.Http.{AppState, HeaderMap}
use esclusa.Demo.{
  Peer, DemoReq, target, target_port, playdead_seconds, request, request_body, play_dead,
  approved_of, demo_decommission,
}
use esclusa.Demo.Justified.{Decommissioned, demo_decommission-Settled}
use esclusa.Tests.Fixtures.{toy, key, tables, world}

abbrev app : AppState
app = record { connected = true; cache = none; mem_rl = []; gate_token = none; signing_key = key }

abbrev headers : HeaderMap
headers = record { x_forwarded_for = none; x_gate_token = none }

abbrev from_slice : List ℕ → Option DemoReq
from_slice [] = none
from_slice (b ∷ r) = some (record { approved = some true })

-- "HTTP/1.1 200 OK".
abbrev peer : Peer
peer = record {
  connect = λ host port. true;
  write = true;
  read = some (72 ∷ 84 ∷ 84 ∷ 80 ∷ 47 ∷ 49 ∷ 46 ∷ 49 ∷ 32 ∷ 50 ∷ 48 ∷ 48 ∷ 32 ∷ 79 ∷ 75 ∷ []);
}

abbrev as_read : List TopologyRow → List TopologyRow
as_read rows = rows

demo_decommission-Settled_example :
    Decommissioned toy app headers
      (target (some "app"))
      as_read
      (play_dead peer (target (some "app")) (target_port none) playdead_seconds)
      (approved_of (from_slice (123 ∷ [])))
      tables
      (demo_decommission toy app as_read from_slice headers "10.1.1.1"
        (123 ∷ [])
        peer
        (target (some "app"))
        (target_port none)
        world)
demo_decommission-Settled_example =
    demo_decommission-Settled toy app headers (target (some "app")) as_read from_slice "10.1.1.1"
      (123 ∷ []) peer (target_port none) world

-- The line ends of the request are two characters.
request_small :
    request "a" 90
    ≡ "POST /playdead HTTP/1.1\r\nHost: a\r\nContent-Type: application/json\r\nContent-Length: 14\r\nConnection: close\r\n\r\n{\"seconds\":90}"
unfolding request request_body show byte_len
request_small = refl

line_end : len "\r\n" ≡ 2
line_end = refl

play_dead_ok : (play_dead peer "app" 3000 90).ok ≡ true
unfolding play_dead
play_dead_ok = refl
